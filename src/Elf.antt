-- ===== src/Elf.antt =====
-- lib/elfloader.c, and the callback of kern/env.c that load_icode passes to it.
pub mod Segment
pub mod Loading
use os_challenge_sudo_shell.Base.{
  ℕ, zero, suc, ◌+◌, ◌-◌, ◌*◌, ◌/◌, ◌%◌, ◌^◌, ◌≡◌, min, Bool, true, false, ◌&&◌, Option, none, some,
  ltb, leb, ◌==◌, if◌then◌else◌, update, Error, e_no_mem, Result, ok, err,
}

-- The fields of Elf32_Ehdr that elf_from reads
pub record Ehdr : Type 0 where
  pub e_ident : ℕ → ℕ
  pub e_type : ℕ

-- The size of an Elf32_Ehdr is 52 bytes.
unfoldable pub elf_from : Ehdr → ℕ → Option Ehdr
elf_from h size =
    let magic : Bool =
      (h.e_ident 0 == 127) && (h.e_ident 1 == 69) && (h.e_ident 2 == 76) && (h.e_ident 3 == 70) in
    if leb 52 size && magic && (h.e_type == 2) then some h else none

-- The fields of Elf32_Phdr that elf_load_seg reads
pub record Phdr : Type 0 where
  pub p_vaddr : ℕ
  pub p_filesz : ℕ
  pub p_memsz : ℕ
  pub p_flags : ℕ

-- The arguments of a call of map_page: `src` is a distance from `bin`, or none for NULL.
pub record Chunk : Type 0 where
  pub va : ℕ
  pub offset : ℕ
  pub perm : ℕ
  pub src : Option ℕ
  pub len : ℕ

abbrev pub Mapper : Type 0 → Type 0
Mapper S = Chunk → S → Result ℕ × S

-- PTE_V, and PTE_D for a segment with PF_W
abbrev pub seg_perm : Phdr → ℕ
seg_perm ph = if ph.p_flags / 2 % 2 == 1 then 128 + 256 else 128

-- va - ROUNDDOWN(va, PAGE_SIZE)
abbrev pub seg_offset : Phdr → ℕ
seg_offset ph = ph.p_vaddr % 4096

-- The bytes of the file that fit in the first page, if the segment starts within it
abbrev pub first_len : Phdr → ℕ
first_len ph = min ph.p_filesz (4096 - seg_offset ph)

abbrev pub first_chunk : Phdr → Chunk
first_chunk ph = record {
  va = ph.p_vaddr;
  offset = seg_offset ph;
  perm = seg_perm ph;
  src = some 0;
  len = first_len ph;
}

abbrev pub content_chunk : Phdr → ℕ → Chunk
content_chunk ph i = record {
  va = (ph.p_vaddr + i) % 2 ^ 32;
  offset = 0;
  perm = seg_perm ph;
  src = some i;
  len = min (ph.p_filesz - i) 4096;
}

abbrev pub zero_chunk : Phdr → ℕ → Chunk
zero_chunk ph i = record {
  va = (ph.p_vaddr + i) % 2 ^ 32;
  offset = 0;
  perm = seg_perm ph;
  src = none;
  len = min (ph.p_memsz - i) 4096;
}

-- What follows a call of map_page that returned 0; an error is returned.
abbrev pub after_map :
    {S : Type 0} → Result ℕ × S → (S → Option (Result ℕ × S)) → Option (Result ℕ × S)
after_map (ok r, s) f = f s
after_map (err e, s) f = some (err e, s)

module _ {S : Type 0} (map_page : Mapper S) (ph : Phdr) where
  -- Step 1 from `i` on, with the place that it reaches. Without fuel the loop has not ended.
  unfoldable pub load_content : ℕ → ℕ → S → Option (Result ℕ × S)
  load_content zero i s = if ltb i ph.p_filesz then none else some (ok i, s)
  load_content (suc fuel) i s =
      if ltb i ph.p_filesz
      then after_map (map_page (content_chunk ph i) s) (load_content fuel ((i + 4096) % 2 ^ 32))
      else some (ok i, s)

  -- Step 2 from `i` on
  unfoldable pub fill_rest : ℕ → ℕ → S → Option (Result ℕ × S)
  fill_rest zero i s = if ltb i ph.p_memsz then none else some (ok 0, s)
  fill_rest (suc fuel) i s =
      if ltb i ph.p_memsz
      then after_map (map_page (zero_chunk ph i) s) (fill_rest fuel ((i + 4096) % 2 ^ 32))
      else some (ok 0, s)

  abbrev pub then_fill : Option (Result ℕ × S) → Option (Result ℕ × S)
  then_fill none = none
  then_fill (some (err e, s)) = some (err e, s)
  then_fill (some (ok i, s)) = fill_rest ph.p_memsz i s

  unfoldable pub elf_load_seg : S → Option (Result ℕ × S)
  elf_load_seg s =
      if seg_offset ph == 0
      then then_fill (load_content ph.p_filesz 0 s)
      else after_map (map_page (first_chunk ph) s)
          (λ t. then_fill (load_content ph.p_filesz (first_len ph) t))

-- A page of an address space
pub record Mapped : Type 0 where
  pub perm : ℕ
  pub bytes : ℕ → ℕ

abbrev pub Image : Type 0
Image = ℕ → Option Mapped

-- The zeroed page with the bytes that memcpy puts in it
abbrev pub page_bytes : (ℕ → ℕ) → Chunk → ℕ → ℕ
page_bytes bin c x = elim c.src as (λ s. ℕ) [
  | none ↦ 0
  | some b ↦ if leb c.offset x && ltb x (c.offset + c.len) then bin (b + (x - c.offset)) else 0
]

-- The page replaces the one that was mapped there. The pages for which page_alloc or page_insert
-- finds no memory are an argument.
abbrev pub load_icode_mapper : (ℕ → Bool) → (ℕ → ℕ) → Mapper Image
load_icode_mapper refused bin c s =
    if refused (c.va / 4096)
    then (err e_no_mem, s)
    else (ok 0, update s (c.va / 4096) (some (record { perm = c.perm; bytes = page_bytes bin c })))
