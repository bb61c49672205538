-- ===== src/Elf/Loading.antt =====
-- The loops of elf_load_seg in lib/elfloader.c.
use mathlib.Core.Bool.{true≢false}
use os_challenge_sudo_shell.Base.{
  ℕ, zero, suc, ◌+◌, ◌/◌, ◌%◌, ◌^◌, ◌≤◌, ◌<◌, ◌≡◌, ◌⊎◌, inl, inr, refl, sym, ◌∙◌, Bool, Option,
  none, some, ltb, ◌==◌, update, Result, ok, err, Bool-cases, ltb→lt, ltb→le, le→ltb, ==_iff, ==→ne,
  arith,
}
use os_challenge_sudo_shell.Elf.{
  Phdr, Chunk, seg_offset, first_len, first_chunk, content_chunk, zero_chunk, after_map,
  load_content, fill_rest, then_fill, elf_load_seg, Image, page_bytes, load_icode_mapper,
}
use os_challenge_sudo_shell.Elf.Segment.{
  Ended, wanted, Placed, Loaded, Aligned, page_of, put_page, put_first, content_bytes, zero_bytes,
}

module _ (refused : ℕ → Bool) (bin : ℕ → ℕ) where
  abbrev map_at : Chunk → Image → Result ℕ × Image
  map_at = load_icode_mapper refused bin

  map_at-Ended :
      (c : Chunk) (t : Image) (f : Image → Option (Result ℕ × Image)) (Q : ℕ → Image → Type 0)
      → Ended refused
          (f (update t (c.va / 4096) (some (record { perm = c.perm; bytes = page_bytes bin c }))))
          Q
      → Ended refused (after_map (map_at c t) f) Q
  map_at-Ended c t f Q h = elim (Bool-cases (refused (c.va / 4096))) [
    | inl y ↦ rw y (refl, λ n. absurd (true≢false (sym y ∙ n (c.va / 4096))))
    | inr y ↦ rw y h
  ]

  module _ (ph : Phdr) (s : Image) (low : ph.p_vaddr + ph.p_memsz ≤ 2147483648) where
    -- How far the loops have come
    abbrev Reached : ℕ → Image → Type 0
    Reached i t = Aligned ph i × (i ≤ ph.p_memsz + 4096) × Placed bin ph s i t

    put_page-Reached :
        (i : ℕ) (t : Image) (b : ℕ → ℕ)
        → i < ph.p_memsz
        → ((x : ℕ) → x < 4096 → b x ≡ wanted bin ph (i + x))
        → Reached i t
        → Reached
            ((i + 4096) % 2 ^ 32)
            (update t ((ph.p_vaddr + i) % 2 ^ 32 / 4096) (some (page_of ph b)))
    put_page-Reached i t b lt hb (al, le, h) =
        let e : (ph.p_vaddr + i) % 4096 ≡ 0 = elim al [ inl z ↦ z | inr o ↦ omega arith ] in
        let p : (ph.p_vaddr + i) % 2 ^ 32 ≡ ph.p_vaddr + i = omega arith in
        let q : (i + 4096) % 2 ^ 32 ≡ i + 4096 = omega arith in
        rw (p, q) (inl (omega arith), omega arith, put_page bin ph s i t b e lt hb h)

    load_content-Reached :
        ph.p_filesz ≤ ph.p_memsz
        → (fuel i : ℕ) (t : Image) → ph.p_filesz ≤ i + fuel
        → Reached i t
        → Ended refused (load_content map_at ph fuel i t) (λ k u. (ph.p_filesz ≤ k) × Reached k u)
    unfolding load_content
    load_content-Reached in_memory zero i t enough h =
        rw (le→ltb i ph.p_filesz (omega arith)) (omega arith, h)
    load_content-Reached in_memory (suc fuel) i t enough h = elim (Bool-cases (ltb i ph.p_filesz)) [
      | inl y ↦
          let lt = ltb→lt i ph.p_filesz y in
          rw y (
            map_at-Ended (content_chunk ph i) t (load_content map_at ph fuel ((i + 4096) % 2 ^ 32))
              (λ k u. (ph.p_filesz ≤ k) × Reached k u)
              (load_content-Reached in_memory fuel ((i + 4096) % 2 ^ 32)
                (update t ((ph.p_vaddr + i) % 2 ^ 32 / 4096)
                  (some (page_of ph (page_bytes bin (content_chunk ph i)))))
                (omega arith)
                (put_page-Reached i t (page_bytes bin (content_chunk ph i)) (omega arith)
                  (λ x hx. content_bytes bin ph s i x lt hx) h)))
      | inr y ↦ rw y (ltb→le i ph.p_filesz y, h)
    ]

    covered-Loaded : (i : ℕ) (t : Image) → ph.p_memsz ≤ i → Reached i t → Loaded bin ph s 0 t
    covered-Loaded i t m (al, le, (h, g)) = (refl, ((λ j jm jl. h j (omega arith) jl), g))

    fill_rest-Loaded :
        (fuel i : ℕ) (t : Image)
        → ph.p_memsz ≤ i + fuel
        → ph.p_filesz ≤ i
        → Reached i t
        → Ended refused (fill_rest map_at ph fuel i t) (Loaded bin ph s)
    unfolding fill_rest
    fill_rest-Loaded zero i t enough le r =
        let m : ph.p_memsz ≤ i = omega arith in rw (le→ltb i ph.p_memsz m) (covered-Loaded i t m r)
    fill_rest-Loaded (suc fuel) i t enough le r = elim (Bool-cases (ltb i ph.p_memsz)) [
      | inl y ↦
          let lt = ltb→lt i ph.p_memsz y in
          rw y (
            map_at-Ended (zero_chunk ph i) t (fill_rest map_at ph fuel ((i + 4096) % 2 ^ 32))
              (Loaded bin ph s)
              (fill_rest-Loaded fuel ((i + 4096) % 2 ^ 32)
                (update t ((ph.p_vaddr + i) % 2 ^ 32 / 4096)
                  (some (page_of ph (page_bytes bin (zero_chunk ph i)))))
                (omega arith) (omega arith)
                (put_page-Reached i t (page_bytes bin (zero_chunk ph i)) lt
                  (λ x hx. zero_bytes bin ph s i x le) r)))
      | inr y ↦ let m = ltb→le i ph.p_memsz y in rw y (covered-Loaded i t m r)
    ]

    then_fill-Loaded :
        (o : Option (Result ℕ × Image))
        → Ended refused o (λ k u. (ph.p_filesz ≤ k) × Reached k u)
        → Ended refused (then_fill map_at ph o) (Loaded bin ph s)
    then_fill-Loaded none h = h
    then_fill-Loaded (some (err e, t)) h = h
    then_fill-Loaded (some (ok i, t)) (le, r) = fill_rest-Loaded ph.p_memsz i t (omega arith) le r

    -- Where nothing of the first page is left to be page_bytes after the file's bytes: the segment starts
    -- at a page, or its bytes in the file reach the end of the first page, or there are no others.
    abbrev pub Fits : Type 0
    Fits = (seg_offset ph ≡ 0) ⊎ ((4096 ≤ seg_offset ph + ph.p_filesz) ⊎ (ph.p_memsz ≤ ph.p_filesz))

    -- For a segment that ends at most at 2^31, has at least one byte, and no more bytes in the file
    -- than in memory, if it starts at a page, or its bytes in the file reach the end of its first page,
    -- or it has no others: `elf_load_seg` comes to an end. It fails only with E_NO_MEM, and only if a
    -- page is refused. Else it returns 0; each of its bytes is mapped with the segment's permissions
    -- and has the file's byte, or 0 behind those of the file; and the pages without a byte of the
    -- segment are as before.
    pub elf_load_seg-Loaded :
        ph.p_filesz ≤ ph.p_memsz
        → 0 < ph.p_memsz
        → Fits
        → Ended refused (elf_load_seg map_at ph s) (Loaded bin ph s)
    unfolding elf_load_seg
    elf_load_seg-Loaded in_memory some_bytes fits = elim (Bool-cases (seg_offset ph == 0)) [
      | inl y ↦
          let z = (==_iff (seg_offset ph) 0).0 y in
          rw y (
            then_fill-Loaded (load_content map_at ph ph.p_filesz 0 s) (
              load_content-Reached in_memory ph.p_filesz 0 s (omega arith) (
                inl (omega arith),
                omega arith,
                ((λ j h jm. absurd (omega arith)), λ x out. refl),
              )))
      | inr y ↦
          let z = ==→ne (seg_offset ph) 0 y in
          let al : Aligned ph (first_len ph) = elim fits [
            | inl e ↦ inr (omega arith)
            | inr (inl e) ↦ inl (omega arith)
            | inr (inr e) ↦ elim (Bool-cases (ltb (seg_offset ph + ph.p_filesz) 4096)) [
              | inl l ↦ let lt = ltb→lt (seg_offset ph + ph.p_filesz) 4096 l in inr (omega arith)
              | inr l ↦ let le = ltb→le (seg_offset ph + ph.p_filesz) 4096 l in inl (omega arith)
            ]
          ] in
          rw y (
            map_at-Ended (first_chunk ph) s
              (λ t. then_fill map_at ph (load_content map_at ph ph.p_filesz (first_len ph) t))
              (Loaded bin ph s)
              (then_fill-Loaded
                (load_content map_at ph ph.p_filesz (first_len ph) (
                  update s (ph.p_vaddr / 4096)
                    (some (page_of ph (page_bytes bin (first_chunk ph))))))
                (load_content-Reached in_memory ph.p_filesz (first_len ph)
                  (update s (ph.p_vaddr / 4096)
                    (some (page_of ph (page_bytes bin (first_chunk ph)))))
                  (omega arith) (al, omega arith, put_first bin ph s some_bytes))))
    ]
