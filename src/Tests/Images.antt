-- ===== src/Tests/Images.antt =====
-- lib/elfloader.c on a segment of three pages.
use os_challenge_sudo_shell.Base.{
  ℕ, ◌+◌, ◌≡◌, Option, none, some, inl, inr, refl, false, Result, arith,
}
use os_challenge_sudo_shell.Elf.{
  Phdr, Image, load_icode_mapper, elf_load_seg, load_content, fill_rest,
}
use os_challenge_sudo_shell.Elf.Segment.{Ended, Loaded, at}
use os_challenge_sudo_shell.Elf.Loading.{elf_load_seg-Loaded}

-- 5000 bytes of the file, and 4000 zeros, from a place within a page
abbrev data_seg : Phdr
data_seg = record { p_vaddr = 4194304 + 4000; p_filesz = 5000; p_memsz = 9000; p_flags = 6 }

abbrev empty_image : Image
empty_image x = none

elf_load_seg-Loaded_example :
    Ended
      (λ x. false)
      (elf_load_seg (load_icode_mapper (λ x. false) (λ i. i + 1)) data_seg empty_image)
      (Loaded (λ i. i + 1) data_seg empty_image)
elf_load_seg-Loaded_example =
    elf_load_seg-Loaded (λ x. false) (λ i. i + 1) data_seg empty_image (omega arith) (omega arith)
      (omega arith) (inr (inl (omega arith)))

-- 10 bytes of the file and 10 zeros within one page: the zeros' page replaces the one with the bytes.
abbrev small_seg : Phdr
small_seg = record { p_vaddr = 4194304 + 4000; p_filesz = 10; p_memsz = 20; p_flags = 6 }

abbrev image_of : Option (Result ℕ × Image) → Image
image_of none = empty_image
image_of (some (r, t)) = t

small_seg-wiped :
    at
      (image_of (elf_load_seg (load_icode_mapper (λ x. false) (λ i. i + 1)) small_seg empty_image))
      (4194304 + 4000)
    ≡ some (384, 0)
unfolding elf_load_seg load_content fill_rest
small_seg-wiped = refl
