-- ===== src/Tests/Pages.antt =====
-- kern/pmap.c on a machine of eight pages.
use os_challenge_sudo_shell.Base.{
  ◌/◌, bit_or, ◌≡◌, refl, ◌&&◌, [], ◌∷◌, ◌==◌, if◌then◌else◌, Returns, arith, has,
}
use os_challenge_sudo_shell.Memory.{Memory, page_insert, page_remove}
use os_challenge_sudo_shell.Memory.Free.{FreeInv}
use os_challenge_sudo_shell.Memory.Table.{Shape, InUse}
use os_challenge_sudo_shell.Memory.Insert.{Inserted, Unmapped}
use os_challenge_sudo_shell.Memory.Ends.{
  InRange, page_insert-Returns, page_remove-Returns, page_insert-Sound,
}
use os_challenge_sudo_shell.Memory.View.{translate}
use os_challenge_sudo_shell.Memory.Counts.{Linked, page_insert-Linked}

-- Page 2 is a directory whose entry 1 is the table on page 1, which maps 0x400000 to page 6. Pages 3, 4
-- and 5 are free.
abbrev machine : Memory
machine = record {
  npage = 8;
  ref = λ p. if has p (3 ∷ 4 ∷ 5 ∷ []) then 0 else 1;
  free = 3 ∷ 4 ∷ 5 ∷ [];
  word = λ p i. if p == 2 && i == 1 then 5760 else (if p == 1 && i == 0 then 26496 else 0);
  flushed = [];
}

machine-FreeInv : FreeInv machine
machine-FreeInv = record { few = omega arith; once = ground arith; unused = λ p h. ground arith }

machine-Shape : Shape machine 2
machine-Shape = record { other = λ va h e. ground arith; apart = λ va vb h k e f n. ground arith }

machine-InUse : InUse machine 2
machine-InUse = record { dir_used = ground arith; table_used = λ va h e. ground arith }

machine-InRange : InRange machine 2
machine-InRange = record { tables = λ va h e. ground arith; pages = λ va q h e. ground arith }

page_insert-Returns_example :
    Returns
      (page_insert 2 9 7 0x400000 256 machine)
      (Inserted 2 0x400000 (bit_or 7 (256 / 4096)) machine)
page_insert-Returns_example =
    page_insert-Returns 2 0x400000 machine (omega arith) machine-Shape machine-FreeInv machine-InUse
      machine-InRange 9 7 256 (omega arith)

page_remove-Returns_example :
    Returns (page_remove 2 9 0x400000 machine) (λ _ t. Unmapped 2 0x400000 machine t)
page_remove-Returns_example =
    page_remove-Returns 2 0x400000 machine (omega arith) machine-Shape machine-FreeInv machine-InUse
      machine-InRange 9

page_insert-Sound_example :
    Returns (page_insert 2 9 7 0x400000 256 machine) (λ _ t. FreeInv t × (t.npage ≡ machine.npage))
page_insert-Sound_example =
    page_insert-Sound 2 0x400000 machine (omega arith) machine-Shape machine-FreeInv machine-InUse
      machine-InRange 9 7 256 (omega arith) refl

page_insert-Linked_example :
    Returns
      (page_insert 2 9 7 0x400000 256 machine)
      (Linked (translate machine 2 0x400000) 7 machine)
page_insert-Linked_example =
    page_insert-Linked 2 0x400000 machine (omega arith) machine-Shape machine-FreeInv machine-InUse
      machine-InRange 9 7 256 refl
