-- ===== src/Memory.antt =====
-- kern/pmap.c, with the page macros of include/pmap.h and include/mmu.h: physical pages, their
-- reference counts and the two-level page tables that stand in them.
pub mod View
pub mod Free
pub mod Table
pub mod Insert
pub mod Ends
pub mod Counts
use os_challenge_sudo_shell.Base.{
  ℕ, zero, suc, ◌+◌, ◌-◌, ◌*◌, ◌/◌, ◌%◌, ◌^◌, ◌≤◌, ◌<◌, bit_or, ◌≡◌, refl, Bool, true, false, not,
  ◌&&◌, List, [], ◌∷◌, Option, none, some, ltb, leb, ◌==◌, if◌then◌else◌, update, Result, ok, err,
  e_no_mem, Exec, Outcome, done, stop, Stop, panic, pure, halt, modify, ◌>>=◌, ◌>>◌, ensure,
  attempt, branch,
}

abbrev pub page_size : ℕ
page_size = 4096

abbrev pub utop : ℕ
utop = 0x7f400000

abbrev pub utemp : ℕ
utemp = 0x3fe000

abbrev pub pte_v : ℕ
pte_v = 0x80

abbrev pub pte_d : ℕ
pte_d = 0x100

abbrev pub pte_c_cacheable : ℕ
pte_c_cacheable = 0x600

abbrev pub pdx : ℕ → ℕ
pdx va = va / 2 ^ 22 % 1024

abbrev pub ptx : ℕ → ℕ
ptx va = va / 2 ^ 12 % 1024

abbrev pub ppn : ℕ → ℕ
ppn pa = pa / 4096

-- `pte & PTE_V`
abbrev pub is_valid : ℕ → Bool
is_valid pte = pte / 128 % 2 == 1

-- A `struct Page *` is the number of its page, a `Pde *` the number of the page that it points to.
pub record Memory : Type 0 where
  pub npage : ℕ
  -- pages[i].pp_ref, a u_short
  pub ref : ℕ → ℕ
  -- page_free_list, first page first
  pub free : List ℕ
  -- the words of physical memory, by page and place in the page
  pub word : ℕ → ℕ → ℕ
  -- the arguments (asid, va) of the calls of tlb_invalidate, latest first
  pub flushed : List (ℕ × ℕ)

-- The address of an entry: its page and its place there.
abbrev pub Slot : Type 0
Slot = ℕ × ℕ

pub load : Slot → Exec Memory ℕ
load (p, i) m = done (m.word p i, m)

pub store : Slot → ℕ → Exec Memory (Unit {0})
store (p, i) v = modify λ m. record m { word = update m.word p (update (m.word p) i v) }

pub tlb_invalidate : ℕ → ℕ → Exec Memory (Unit {0})
tlb_invalidate asid va = modify λ m. record m { flushed = (asid, va) ∷ m.flushed }

-- page_init, where the boot allocator has used the first `used` pages.
pub free_from : ℕ → ℕ → List ℕ → List ℕ
free_from zero i l = l
free_from (suc n) i l = free_from n (i + 1) (i ∷ l)

pub page_init : ℕ → (ℕ → ℕ → ℕ) → ℕ → Memory
page_init npage word used = record {
  npage = npage;
  ref = λ i. if ltb i used then 1 else 0;
  free = free_from (npage - used) used [];
  word = word;
  flushed = [];
}

-- page2pa, in a 32-bit word
abbrev pub page2pa : ℕ → ℕ
page2pa p = p * 4096 % 2 ^ 32

-- pa2page, and the check in the macro KADDR
pub pa2page : ℕ → Exec Memory ℕ
pa2page pa m = if ltb (ppn pa) m.npage then done (ppn pa, m) else stop panic

alloc_from : List ℕ → Exec Memory (Result ℕ)
alloc_from [] m = done (err e_no_mem, m)
alloc_from (p ∷ rest) m = done (ok p, record m { free = rest; word = update m.word p (λ _. 0) })

pub page_alloc : Exec Memory (Result ℕ)
page_alloc m = alloc_from m.free m

pub page_free : ℕ → Exec Memory (Unit {0})
page_free p m = if m.ref p == 0 then done (tt, record m { free = p ∷ m.free }) else stop panic

abbrev pub set_ref : ℕ → ℕ → Exec Memory (Unit {0})
set_ref p n = modify λ m. record m { ref = update m.ref p n }

pub page_decref : ℕ → Exec Memory (Unit {0})
page_decref p m =
    if ltb 0 (m.ref p)
    then (let m' : Memory = record m { ref = update m.ref p (m.ref p - 1) } in
        if m.ref p - 1 == 0 then page_free p m' else done (tt, m'))
    else stop panic

-- `(Pte *)KADDR(PTE_ADDR(entry)) + PTX(va)`
pub table_slot : ℕ → ℕ → Exec Memory Slot
table_slot entry va = do t ← pa2page entry; pure (t, ptx va)

-- The new page for a page table, entered in the directory.
new_table : ℕ → ℕ → Exec Memory (Result ℕ)
new_table pgdir va = attempt page_alloc λ p. do
  set_ref p 1
  let entry = bit_or (bit_or (page2pa p) pte_v) pte_c_cacheable
  store (pgdir, pdx va) entry
  pure (ok entry)

abbrev pub slot_found : Slot → Exec Memory (Result (Option Slot))
slot_found s = pure (ok (some s))

pub pgdir_walk : ℕ → ℕ → Bool → Exec Memory (Result (Option Slot))
pgdir_walk pgdir va create = do
  entry ← load (pgdir, pdx va)
  branch (is_valid entry) (table_slot entry va >>= slot_found) (
      branch create (attempt (new_table pgdir va) (λ e. table_slot e va >>= slot_found))
        (pure (ok none)))

-- `page_lookup`: the page and the address of its entry. The walk does not create a table, and fails
-- only where it does.
lookup_at : Result (Option Slot) → Exec Memory (Option (ℕ × Slot))
lookup_at (ok (some s)) = do
  pte ← load s
  branch (is_valid pte) (pa2page pte >>= λ p. pure (some (p, s))) (pure none)
lookup_at _ = pure none

pub page_lookup : ℕ → ℕ → Exec Memory (Option (ℕ × Slot))
page_lookup pgdir va = do r ← pgdir_walk pgdir va false; lookup_at r

remove_at : ℕ → ℕ → Option (ℕ × Slot) → Exec Memory (Unit {0})
remove_at asid va none = pure tt
remove_at asid va (some (p, s)) = do page_decref p; store s 0; tlb_invalidate asid va

pub page_remove : ℕ → ℕ → ℕ → Exec Memory (Unit {0})
page_remove pgdir asid va = do found ← page_lookup pgdir va; remove_at asid va found

-- `page2pa(pp) | perm | PTE_C_CACHEABLE | PTE_V`
abbrev pub entry_for : ℕ → ℕ → ℕ
entry_for p perm = bit_or (bit_or (bit_or (page2pa p) perm) pte_c_cacheable) pte_v

-- The end of `page_insert`, from its step 2 on.
pub insert_new : ℕ → ℕ → ℕ → ℕ → ℕ → Exec Memory (Result (Unit {0}))
insert_new pgdir asid p va perm = do
  tlb_invalidate asid va
  r ← pgdir_walk pgdir va true
  elim r [
    | ok none ↦ halt panic
    | ok (some s) ↦
        λ m. (set_ref p ((m.ref p + 1) % 2 ^ 16) >> (store s (entry_for p perm) >> pure (ok tt))) m
    | err e ↦ pure (err e_no_mem)
  ]

insert_over : ℕ → ℕ → ℕ → ℕ → ℕ → Option (ℕ × Slot) → Exec Memory (Result (Unit {0}))
insert_over pgdir asid p va perm none = insert_new pgdir asid p va perm
insert_over pgdir asid p va perm (some (q, s)) =
    branch (q == p) (tlb_invalidate asid va >> (store s (entry_for p perm) >> pure (ok tt)))
      (page_remove pgdir asid va >> insert_new pgdir asid p va perm)

-- The test `pte && (*pte & PTE_V)` with `pa2page(*pte)` is that of `page_lookup`.
pub page_insert : ℕ → ℕ → ℕ → ℕ → ℕ → Exec Memory (Result (Unit {0}))
page_insert pgdir asid p va perm = do
  found ← page_lookup pgdir va
  insert_over pgdir asid p va perm found
