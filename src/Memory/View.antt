-- ===== src/Memory/View.antt =====
-- What a page table says, read straight from memory: the specification of the walk.
use os_challenge_sudo_shell.Base.{
  ℕ, ◌<◌, ◌≡◌, ◌&&◌, Option, none, some, if◌then◌else◌, arith, Holds,
}
use os_challenge_sudo_shell.Memory.{
  Memory, Slot, pgdir_walk, page_lookup, lookup_at, load, table_slot, pa2page, pdx, ptx, ppn,
  is_valid,
}

-- The entry of the directory `d` for `va`, and the place of its page table entry.
abbrev pub dir_entry : Memory → ℕ → ℕ → ℕ
dir_entry m d va = m.word d (pdx va)

abbrev pub slot : Memory → ℕ → ℕ → Slot
slot m d va = (ppn (dir_entry m d va), ptx va)

abbrev pub pte : Memory → ℕ → ℕ → ℕ
pte m d va = m.word (ppn (dir_entry m d va)) (ptx va)

-- The page that `va` is mapped to.
abbrev pub translate : Memory → ℕ → ℕ → Option ℕ
translate m d va =
    if is_valid (dir_entry m d va) && is_valid (pte m d va) then some (ppn (pte m d va)) else none

-- `page_lookup` changes nothing, and answers what the tables say.
abbrev pub Found : ℕ → ℕ → Memory → Option (ℕ × Slot) → Memory → Type 0
Found d va m (some (p, s)) t =
    (t ≡ m) × (p < m.npage) × (translate m d va ≡ some p) × (s ≡ slot m d va)
Found d va m none t = (t ≡ m) × (translate m d va ≡ none)

pub page_lookup-Found : (d va : ℕ) (m : Memory) → Holds (page_lookup d va m) (Found d va m)
unfolding page_lookup pgdir_walk load table_slot pa2page lookup_at
page_lookup-Found d va m = ground arith
