-- ===== src/Memory/Ends.antt =====
-- The checks of addresses and of reference counts on the way through page_lookup, page_remove and
-- page_insert of kern/pmap.c.
use os_challenge_sudo_shell.Base.{
  ℕ, ◌/◌, ◌^◌, ◌<◌, bit_or, ◌≡◌, sym, ap, true, false, List, [], ◌∷◌, Option, none, some, ◌==◌,
  Result, ok, err, arith, subst, has, Returns, Returns-bind, Ends, Ends-bind, Ends-Holds,
  Holds-both, Bool-cases, ◌>>=◌, inl, inr, lt→ltb,
}
use os_challenge_sudo_shell.Memory.View.{dir_entry, pte, translate, Found, page_lookup-Found}
use os_challenge_sudo_shell.Memory.Free.{
  FreeInv, Alloc, page_alloc-Alloc, Keeps, page_remove-Keeps, page_insert-FreeInv,
}
use os_challenge_sudo_shell.Memory.Table.{Shape, InUse, dir_entry_for}
use os_challenge_sudo_shell.Memory.Insert.{
  dir_of_mapped, Walkable, pgdir_walk-Walked, Unmapped, page_remove-Unmapped, Inserted,
  page_insert-Inserted, Walked,
}
use os_challenge_sudo_shell.Memory.{
  slot_found, Memory, Slot, page_alloc, alloc_from, page_free, page_decref, insert_over, pgdir_walk,
  page_lookup, page_remove, page_insert, insert_new, remove_at, lookup_at, new_table, load, store,
  table_slot, pa2page, pdx, ppn, is_valid, tlb_invalidate, utop,
}

-- Tables and mapped pages exist, and mapped pages are counted.
pub record InRange (m : Memory) (d : ℕ) : Type 0 where
  pub tables :
      (va : ℕ) → va < utop → is_valid (dir_entry m d va) ≡ true → ppn (dir_entry m d va) < m.npage
  pub pages : (va q : ℕ) → va < utop → translate m d va ≡ some q → (q < m.npage) × (0 < m.ref q)

table_slot-Ends : (e va : ℕ) (m : Memory) → ppn e < m.npage → Ends (table_slot e va m)
unfolding table_slot pa2page
table_slot-Ends e va m h = rw (◌>>=◌, lt→ltb _ _ h) tt

module _ (d va : ℕ) (m : Memory) (lt : va < utop) (i : InRange m d) where
  page_lookup-Ends : Ends (page_lookup d va m)
  unfolding page_lookup pgdir_walk load table_slot pa2page lookup_at
  page_lookup-Ends = ground (arith, i.tables va lt, i.pages va (ppn (pte m d va)) lt)

  remove_at-Ends :
      (asid : ℕ) (r : Option (ℕ × Slot)) (t : Memory)
      → Found d va m r t
      → Ends (remove_at asid va r t)
  unfolding remove_at page_decref page_free store tlb_invalidate
  remove_at-Ends asid none t f = tt
  remove_at-Ends asid (some (p, x)) t f = rw f.0 (ground (arith, i.pages va p lt f.2))

  pub page_remove-Ends : (asid : ℕ) → Ends (page_remove d asid va m)
  unfolding page_remove
  page_remove-Ends asid =
      Ends-bind (Found d va m) (page_lookup d va) _ m page_lookup-Ends (page_lookup-Found d va m)
        (remove_at-Ends asid)

alloc_from-Ends : (l : List ℕ) (m : Memory) → Ends (alloc_from l m)
unfolding alloc_from
alloc_from-Ends [] m = tt
alloc_from-Ends (p ∷ l) m = tt

page_alloc-Ends : (m : Memory) → Ends (page_alloc m)
unfolding page_alloc
page_alloc-Ends m = alloc_from-Ends m.free m

-- With a sound free list `page_alloc` comes to an end. It fails with E_NO_MEM, with nothing
-- changed, only on an empty list, and else hands out a page that exists, was free and unreferenced
-- and is free no more, cleared; no other page's words and no count change, no page becomes free,
-- and the list stays sound.
pub page_alloc-Returns : (m : Memory) → FreeInv m → Returns (page_alloc m) (Alloc m)
page_alloc-Returns m v = Ends-Holds _ (page_alloc m) (page_alloc-Ends m) (page_alloc-Alloc m v)

-- The page of a new table exists.
abbrev Exists : Result ℕ → Memory → Type 0
Exists (ok e) t = ppn e < t.npage
Exists (err x) t = Unit {0}

new_table-Returns : (d va : ℕ) (m : Memory) → FreeInv m → Returns (new_table d va m) Exists
unfolding new_table store
new_table-Returns d va m v =
    Returns-bind (Alloc m) Exists page_alloc _ m
      (Ends-Holds (Alloc m) (page_alloc m) (page_alloc-Ends m) (page_alloc-Alloc m v))
      (elim [
        | ok p ↦ λ t h.
            let e : t.npage ≡ m.npage = h.0.size in
            omega (arith, e, h.3, v.few, (dir_entry_for p (omega (arith, v.few, h.3))).1)
        | err x ↦ λ t h. tt
      ])

slot_of-Ends : (e va : ℕ) (m : Memory) → ppn e < m.npage → Ends ((table_slot e va >>= slot_found) m)
slot_of-Ends e va m h =
    Returns-bind (λ _ _. Unit {0}) _ (table_slot e va) slot_found m (table_slot-Ends e va m h)
      λ a t x. tt

pgdir_walk-Ends :
    (d va : ℕ) (m : Memory)
    → (is_valid (dir_entry m d va) ≡ true → ppn (dir_entry m d va) < m.npage)
    → Walkable d va m
    → Ends (pgdir_walk d va true m)
unfolding pgdir_walk load
pgdir_walk-Ends d va m i (inl e) = rw e (slot_of-Ends (m.word d (pdx va)) va m (i e))
pgdir_walk-Ends d va m i (inr (e, v, u)) = rw e (
    Returns-bind Exists _ (new_table d va) _ m (new_table-Returns d va m v)
      (elim [ ok x ↦ λ t h. slot_of-Ends x va t h | err x ↦ λ t h. tt ]))

insert_new-Ends :
    (d asid p va perm : ℕ) (m : Memory)
    → va < utop
    → Shape m d
    → (is_valid (dir_entry m d va) ≡ true → ppn (dir_entry m d va) < m.npage)
    → Walkable d va m
    → Ends (insert_new d asid p va perm m)
unfolding insert_new store tlb_invalidate
insert_new-Ends d asid p va perm m lt s i w =
    let m' : Memory = record m { flushed = (asid, va) ∷ m.flushed } in
    Ends-bind (Walked d va m') (pgdir_walk d va true) _ m' (pgdir_walk-Ends d va m' i (flush w))
      (pgdir_walk-Walked d va m' lt (record { other = s.other; apart = s.apart }) (flush w))
      (elim [ ok none ↦ λ t k. elim k [ ] | ok (some x) ↦ λ t k. tt | err x ↦ λ t k. tt ])
  where
    flush : Walkable d va m → Walkable d va (record m { flushed = (asid, va) ∷ m.flushed })
    flush (inl e) = inl e
    flush (inr (e, v, u)) = inr (
      e,
      record { few = v.few; once = v.once; unused = v.unused },
      record { dir_used = u.dir_used; table_used = u.table_used },
    )

module _ (d va : ℕ) (m : Memory) (lt : va < utop) (s : Shape m d) (v : FreeInv m) (u : InUse m d)
    (i : InRange m d) where
  insert_over-Ends :
      (asid p perm : ℕ) (r : Option (ℕ × Slot)) (t : Memory)
      → Found d va m r t
      → Ends (insert_over d asid p va perm r t)
  unfolding insert_over store tlb_invalidate
  insert_over-Ends asid p perm none t f = rw f.0 (
      insert_new-Ends d asid p va perm m lt s (i.tables va lt)
        (elim (Bool-cases (is_valid (dir_entry m d va))) [ inl e ↦ inl e | inr e ↦ inr (e, v, u) ]))
  insert_over-Ends asid p perm (some (q, x)) t f = elim (Bool-cases (q == p)) [
    | inl same ↦ rw (f.0, same) tt
    | inr diff ↦
        let valid : is_valid (dir_entry m d va) ≡ true = dir_of_mapped m d va q f.2 in
        rw (f.0, diff)
          (Ends-bind (λ _ w. Unmapped d va m w × Keeps (λ y. translate m d va ≡ some y) m w)
            (page_remove d asid va) _ m (page_remove-Ends d va m lt i asid)
            (Holds-both _ _ (page_remove d asid va m) (page_remove-Unmapped d va m lt s asid)
              (page_remove-Keeps d asid va m v))
            λ y w k.
              let e : dir_entry w d va ≡ dir_entry m d va = k.0.3 in
              insert_new-Ends d asid p va perm w lt k.0.2
                (λ h. omega (arith, i.tables va lt valid, k.1.size, ap ppn e))
                (inl (subst (λ z. is_valid z ≡ true) (sym e) valid)))
  ]

  pub page_insert-Ends : (asid p perm : ℕ) → Ends (page_insert d asid p va perm m)
  unfolding page_insert
  page_insert-Ends asid p perm =
      Ends-bind (Found d va m) (page_lookup d va) _ m (page_lookup-Ends d va m lt i)
        (page_lookup-Found d va m) (insert_over-Ends asid p perm)

  -- For an address below UTOP, in a page table whose tables and mapped pages exist, are counted, are
  -- apart from each other and from the directory and are not free, with a sound free list, and for a
  -- page number below 2^20: `page_insert` comes to an end. On success `va` is mapped to the page with
  -- number `p | perm >> 12`, and every address below UTOP on another page is mapped as before,
  -- whether the old mapping was absent, to the same page or to another one. It fails only with
  -- E_NO_MEM on an empty free list, with every mapping as before.
  pub page_insert-Returns :
      (asid p perm : ℕ)
      → p < 2 ^ 20
      → Returns (page_insert d asid p va perm m) (Inserted d va (bit_or p (perm / 4096)) m)
  page_insert-Returns asid p perm small =
      Ends-Holds _ (page_insert d asid p va perm m) (page_insert-Ends asid p perm)
        (page_insert-Inserted d va m lt s asid p perm small v u)

  -- For an address below UTOP, in a page table whose tables and mapped pages exist, are counted, are
  -- apart from each other and from the directory and are not free, with a sound free list, and for a
  -- page to insert that exists and is not free: `page_insert` comes to an end and keeps the free list
  -- sound: free pages exist, are unreferenced, and stand on the list once. This covers the page that
  -- is replaced and a new table.
  pub page_insert-Sound :
      (asid p perm : ℕ)
      → p < m.npage
      → has p m.free ≡ false
      → Returns (page_insert d asid p va perm m) (λ _ t. FreeInv t × (t.npage ≡ m.npage))
  page_insert-Sound asid p perm lt_p out =
      Ends-Holds _ (page_insert d asid p va perm m) (page_insert-Ends asid p perm)
        (page_insert-FreeInv d asid p va perm m lt_p out v)

  -- For an address below UTOP, in a page table whose tables and mapped pages exist, are counted, are
  -- apart from each other and from the directory and are not free, with a sound free list:
  -- `page_remove` comes to an end, `va` is unmapped, and every address below UTOP on another page is
  -- mapped as before.
  pub page_remove-Returns :
      (asid : ℕ) → Returns (page_remove d asid va m) (λ _ t. Unmapped d va m t)
  page_remove-Returns asid =
      Ends-Holds _ (page_remove d asid va m) (page_remove-Ends d va m lt i asid)
        (page_remove-Unmapped d va m lt s asid)
