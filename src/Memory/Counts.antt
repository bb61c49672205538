-- ===== src/Memory/Counts.antt =====
-- The reference counts of kern/pmap.c under page_remove.
use os_challenge_sudo_shell.Base.{
  ℕ, ◌-◌, ◌+◌, ◌%◌, ◌^◌, Result, ◌∷◌, ◌<◌, ◌≡◌, refl, Bool, true, false, Option, none, some, ◌==◌,
  if◌then◌else◌, arith, Holds, Holds-bind, Holds-weaken, Holds-both, subst, Returns, Ends-Holds,
  has, Bool-cases, inl, inr, ◌⊎◌, ok, err, ap, sym, ◌∙◌, ◌>>=◌, ◌>>◌,
}
use os_challenge_sudo_shell.Memory.View.{dir_entry, translate, Found, page_lookup-Found}
use os_challenge_sudo_shell.Memory.Table.{Shape, InUse}
use os_challenge_sudo_shell.Memory.Free.{FreeInv, Alloc, page_alloc-Alloc, Keeps, page_remove-Keeps}
use os_challenge_sudo_shell.Memory.Ends.{InRange, page_remove-Ends, page_insert-Ends}
use os_challenge_sudo_shell.Memory.Insert.{Unmapped, page_remove-Unmapped, dir_of_mapped}
use os_challenge_sudo_shell.Memory.{
  Memory, Slot, page_lookup, page_remove, remove_at, page_decref, page_free, store, tlb_invalidate,
  utop, pgdir_walk, load, insert_new, insert_over, page_insert, new_table, table_slot, slot_found,
  pa2page, page_alloc, is_valid, pdx,
}

-- Whether a mapping names the page.
abbrev pub names : Option ℕ → ℕ → Bool
names none q = false
names (some p) q = p == q

-- A page loses the reference of the mapping, if that named it.
abbrev pub Dropped : Option ℕ → Memory → Memory → Type 0
Dropped o m t = (q : ℕ) → t.ref q ≡ (if names o q then m.ref q - 1 else m.ref q)

remove_at-Dropped :
    (d asid va : ℕ) (r : Option (ℕ × Slot)) (m t : Memory)
    → Found d va m r t
    → Holds (remove_at asid va r t) (λ _ u. Dropped (translate m d va) m u)
unfolding remove_at page_decref page_free store tlb_invalidate
remove_at-Dropped d asid va none m t f = rw (f.0, f.1) (λ q. refl)
remove_at-Dropped d asid va (some (p, s)) m t f = rw (f.0, f.2) (ground arith)

page_remove-drops :
    (d asid va : ℕ) (m : Memory)
    → Holds (page_remove d asid va m) (λ _ t. Dropped (translate m d va) m t)
unfolding page_remove
page_remove-drops d asid va m =
    Holds-bind (Found d va m) _ (page_lookup d va) _ m (page_lookup-Found d va m)
      λ r t f. remove_at-Dropped d asid va r m t f

-- For an address below UTOP, in a page table whose tables and mapped pages exist and are counted,
-- `page_remove` comes to an end, the page that the address was mapped to loses one reference, and
-- no other count changes.
pub page_remove-Dropped :
    (d asid va : ℕ) (m : Memory)
    → va < utop
    → InRange m d
    → Returns (page_remove d asid va m) (λ _ t. Dropped (translate m d va) m t)
page_remove-Dropped d asid va m lt i =
    Ends-Holds _ (page_remove d asid va m) (page_remove-Ends d va m lt i asid)
      (page_remove-drops d asid va m)

-- A walk that needs no new table, or a page that is not free, so that no new table is made of it.
abbrev pub Spared : Memory → ℕ → ℕ → ℕ → Type 0
Spared m d va q = (is_valid (dir_entry m d va) ≡ true) ⊎ (has q m.free ≡ false)

slot_of-refs :
    (e va : ℕ) (m t : Memory) (c : ℕ → Type 0)
    → ((q : ℕ) → c q → t.ref q ≡ m.ref q)
    → Holds ((table_slot e va >>= slot_found) t) (λ _ u. (q : ℕ) → c q → u.ref q ≡ m.ref q)
unfolding table_slot pa2page
slot_of-refs e va m t c f = ground arith

-- The walk leaves the counts of such pages alone.
pgdir_walk-refs :
    (d va : ℕ) (m : Memory) (c : ℕ → Type 0)
    → ((q : ℕ) → c q → Spared m d va q)
    → FreeInv m
    → Holds (pgdir_walk d va true m) (λ _ t. (q : ℕ) → c q → t.ref q ≡ m.ref q)
unfolding pgdir_walk load new_table store
pgdir_walk-refs d va m c k v = elim (Bool-cases (is_valid (m.word d (pdx va)))) [
  | inl e ↦ rw e (slot_of-refs _ va m m c (λ q h. refl))
  | inr e ↦ rw e (
      Holds-bind (λ _ t. (q : ℕ) → c q → t.ref q ≡ m.ref q) _ (new_table d va) _ m
        (Holds-bind (Alloc m) _ page_alloc _ m (page_alloc-Alloc m v) (elim [
          | ok p ↦ λ t h q x. elim (k q x) [
            | inl y ↦ absurd (ground (arith, y, e))
            | inr n ↦ ground (arith, h.1, n, ap (λ r. r q) h.5)
          ]
          | err x ↦ λ t h q y. ap (λ w. w.ref q) h.2
        ]))
        (elim [ ok x ↦ λ t h. slot_of-refs x va m t c h | err x ↦ λ t h. h ]))
]

-- One more reference to the page, and no other count changed.
abbrev pub Gained : ℕ → (ℕ → Type 0) → Memory → Result (Unit {0}) → Memory → Type 0
Gained p c m (ok x) t =
    (q : ℕ) → c q → t.ref q ≡ (if p == q then (m.ref q + 1) % 2 ^ 16 else m.ref q)
Gained p c m (err x) t = (q : ℕ) → c q → t.ref q ≡ m.ref q

insert_new-Gained :
    (d asid p va perm : ℕ) (m : Memory) (c : ℕ → Type 0)
    → ((q : ℕ) → c q → Spared m d va q)
    → c p
    → FreeInv m
    → Holds (insert_new d asid p va perm m) (Gained p c m)
unfolding insert_new store tlb_invalidate
insert_new-Gained d asid p va perm m c k cp v =
    let m' : Memory = record m { flushed = (asid, va) ∷ m.flushed } in
    let v' : FreeInv m' = record { few = v.few; once = v.once; unused = v.unused } in
    Holds-bind (λ _ t. (q : ℕ) → c q → t.ref q ≡ m.ref q) _ (pgdir_walk d va true) _ m'
      (pgdir_walk-refs d va m' c k v')
      (elim [
        | ok none ↦ λ t h. tt
        | ok (some x) ↦ λ t h q y. ground (arith, h q y, h p cp)
        | err e ↦ λ t h. h
      ])

-- The counts of pages that were not free, after page_insert of the page over the old mapping.
abbrev pub Linked : Option ℕ → ℕ → Memory → Result (Unit {0}) → Memory → Type 0
Linked old p m (ok x) t =
    (q : ℕ)
    → has q m.free ≡ false
    → t.ref q ≡ (
        if names old p
        then m.ref q
        else (if p == q
            then (m.ref q + 1) % 2 ^ 16
            else (if names old q then m.ref q - 1 else m.ref q)))
Linked old p m (err x) t =
    (q : ℕ) → has q m.free ≡ false → t.ref q ≡ (if names old q then m.ref q - 1 else m.ref q)

module _ (d va : ℕ) (m : Memory) (lt : va < utop) (s : Shape m d) (v : FreeInv m) (u : InUse m d)
    (i : InRange m d) (asid p perm : ℕ) (out : has p m.free ≡ false) where
  over_none : Holds (insert_new d asid p va perm m) (Linked none p m)
  over_none =
      Holds-weaken _ _ (insert_new d asid p va perm m)
        (insert_new-Gained d asid p va perm m (λ q. has q m.free ≡ false) (λ q h. inr h) out v)
        (elim [ ok x ↦ λ t h. h | err x ↦ λ t h. h ])

  over_other :
      (q : ℕ)
      → (q == p) ≡ false
      → translate m d va ≡ some q
      → Holds ((page_remove d asid va >> insert_new d asid p va perm) m) (Linked (some q) p m)
  over_other q ne e =
      let valid : is_valid (dir_entry m d va) ≡ true = dir_of_mapped m d va q e in
      Holds-bind
        (λ _ t.
          (Dropped (translate m d va) m t × Unmapped d va m t)
          × Keeps (λ y. translate m d va ≡ some y) m t)
        _ (page_remove d asid va) _ m
        (Holds-both _ _ (page_remove d asid va m)
          (Holds-both _ _ (page_remove d asid va m) (page_remove-drops d asid va m)
            (page_remove-Unmapped d va m lt s asid))
          (page_remove-Keeps d asid va m v))
        λ x t h.
          let now : is_valid (dir_entry t d va) ≡ true = ap is_valid h.0.1.3 ∙ valid in
          let f : Dropped (some q) m t = subst (λ o. Dropped o m t) e h.0.0 in
          Holds-weaken _ _ (insert_new d asid p va perm t)
            (insert_new-Gained d asid p va perm t (λ y. Unit {0}) (λ y z. inl now) tt h.1.inv)
            (elim [
              | ok z ↦ λ w g y o. ground (arith, g y tt, f y, ne)
              | err z ↦ λ w g y o. g y tt ∙ f y
            ])

  insert_over-Linked :
      (r : Option (ℕ × Slot)) (t : Memory)
      → Found d va m r t
      → Holds (insert_over d asid p va perm r t) (Linked (translate m d va) p m)
  unfolding insert_over store tlb_invalidate
  insert_over-Linked none t f = rw (f.0, f.1) over_none
  insert_over-Linked (some (q, x)) t f = elim (Bool-cases (q == p)) [
    | inl same ↦ rw (f.0, f.2, same) (λ y o. ground (arith, same))
    | inr other ↦
        subst (λ o. Holds (insert_over d asid p va perm (some (q, x)) t) (Linked o p m)) (sym f.2)
          (rw (f.0, other) (over_other q other f.2))
  ]

  -- For an address below UTOP, in a page table whose tables and mapped pages exist, are counted, are
  -- apart from each other and from the directory and are not free, with a sound free list, and for a
  -- page that is not free: `page_insert` comes to an end, and of the pages that were not free, on
  -- success, if the address was mapped to the page already no count changes, and else the page gains
  -- one reference in its 16-bit count, the page that the address was mapped to loses one, and no
  -- other count changes. On failure no count of these changes but that of a page that the address was
  -- mapped to, which loses one.
  pub page_insert-Linked : Returns (page_insert d asid p va perm m) (Linked (translate m d va) p m)
  unfolding page_insert
  page_insert-Linked =
      Ends-Holds _ (page_insert d asid p va perm m) (page_insert-Ends d va m lt s v u i asid p perm)
        (Holds-bind (Found d va m) _ (page_lookup d va) _ m (page_lookup-Found d va m)
          insert_over-Linked)
