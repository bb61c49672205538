-- ===== src/Memory/Free.antt =====
-- The free list of kern/pmap.c under every operation on pages.
use os_challenge_sudo_shell.Base.{
  ℕ, ◌^◌, ◌≤◌, ◌<◌, ◌≡◌, refl, ◌≢◌, Bool, true, false, List, [], ◌∷◌, Option, none, some, ◌==◌,
  update, Result, ok, err, e_no_mem, arith, has, Distinct, Holds, Holds-bind, Bool-cases, ◌>>=◌,
  ◌>>◌, ◌⊎◌, inl, inr,
}
use os_challenge_sudo_shell.Memory.View.{translate, Found, page_lookup-Found}
use os_challenge_sudo_shell.Memory.{
  slot_found, Memory, Slot, page_alloc, page_free, page_decref, insert_over, pgdir_walk,
  page_lookup, page_remove, page_insert, insert_new, remove_at, new_table, alloc_from, load, store,
  table_slot, pa2page, pdx, is_valid, tlb_invalidate,
}

-- Free pages exist, are unreferenced, and stand on the list once.
pub record FreeInv (m : Memory) : Type 0 where
  pub few : m.npage ≤ 2 ^ 20
  pub once : Distinct m.free
  pub unused : (p : ℕ) → has p m.free ≡ true → (p < m.npage) × (m.ref p ≡ 0)

-- A step from `m` to `t` keeps the invariant and the size of memory, and frees no page but those
-- that `may` names.
pub record Keeps (may : ℕ → Type 0) (m t : Memory) : Type 0 where
  pub inv : FreeInv t
  pub size : t.npage ≡ m.npage
  pub frees : (p : ℕ) → has p t.free ≡ true → (has p m.free ≡ true) ⊎ may p

abbrev pub Nothing : ℕ → Type 0
Nothing p = ⊥

keep_here : {may : ℕ → Type 0} (m : Memory) → FreeInv m → Keeps may m m
keep_here m v = record { inv = v; size = refl; frees = λ p h. inl h }

-- `page_alloc` fails on an empty list alone, and hands out a page that was free and is not any more.
abbrev pub Alloc : Memory → Result ℕ → Memory → Type 0
Alloc m (ok p) t =
    Keeps Nothing m t
    × (has p m.free ≡ true)
    × (has p t.free ≡ false)
    × (p < m.npage)
    × (m.ref p ≡ 0)
    × (t.ref ≡ m.ref)
    × (t.word ≡ update m.word p (λ _. 0))
Alloc m (err e) t = (m.free ≡ []) × (e ≡ e_no_mem) × (t ≡ m)

alloc_from-Alloc :
    (m : Memory) (l : List ℕ) → m.free ≡ l → FreeInv m → Holds (alloc_from l m) (Alloc m)
unfolding alloc_from
alloc_from-Alloc m [] e v = (e, refl, refl)
alloc_from-Alloc m (p ∷ rest) e v = (
  record {
    inv = record {
      few = v.few;
      once = ground (arith, v.once);
      unused = λ q h. ground (arith, v.unused q);
    };
    size = refl;
    frees = λ q h. inl (ground arith);
  },
  ground arith,
  ground (arith, v.once),
  ground (arith, v.unused p),
  ground (arith, v.unused p),
  refl,
  refl,
)

pub page_alloc-Alloc : (m : Memory) → FreeInv m → Holds (page_alloc m) (Alloc m)
unfolding page_alloc
page_alloc-Alloc m v = alloc_from-Alloc m m.free refl v

pub page_decref-Keeps :
    (p : ℕ) (m : Memory)
    → p < m.npage
    → FreeInv m
    → Holds (page_decref p m) (λ _ t. Keeps (λ q. q ≡ p) m t)
unfolding page_decref page_free
page_decref-Keeps p m lt v = grind (arith, v.unused)

new_table-Keeps :
    (d va : ℕ) (m : Memory) → FreeInv m → Holds (new_table d va m) (λ _ t. Keeps Nothing m t)
unfolding new_table store
new_table-Keeps d va m v = Holds-bind (Alloc m) _ page_alloc _ m (page_alloc-Alloc m v) (elim [
  | ok p ↦ λ t h. grind (arith, h.0.inv.unused, h.0.frees)
  | err e ↦ λ t h. ground (arith, keep_here {may = Nothing} m v)
])

slot_of-Keeps :
    (entry va : ℕ) (m t : Memory)
    → Keeps Nothing m t
    → Holds ((table_slot entry va >>= slot_found) t) (λ _ u. Keeps Nothing m u)
unfolding table_slot pa2page
slot_of-Keeps entry va m t k = ground arith

pub pgdir_walk-Keeps :
    (d va : ℕ) (c : Bool) (m : Memory)
    → FreeInv m
    → Holds (pgdir_walk d va c m) (λ _ t. Keeps Nothing m t)
unfolding pgdir_walk load
pgdir_walk-Keeps d va true m v = elim (Bool-cases (is_valid (m.word d (pdx va)))) [
  | inl e ↦ rw e (slot_of-Keeps _ va m m (keep_here m v))
  | inr e ↦ rw e (
      Holds-bind _ _ (new_table d va) _ m (new_table-Keeps d va m v)
        (elim [ ok p ↦ λ t h. slot_of-Keeps p va m t h | err x ↦ λ t h. h ]))
]
pgdir_walk-Keeps d va false m v = elim (Bool-cases (is_valid (m.word d (pdx va)))) [
  | inl e ↦ rw e (slot_of-Keeps _ va m m (keep_here m v))
  | inr e ↦ rw e (keep_here m v)
]

remove_at-Keeps :
    (d asid va : ℕ) (r : Option (ℕ × Slot)) (m t : Memory)
    → FreeInv m
    → Found d va m r t
    → Holds (remove_at asid va r t) (λ _ u. Keeps (λ q. translate m d va ≡ some q) m u)
unfolding remove_at store tlb_invalidate
remove_at-Keeps d asid va none m t v f =
    ground (arith, keep_here {may = λ q. translate m d va ≡ some q} m v)
remove_at-Keeps d asid va (some (p, s)) m t v f = grind (arith, page_decref-Keeps p m f.1 v)

-- `page_remove` frees no page but the one that was mapped.
pub page_remove-Keeps :
    (d asid va : ℕ) (m : Memory)
    → FreeInv m
    → Holds (page_remove d asid va m) (λ _ u. Keeps (λ q. translate m d va ≡ some q) m u)
unfolding page_remove
page_remove-Keeps d asid va m v =
    Holds-bind (Found d va m) _ (page_lookup d va) _ m (page_lookup-Found d va m)
      λ r t f. remove_at-Keeps d asid va r m t v f

-- A page that is in use stays so over a step that does not free it.
still_used :
    {may : ℕ → Type 0} {m t : Memory} (p : ℕ)
    → Keeps may m t
    → ¬ may p
    → has p m.free ≡ false
    → has p t.free ≡ false
still_used {m = m} {t = t} p k w h = elim (Bool-cases (has p t.free)) [
  | inl e ↦ elim (k.frees p e) [ inl e' ↦ cc | inr x ↦ absurd (w x) ]
  | inr e ↦ e
]

insert_new-FreeInv :
    (d asid p va perm : ℕ) (m : Memory)
    → p < m.npage
    → has p m.free ≡ false
    → FreeInv m
    → Holds (insert_new d asid p va perm m) (λ _ u. FreeInv u × (u.npage ≡ m.npage))
unfolding insert_new store tlb_invalidate
insert_new-FreeInv d asid p va perm m lt out v =
    let m' : Memory = record m { flushed = (asid, va) ∷ m.flushed } in
    let v' : FreeInv m' = record { few = v.few; once = v.once; unused = v.unused } in
    Holds-bind (λ _ t. Keeps Nothing m' t) _ (pgdir_walk d va true) _ m'
      (pgdir_walk-Keeps d va true m' v')
      (elim [
        | ok none ↦ λ t k. tt
        | ok (some s) ↦ λ t k. grind (arith, k.inv.unused, still_used p k (λ x. x) out)
        | err e ↦ λ t k. (k.inv, k.size)
      ])

after_remove-FreeInv :
    (d asid p va perm : ℕ) (m : Memory)
    → p < m.npage
    → has p m.free ≡ false
    → FreeInv m
    → translate m d va ≢ some p
    → Holds
        ((page_remove d asid va >> insert_new d asid p va perm) m)
        (λ _ u. FreeInv u × (u.npage ≡ m.npage))
after_remove-FreeInv d asid p va perm m lt out v ne =
    Holds-bind (λ _ t. Keeps (λ q. translate m d va ≡ some q) m t) _ (page_remove d asid va) _ m
      (page_remove-Keeps d asid va m v)
      λ r t k.
        rw (← k.size)
          (insert_new-FreeInv d asid p va perm t (rw k.size lt) (still_used p k ne out) k.inv)

insert_over-FreeInv :
    (d asid p va perm : ℕ) (r : Option (ℕ × Slot)) (m t : Memory)
    → p < m.npage
    → has p m.free ≡ false
    → FreeInv m
    → Found d va m r t
    → Holds (insert_over d asid p va perm r t) (λ _ u. FreeInv u × (u.npage ≡ m.npage))
unfolding insert_over store tlb_invalidate
insert_over-FreeInv d asid p va perm none m t lt out v f =
    rw f.0 (insert_new-FreeInv d asid p va perm m lt out v)
insert_over-FreeInv d asid p va perm (some (q, s)) m t lt out v f = elim (Bool-cases (q == p)) [
  | inl same ↦ rw (f.0, same) (record { few = v.few; once = v.once; unused = v.unused }, refl)
  | inr other ↦
      rw (f.0, other) (after_remove-FreeInv d asid p va perm m lt out v (λ e. ground (arith, f.2)))
]

-- `page_insert` of a page in use keeps the free list sound.
pub page_insert-FreeInv :
    (d asid p va perm : ℕ) (m : Memory)
    → p < m.npage
    → has p m.free ≡ false
    → FreeInv m
    → Holds (page_insert d asid p va perm m) (λ _ u. FreeInv u × (u.npage ≡ m.npage))
unfolding page_insert
page_insert-FreeInv d asid p va perm m lt out v =
    Holds-bind (Found d va m) _ (page_lookup d va) _ m (page_lookup-Found d va m)
      λ r t f. insert_over-FreeInv d asid p va perm r m t lt out v f
