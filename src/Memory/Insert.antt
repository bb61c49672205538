-- ===== src/Memory/Insert.antt =====
-- `page_insert` and `page_remove` of kern/pmap.c against the reading of a page table.
use os_challenge_sudo_shell.Base.{
  ℕ, ◌+◌, ◌/◌, ◌%◌, ◌^◌, ◌<◌, bit_or, ◌≡◌, refl, sym, ap, ◌∙◌, true, false, [], ◌∷◌, Option, none,
  some, ◌==◌, update, Result, ok, err, e_no_mem, arith, subst, Holds, Holds-bind, Bool-cases, ◌>>=◌,
  ◌⊎◌, inl, inr,
}
use os_challenge_sudo_shell.Memory.View.{dir_entry, slot, translate, Found, page_lookup-Found}
use os_challenge_sudo_shell.Memory.Free.{FreeInv, Alloc, page_alloc-Alloc}
use os_challenge_sudo_shell.Memory.Table.{
  Shape, InUse, SameElsewhere, written, written-dir_entry, written-pte, written-Shape,
  written-SameElsewhere, tabled, tabled-translate, tabled-is_valid, tabled-Shape, tabled-dir_self,
  entry_for-is_valid, ppn-entry_for,
}
use os_challenge_sudo_shell.Memory.{
  slot_found, Memory, Slot, page_alloc, page_free, page_decref, insert_over, pgdir_walk,
  page_lookup, page_remove, page_insert, insert_new, remove_at, new_table, load, store, table_slot,
  pa2page, pdx, ptx, ppn, is_valid, tlb_invalidate, page2pa, entry_for, utop, pte_v,
  pte_c_cacheable,
}

-- All of the page table below UTOP is read as before.
abbrev pub SameView : ℕ → Memory → Memory → Type 0
SameView d m t = (vb : ℕ) → vb < utop → translate t d vb ≡ translate m d vb

-- What a walk that creates needs: the table is there, or a free page can be told from those in use.
abbrev pub Walkable : ℕ → ℕ → Memory → Type 0
Walkable d va m =
    (is_valid (dir_entry m d va) ≡ true)
    ⊎ ((is_valid (dir_entry m d va) ≡ false) × FreeInv m × InUse m d)

-- The result of a walk that may create a table.
abbrev pub Walked : ℕ → ℕ → Memory → Result (Option Slot) → Memory → Type 0
Walked d va m (ok (some s)) t =
    (s ≡ slot t d va) × (is_valid (dir_entry t d va) ≡ true) × Shape t d × SameView d m t
Walked d va m (ok none) t = ⊥
Walked d va m (err e) t =
    (e ≡ e_no_mem) × (m.free ≡ []) × (t ≡ m) × (is_valid (dir_entry m d va) ≡ false)

-- The result of making a table.
abbrev Made : ℕ → ℕ → Memory → Result ℕ → Memory → Type 0
Made d va m (ok e) t =
    (e ≡ dir_entry t d va) × (is_valid (dir_entry t d va) ≡ true) × Shape t d × SameView d m t
Made d va m (err e) t =
    (e ≡ e_no_mem) × (m.free ≡ []) × (t ≡ m) × (is_valid (dir_entry m d va) ≡ false)

table_slot_lem :
    (e va : ℕ) (t : Memory) → Holds (table_slot e va t) (λ x u. (x ≡ (ppn e, ptx va)) × (u ≡ t))
unfolding table_slot pa2page
table_slot_lem e va t = ground arith

module _ (d va : ℕ) (m : Memory) (lt : va < utop) (s : Shape m d) where
  new_table-Made :
      is_valid (dir_entry m d va) ≡ false
      → FreeInv m
      → InUse m d
      → Holds (new_table d va m) (Made d va m)
  unfolding new_table store
  new_table-Made e v u = Holds-bind (Alloc m) _ page_alloc _ m (page_alloc-Alloc m v) (elim [
    | ok p ↦ λ t h.
        let small : p < 2 ^ 20 = omega (arith, v.few, h.3) in
        let t' : Memory = record t {
          ref = update t.ref p 1;
          word =
              update t.word d
                (update (t.word d) (pdx va) (bit_or (bit_or (page2pa p) pte_v) pte_c_cacheable));
        } in
        let now : t'.word ≡ tabled m d va p =
          ap
            (λ w.
              update w d
                (update (w d) (pdx va) (bit_or (bit_or (page2pa p) pte_v) pte_c_cacheable)))
            h.6 in
        (
          sym (tabled-dir_self d va p m t' lt small h.1 e s u now va refl),
          tabled-is_valid d va p m t' lt small h.1 e s u now,
          tabled-Shape d va p m t' lt small h.1 e s u now,
          tabled-translate d va p m t' lt small h.1 e s u now,
        )
    | err x ↦ λ t h. (h.1, h.0, h.2, e)
  ])

  slot_of-Walked :
      (e : ℕ) (t : Memory)
      → Made d va m (ok e) t
      → Holds ((table_slot e va >>= slot_found) t) (Walked d va m)
  slot_of-Walked e t k =
      Holds-bind _ _ (table_slot e va) slot_found t (table_slot_lem e va t)
        λ x u h. rw (h.0, h.1) (ap (λ y. (ppn y, ptx va)) k.0, k.1, k.2, k.3)

  pub pgdir_walk-Walked : Walkable d va m → Holds (pgdir_walk d va true m) (Walked d va m)
  unfolding pgdir_walk load
  pgdir_walk-Walked (inl e) = rw e (slot_of-Walked _ m (refl, e, s, λ vb h. refl))
  pgdir_walk-Walked (inr (e, v, u)) = rw e (
      Holds-bind (Made d va m) _ (new_table d va) _ m (new_table-Made e v u)
        (elim [ ok x ↦ λ t k. slot_of-Walked x t k | err x ↦ λ t k. k ]))

-- What `page_insert` leaves: `va` is mapped to the page `q`, and everything else as before. It fails
-- for want of a page for a new table only, and then changes no mapping.
abbrev pub Inserted : ℕ → ℕ → ℕ → Memory → Result (Unit {0}) → Memory → Type 0
Inserted d va q m (ok x) t = (translate t d va ≡ some q) × SameElsewhere d va m t × Shape t d
Inserted d va q m (err e) t = (e ≡ e_no_mem) × (m.free ≡ []) × SameView d m t

module _ (d asid p va perm : ℕ) (small : p < 2 ^ 20) (lt : va < utop) where
  -- The write of the entry, from any state in which the table of `va` is there.
  write_entry :
      (m t : Memory)
      → SameElsewhere d va m t
      → Shape t d
      → is_valid (dir_entry t d va) ≡ true
      → Inserted d va (bit_or p (perm / 4096)) m (ok tt) (written t d va (entry_for p perm))
  write_entry m t v s e = (
    ground (
      arith,
      written-dir_entry d va (entry_for p perm) t lt e s va,
      written-pte d va (entry_for p perm) t lt e s,
      entry_for-is_valid p perm,
      ppn-entry_for p perm small,
    ),
    λ vb h n. written-SameElsewhere d va (entry_for p perm) t lt e s vb h n ∙ v vb h n,
    written-Shape d va (entry_for p perm) t lt e s,
  )

  -- With an existing table the call cannot fail; without one nothing has changed yet.
  insert_new-Inserted :
      (m u : Memory)
      → SameElsewhere d va m u
      → Shape u d
      → Walkable d va u
      → (is_valid (dir_entry u d va) ≡ false → SameView d m u × (u.free ≡ m.free))
      → Holds (insert_new d asid p va perm u) (Inserted d va (bit_or p (perm / 4096)) m)
  unfolding insert_new tlb_invalidate store
  insert_new-Inserted m u v s w f =
      let u' : Memory = record u { flushed = (asid, va) ∷ u.flushed } in
      let s' : Shape u' d = record { other = s.other; apart = s.apart } in
      Holds-bind (Walked d va u') _ (pgdir_walk d va true) _ u'
        (pgdir_walk-Walked d va u' lt s' (flush w))
        (elim [
          | ok none ↦ λ t k. tt
          | ok (some x) ↦ λ t k.
              let t' : Memory = record t { ref = update t.ref p ((t.ref p + 1) % 2 ^ 16) } in
              let l : Shape t' d = record { other = k.2.other; apart = k.2.apart } in
              rw k.0 (write_entry m t' (λ vb h n. k.3 vb h ∙ v vb h n) l k.1)
          | err e ↦ λ t k.
              (refl, sym (f k.3).1 ∙ k.1, λ vb h. ap (λ y. translate y d vb) k.2 ∙ (f k.3).0 vb h)
        ])
    where
      flush : Walkable d va u → Walkable d va (record u { flushed = (asid, va) ∷ u.flushed })
      flush (inl e) = inl e
      flush (inr (e, i, j)) = inr (
        e,
        record { few = i.few; once = i.once; unused = i.unused },
        record { dir_used = j.dir_used; table_used = j.table_used },
      )

pub dir_of_mapped :
    (m : Memory) (d va p : ℕ) → translate m d va ≡ some p → is_valid (dir_entry m d va) ≡ true
dir_of_mapped m d va p e = ground arith

page_decref-word : (p : ℕ) (m : Memory) → Holds (page_decref p m) (λ _ t. t.word ≡ m.word)
unfolding page_decref page_free
page_decref-word p m = ground arith

-- What `page_remove` leaves: `va` is not mapped, and everything else as before.
abbrev pub Unmapped : ℕ → ℕ → Memory → Memory → Type 0
Unmapped d va m u =
    (translate u d va ≡ none)
    × SameElsewhere d va m u
    × Shape u d
    × (dir_entry u d va ≡ dir_entry m d va)

module _ (d va : ℕ) (m : Memory) (lt : va < utop) (s : Shape m d) where
  write_zero :
      (t : Memory)
      → t.word ≡ m.word
      → is_valid (dir_entry m d va) ≡ true
      → Unmapped d va m (written t d va 0)
  write_zero t e h = (
    ground (arith, written-pte d va 0 t lt ht st),
    (λ vb k n. written-SameElsewhere d va 0 t lt ht st vb k n ∙ same_words vb),
    written-Shape d va 0 t lt ht st,
    written-dir_entry d va 0 t lt ht st va ∙ same_dir,
  )
    where
      same_dir : dir_entry t d va ≡ dir_entry m d va
      same_dir = ap (λ w. w d (pdx va)) e

      same_words : (vb : ℕ) → translate t d vb ≡ translate m d vb
      same_words vb = ap (λ w. translate (record m { word = w }) d vb) e

      ht : is_valid (dir_entry t d va) ≡ true
      ht = subst (λ x. is_valid x ≡ true) (sym same_dir) h

      st : Shape t d
      st = rw e (record { other = s.other; apart = s.apart })

  remove_at-Unmapped :
      (asid : ℕ) (r : Option (ℕ × Slot)) (t : Memory)
      → Found d va m r t
      → Holds (remove_at asid va r t) (λ _ u. Unmapped d va m u)
  unfolding remove_at store tlb_invalidate
  remove_at-Unmapped asid none t f = rw f.0 (f.1, (λ vb h n. refl), s, refl)
  remove_at-Unmapped asid (some (p, x)) t f =
      Holds-bind (λ _ u. u.word ≡ t.word) _ (page_decref p) _ t (page_decref-word p t)
        λ y u k.
          let same : u.word ≡ m.word = k ∙ ap (λ v. v.word) f.0 in
          let at : x ≡ slot u d va = f.3 ∙ ap (λ w. (ppn (w d (pdx va)), ptx va)) (sym same) in
          rw at (flush (written u d va 0) (write_zero u same (dir_of_mapped m d va p f.2)))
    where
      flush :
          (u : Memory)
          → Unmapped d va m u
          → Unmapped d va m (record u { flushed = (asid, va) ∷ u.flushed })
      flush u k = (k.0, k.1, record { other = k.2.other; apart = k.2.apart }, k.3)

  pub page_remove-Unmapped : (asid : ℕ) → Holds (page_remove d asid va m) (λ _ u. Unmapped d va m u)
  unfolding page_remove
  page_remove-Unmapped asid =
      Holds-bind (Found d va m) _ (page_lookup d va) _ m (page_lookup-Found d va m)
        (remove_at-Unmapped asid)

  insert_over-Inserted :
      (asid p perm : ℕ) (r : Option (ℕ × Slot)) (t : Memory)
      → p < 2 ^ 20
      → FreeInv m
      → InUse m d
      → Found d va m r t
      → Holds (insert_over d asid p va perm r t) (Inserted d va (bit_or p (perm / 4096)) m)
  unfolding insert_over store tlb_invalidate
  insert_over-Inserted asid p perm none t small v u f = rw f.0 (
      insert_new-Inserted d asid p va perm small lt m m (λ vb h n. refl) s (walkable)
        (λ h. ((λ vb k. refl), refl)))
    where
      walkable : Walkable d va m
      walkable = elim (Bool-cases (is_valid (dir_entry m d va))) [
        | inl e ↦ inl e
        | inr e ↦ inr (e, v, u)
      ]
  insert_over-Inserted asid p perm (some (q, x)) t small v u f = elim (Bool-cases (q == p)) [
    | inl same ↦
        let m' : Memory = record m { flushed = (asid, va) ∷ m.flushed } in
        let s' : Shape m' d = record { other = s.other; apart = s.apart } in
        rw (same, f.0, f.3)
          (write_entry d asid p va perm small lt m m' (λ vb h n. refl) s'
            (dir_of_mapped m d va q f.2))
    | inr diff ↦
        let valid : is_valid (dir_entry m d va) ≡ true = dir_of_mapped m d va q f.2 in
        rw (f.0, diff)
          (Holds-bind (λ _ y. Unmapped d va m y) _ (page_remove d asid va) _ m
            (page_remove-Unmapped asid)
            λ y w k.
              let still : is_valid (dir_entry w d va) ≡ true =
                subst (λ z. is_valid z ≡ true) (sym k.3) valid in
              insert_new-Inserted d asid p va perm small lt m w k.1 k.2 (inl still)
                (λ h. absurd (ground arith)))
  ]

  -- `page_insert` maps `va` to the page, and nothing else changes.
  pub page_insert-Inserted :
      (asid p perm : ℕ)
      → p < 2 ^ 20
      → FreeInv m
      → InUse m d
      → Holds (page_insert d asid p va perm m) (Inserted d va (bit_or p (perm / 4096)) m)
  unfolding page_insert
  page_insert-Inserted asid p perm small v u =
      Holds-bind (Found d va m) _ (page_lookup d va) _ m (page_lookup-Found d va m)
        λ r t f. insert_over-Inserted asid p perm r t small v u f
