-- ===== src/Fork/Pages.antt =====
-- The loops of fork in user/lib/fork.c: what they leave in the page tables.
use os_challenge_sudo_shell.Base.{
  ℕ, zero, suc, ◌+◌, ◌*◌, ◌/◌, ◌≡◌, refl, sym, ap, ◌∙◌, Bool, true, false, ◌&&◌, ◌||◌, ltb, leb,
  ◌==◌, arith, Bool-cases, inl, inr, ==_iff,
}
use os_challenge_sudo_shell.Memory.{is_valid}
use os_challenge_sudo_shell.Fork.{
  Space, Around, stack_vpn, duppage, dup_if, dup_pages, dup_table, dup_tables, stack_tables,
}
use os_challenge_sudo_shell.Fork.Entries.{
  Passed, duppage-Passed, Passed-nothing, Passed-pred, Passed-then,
}

-- A page below the stack that is mapped
abbrev pub wanted : Space → ℕ → Bool
wanted s x = ltb x stack_vpn && is_valid (s.vpt x)

abbrev from_to : ℕ → ℕ → Space → ℕ → Bool
from_to lo hi s x = (leb lo x && ltb x hi) && wanted s x

dup_if-Passed :
    (around : Around) (b : Bool) (vpn : ℕ) (s : Space)
    → Passed around (λ x. vpn == x && b) s (dup_if b around vpn s)
unfolding dup_if
dup_if-Passed around true vpn s =
    Passed-pred around (λ x. vpn == x) (λ x. vpn == x && true) s (duppage around vpn s)
      (λ x. ground arith) (duppage-Passed around vpn s)
dup_if-Passed around false vpn s =
    Passed-pred around (λ x. false) (λ x. vpn == x && false) s s (λ x. ground arith)
      (Passed-nothing around s)

or_false : (b : Bool) → (b || false) ≡ b
or_false true = refl
or_false false = refl

and_left : (a b : Bool) → (a && b) ≡ true → a ≡ true
and_left true b h = refl
and_left false b h = absurd (ground (arith, h))

-- The page at the start of a range, and the range behind it
from_to-cons :
    (around : Around) (count vpn : ℕ) (s t : Space)
    → Passed around (λ x. vpn == x && wanted s vpn) s t
    → (x : ℕ)
    → ((vpn == x && wanted s vpn) || from_to (vpn + 1) (vpn + 1 + count) t x)
      ≡ from_to vpn (vpn + suc count) s x
from_to-cons around count vpn s t h x = elim (Bool-cases (vpn == x)) [
  | inl y ↦
      let f : leb (vpn + 1) x ≡ false = ground (arith, y) in
      let g : leb vpn x ≡ true = ground (arith, y) in
      let k : ltb x (vpn + suc count) ≡ true = ground (arith, y) in
      rw (y, f, g, k) (or_false (wanted s vpn) ∙ ap (wanted s) ((==_iff vpn x).0 y))
  | inr n ↦
      let k : t.vpt x ≡ s.vpt x = h.1 x ∙ rw n refl in
      let f : leb (vpn + 1) x ≡ leb vpn x = ground (arith, n) in
      let g : ltb x (vpn + 1 + count) ≡ ltb x (vpn + suc count) = ground arith in
      rw n λ i. (f i && g i) && (ltb x stack_vpn && is_valid (k i))
]

dup_pages-Passed :
    (around : Around) (count vpn : ℕ) (s : Space)
    → Passed around (from_to vpn (vpn + count) s) s (dup_pages count around vpn s)
unfolding dup_pages
dup_pages-Passed around zero vpn s =
    Passed-pred around (λ x. false) (from_to vpn (vpn + 0) s) s s
      (λ x. let f : (leb vpn x && ltb x (vpn + 0)) ≡ false = ground arith in rw f refl)
      (Passed-nothing around s)
dup_pages-Passed around (suc count) vpn s =
    let b : Bool = wanted s vpn in
    let t : Space = dup_if b around vpn s in
    let h = dup_if-Passed around b vpn s in
    Passed-pred around (λ x. (vpn == x && b) || from_to (vpn + 1) (vpn + 1 + count) t x)
      (from_to vpn (vpn + suc count) s) s (dup_pages count around (vpn + 1) t)
      (from_to-cons around count vpn s t h)
      (Passed-then around (λ x. vpn == x && b) (from_to (vpn + 1) (vpn + 1 + count) t) s t
        (dup_pages count around (vpn + 1) t)
        (λ x y.
          let f : leb (vpn + 1) x ≡ false = ground (arith, and_left (vpn == x) b y) in rw f refl)
        h (dup_pages-Passed around count (vpn + 1) t))

-- The same for whole page tables
in_tables : ℕ → ℕ → Space → ℕ → Bool
in_tables lo hi s x =
    (leb lo (x / 1024) && ltb (x / 1024) hi) && (is_valid (s.vpd (x / 1024)) && wanted s x)

dup_table-Passed :
    (around : Around) (b : Bool) (i : ℕ) (s : Space)
    → Passed around (λ x. i == x / 1024 && (b && wanted s x)) s (dup_table b around i s)
unfolding dup_table
dup_table-Passed around true i s =
    Passed-pred around (from_to (i * 1024) (i * 1024 + 1024) s)
      (λ x. i == x / 1024 && (true && wanted s x)) s (dup_pages 1024 around (i * 1024) s)
      (λ x.
        let f : (leb (i * 1024) x && ltb x (i * 1024 + 1024)) ≡ (i == x / 1024) = ground arith in
        ap (λ z. z && wanted s x) f)
      (dup_pages-Passed around 1024 (i * 1024) s)
dup_table-Passed around false i s =
    Passed-pred around (λ x. false) (λ x. i == x / 1024 && (false && wanted s x)) s s
      (λ x. ground arith) (Passed-nothing around s)

in_tables-cons :
    (around : Around) (count j : ℕ) (s t : Space)
    → Passed around (λ x. j == x / 1024 && (is_valid (s.vpd j) && wanted s x)) s t
    → (x : ℕ)
    → ((j == x / 1024 && (is_valid (s.vpd j) && wanted s x))
        || in_tables (j + 1) (j + 1 + count) t x)
      ≡ in_tables j (j + suc count) s x
unfolding in_tables
in_tables-cons around count j s t h x = elim (Bool-cases (j == x / 1024)) [
  | inl y ↦
      let f : leb (j + 1) (x / 1024) ≡ false = ground (arith, y) in
      let g : leb j (x / 1024) ≡ true = ground (arith, y) in
      let k : ltb (x / 1024) (j + suc count) ≡ true = ground (arith, y) in
      rw (y, f, g, k)
        (or_false _ ∙ ap (λ i. is_valid (s.vpd i) && wanted s x) ((==_iff j (x / 1024)).0 y))
  | inr n ↦
      let k : t.vpt x ≡ s.vpt x = h.1 x ∙ rw n refl in
      let f : leb (j + 1) (x / 1024) ≡ leb j (x / 1024) = ground (arith, n) in
      let g : ltb (x / 1024) (j + 1 + count) ≡ ltb (x / 1024) (j + suc count) = ground arith in
      rw n λ i. (f i && g i) && (is_valid (h.0 i (x / 1024)) && (ltb x stack_vpn && is_valid (k i)))
]

dup_tables-Passed :
    (around : Around) (count j : ℕ) (s : Space)
    → Passed around (in_tables j (j + count) s) s (dup_tables count around j s)
unfolding dup_tables in_tables
dup_tables-Passed around zero j s =
    Passed-pred around (λ x. false) (in_tables j (j + 0) s) s s
      (λ x.
        let f : (leb j (x / 1024) && ltb (x / 1024) (j + 0)) ≡ false = ground arith in rw f refl)
      (Passed-nothing around s)
dup_tables-Passed around (suc count) j s =
    let b : Bool = is_valid (s.vpd j) in
    let t : Space = dup_table b around j s in
    let h = dup_table-Passed around b j s in
    Passed-pred around
      (λ x. (j == x / 1024 && (b && wanted s x)) || in_tables (j + 1) (j + 1 + count) t x)
      (in_tables j (j + suc count) s) s (dup_tables count around (j + 1) t)
      (in_tables-cons around count j s t h)
      (Passed-then around (λ x. j == x / 1024 && (b && wanted s x))
        (in_tables (j + 1) (j + 1 + count) t) s t (dup_tables count around (j + 1) t)
        (λ x y.
          let f : leb (j + 1) (x / 1024) ≡ false = ground (arith, and_left (j == x / 1024) _ y) in
          rw f refl)
        h (dup_tables-Passed around count (j + 1) t))

-- The pages that fork passes on: below the stack, in a page table and mapped.
abbrev pub passes : Space → ℕ → Bool
passes s x = is_valid (s.vpd (x / 1024)) && wanted s x

and_false : (b : Bool) → (b && false) ≡ false
and_false true = refl
and_false false = refl

below : (s : Space) (x : ℕ) → in_tables 0 stack_tables s x ≡ passes s x
unfolding in_tables
below s x = elim (Bool-cases (ltb (x / 1024) stack_tables)) [
  | inl y ↦ let f : leb 0 (x / 1024) ≡ true = ground arith in rw (f, y) refl
  | inr n ↦
      let f : leb 0 (x / 1024) ≡ true = ground arith in
      let g : ltb x stack_vpn ≡ false = ground (arith, n) in
      rw (f, n, g) (sym (and_false (is_valid (s.vpd (x / 1024)))))
]

pub all_tables-Passed :
    (around : Around) (s : Space) → Passed around (passes s) s (dup_tables stack_tables around 0 s)
unfolding in_tables
all_tables-Passed around s =
    Passed-pred around (in_tables 0 (0 + stack_tables) s) (passes s) s
      (dup_tables stack_tables around 0 s) (below s) (dup_tables-Passed around stack_tables 0 s)
