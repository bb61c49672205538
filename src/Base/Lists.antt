-- ===== src/Base/Lists.antt =====
-- Lists measured by native numbers, and membership by recursion.
use Prim.Native.Nat.{ℕ, zero, suc, ◌+◌}
use mathlib.Core.Path.{◌≡◌, refl, ap}
use mathlib.Core.Logic.{◌≢◌}
use mathlib.Core.Bool.{Bool, true, false, ◌||◌}
use mathlib.Core.List.{List, [], ◌∷◌, ◌++◌}
use mathlib.Core.Option.{Option, none, some}
use native.Mathlib.Omega.{arith}
use os_challenge_sudo_shell.Base.Tests.{◌==◌, if◌then◌else◌}

module _ {ℓ} {A : Type ℓ} where
  abbrev pub length : List A → ℕ
  length [] = 0
  length (x ∷ xs) = suc (length xs)

  abbrev pub get_elem? : List A → ℕ → Option A
  get_elem? [] i = none
  get_elem? (x ∷ xs) zero = some x
  get_elem? (x ∷ xs) (suc i) = get_elem? xs i

  abbrev pub replicate : ℕ → A → List A
  replicate zero a = []
  replicate (suc n) a = a ∷ replicate n a

  abbrev pub take : ℕ → List A → List A
  take zero xs = []
  take (suc n) [] = []
  take (suc n) (x ∷ xs) = x ∷ take n xs

  abbrev pub drop : ℕ → List A → List A
  drop zero xs = xs
  drop (suc n) [] = []
  drop (suc n) (x ∷ xs) = drop n xs

  pub length-append : (xs ys : List A) → length (xs ++ ys) ≡ length xs + length ys
  length-append [] ys = omega arith
  length-append (x ∷ xs) ys = omega (arith, length-append xs ys)

  pub length-replicate : (n : ℕ) (a : A) → length (replicate n a) ≡ n
  length-replicate zero a = refl
  length-replicate (suc n) a = ap suc (length-replicate n a)

-- Membership as a test, which the tactics compute with.
abbrev pub has : ℕ → List ℕ → Bool
has a [] = false
has a (x ∷ xs) = x == a || has a xs

-- No element stands twice.
abbrev pub Distinct : List ℕ → Type 0
Distinct [] = Unit {0}
Distinct (x ∷ xs) = (has x xs ≡ false) × Distinct xs

-- The first occurrence taken out.
abbrev pub delete : ℕ → List ℕ → List ℕ
delete a [] = []
delete a (x ∷ xs) = if x == a then xs else x ∷ delete a xs

pub has-append : (a : ℕ) (xs ys : List ℕ) → has a (xs ++ ys) ≡ (has a xs || has a ys)
has-append a [] ys = refl
has-append a (x ∷ xs) ys = ground (arith, has-append a xs ys)

pub has-delete_ne : (a b : ℕ) (xs : List ℕ) → a ≢ b → has b (delete a xs) ≡ has b xs
has-delete_ne a b [] h = refl
has-delete_ne a b (x ∷ xs) h = ground (arith, has-delete_ne a b xs h)

pub has-delete_self : (a : ℕ) (xs : List ℕ) → Distinct xs → has a (delete a xs) ≡ false
has-delete_self a [] d = refl
has-delete_self a (x ∷ xs) d = ground (arith, has-delete_self a xs d.1)

pub has-delete_le : (a b : ℕ) (xs : List ℕ) → has b (delete a xs) ≡ true → has b xs ≡ true
has-delete_le a b [] h = h
has-delete_le a b (x ∷ xs) h = ground (arith, has-delete_le a b xs)

pub delete-Distinct : (a : ℕ) (xs : List ℕ) → Distinct xs → Distinct (delete a xs)
delete-Distinct a [] d = tt
delete-Distinct a (x ∷ xs) d = ground (arith, delete-Distinct a xs d.1, has-delete_le a x xs)

pub snoc-Distinct : (a : ℕ) (xs : List ℕ) → has a xs ≡ false → Distinct xs → Distinct (xs ++ a ∷ [])
snoc-Distinct a [] h d = (refl, tt)
snoc-Distinct a (x ∷ xs) h d = ground (arith, snoc-Distinct a xs, has-append x xs (a ∷ []))

pub snoc-not_Distinct : (a : ℕ) (xs : List ℕ) → has a xs ≡ true → ¬ Distinct (xs ++ a ∷ [])
snoc-not_Distinct a [] h d = cc
snoc-not_Distinct a (x ∷ xs) h d = ground (arith, snoc-not_Distinct a xs, has-append x xs (a ∷ []))
