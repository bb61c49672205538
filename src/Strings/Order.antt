-- ===== src/Strings/Order.antt =====
-- strcmp of lib/string.c on strings of characters other than 0.
use os_challenge_sudo_shell.Base.{ℕ, ◌<◌, ◌≡◌, refl, sym, ap, ◌∙◌, List, [], ◌∷◌, arith}
use os_challenge_sudo_shell.Strings.{Sign, less, equal, greater, strcmp}

-- No character ends the string.
abbrev pub NonZero : List ℕ → Type 0
NonZero [] = Unit {0}
NonZero (c ∷ s) = (0 < c) × NonZero s

abbrev pub opposite : Sign → Sign
opposite less = greater
opposite equal = equal
opposite greater = less

strcmp-eq : (p q : List ℕ) → NonZero p → NonZero q → strcmp p q ≡ equal → p ≡ q
unfolding strcmp
strcmp-eq [] [] u v h = refl
strcmp-eq [] (d ∷ q) u v h = absurd (ground (arith, v.0))
strcmp-eq (c ∷ p) [] u v h = absurd (ground (arith, u.0))
strcmp-eq (c ∷ p) (d ∷ q) u v h = ground (arith, strcmp-eq p q u.1 v.1)

strcmp_refl : (p : List ℕ) → strcmp p p ≡ equal
unfolding strcmp
strcmp_refl [] = refl
strcmp_refl (c ∷ p) = ground (arith, strcmp_refl p)

strcmp-opposite : (p q : List ℕ) → strcmp q p ≡ opposite (strcmp p q)
unfolding strcmp
strcmp-opposite [] [] = refl
strcmp-opposite [] (d ∷ q) = ground arith
strcmp-opposite (c ∷ p) [] = ground arith
strcmp-opposite (c ∷ p) (d ∷ q) = ground (arith, strcmp-opposite p q)

-- For strings of characters other than 0, `strcmp` answers 0 exactly for equal strings, and the
-- opposite sign when its arguments are exchanged.
pub strcmp-sign :
    (p q : List ℕ)
    → NonZero p
    → NonZero q
    → ((strcmp p q ≡ equal → p ≡ q) × (p ≡ q → strcmp p q ≡ equal))
      × (strcmp q p ≡ opposite (strcmp p q))
strcmp-sign p q u v =
    ((strcmp-eq p q u v, λ e. ap (λ x. strcmp p x) (sym e) ∙ strcmp_refl p), strcmp-opposite p q)
