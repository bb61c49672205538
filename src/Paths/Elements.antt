-- ===== src/Paths/Elements.antt =====
-- walk_path of fs/fs.c against a walk over the elements of the path.
use os_challenge_sudo_shell.Base.{
  ℕ, zero, suc, ◌≤◌, ◌≡◌, refl, sym, ap, ◌∙◌, fun_ext, Bool, true, false, Option, none, some, List,
  [], ◌∷◌, ◌==◌, Exec, pure, arith, Bool-cases, inl, inr,
}
use os_challenge_sudo_shell.Fs.{Fs, with_super}
use os_challenge_sudo_shell.Files.{Place}
use os_challenge_sudo_shell.Strings.{strlen}
use os_challenge_sudo_shell.Paths.{
  slash, skip_slash, element, after_element, Walk, found, is_end, enter, walk_from, root, walk_path,
}

-- An element that is not empty is put before the others.
abbrev pub close : List ℕ × List (List ℕ) → List (List ℕ)
close ([], ws) = ws
close (c ∷ w, ws) = (c ∷ w) ∷ ws

abbrev pub split_at : Bool → ℕ → List ℕ × List (List ℕ) → List ℕ × List (List ℕ)
split_at true c (w, ws) = ([], close (w, ws))
split_at false c (w, ws) = (c ∷ w, ws)

-- The characters before the first slash, and the elements after it.
pub parts : List ℕ → List ℕ × List (List ℕ)
parts [] = ([], [])
parts (c ∷ p) = split_at (c == slash) c (parts p)

-- The elements of a path: the longest runs of characters other than slashes.
pub elements : List ℕ → List (List ℕ)
elements p = close (parts p)

-- The walk by a list of names
pub walk_names : List (List ℕ) → Option Place → Place → Exec Fs Walk
walk_names [] dir file = pure (found dir file)
walk_names (name ∷ names) dir file = enter (walk_names names (some file)) file name (is_end names)

parts-element : (p : List ℕ) → (parts p).0 ≡ element p
unfolding parts element
parts-element [] = refl
parts-element (c ∷ p) =
    let ih = parts-element p in
    elim (Bool-cases (c == slash)) [ inl y ↦ rw y refl | inr n ↦ rw n (ap (λ w. c ∷ w) ih) ]

after-slash : (c : ℕ) (p : List ℕ) → (c == slash) ≡ true → after_element (c ∷ p) ≡ c ∷ p
unfolding after_element
after-slash c p y = rw y refl

after-cons : (c : ℕ) (p : List ℕ) → (c == slash) ≡ false → after_element (c ∷ p) ≡ after_element p
unfolding after_element
after-cons c p n = rw n refl

skip-slash : (c : ℕ) (p : List ℕ) → (c == slash) ≡ true → skip_slash (c ∷ p) ≡ skip_slash p
unfolding skip_slash
skip-slash c p y = rw y refl

skip-cons : (c : ℕ) (p : List ℕ) → (c == slash) ≡ false → skip_slash (c ∷ p) ≡ c ∷ p
unfolding skip_slash
skip-cons c p n = rw n refl

elements-slash : (c : ℕ) (p : List ℕ) → (c == slash) ≡ true → elements (c ∷ p) ≡ elements p
unfolding elements parts
elements-slash c p y = rw y refl

parts-slash : (c : ℕ) (p : List ℕ) → (c == slash) ≡ true → (parts (c ∷ p)).1 ≡ elements p
unfolding elements parts
parts-slash c p y = rw y refl

parts-cons : (c : ℕ) (p : List ℕ) → (c == slash) ≡ false → (parts (c ∷ p)).1 ≡ (parts p).1
unfolding elements parts
parts-cons c p n = rw n refl

parts-after : (p : List ℕ) → (parts p).1 ≡ elements (after_element p)
unfolding parts elements after_element
parts-after [] = refl
parts-after (c ∷ p) = elim (Bool-cases (c == slash)) [
  | inl y ↦ parts-slash c p y ∙ (sym (elements-slash c p y) ∙ ap elements (sym (after-slash c p y)))
  | inr n ↦ parts-cons c p n ∙ (parts-after p ∙ ap elements (sym (after-cons c p n)))
]

elements-skip : (p : List ℕ) → elements (skip_slash p) ≡ elements p
unfolding skip_slash
elements-skip [] = refl
elements-skip (c ∷ p) = elim (Bool-cases (c == slash)) [
  | inl y ↦ ap elements (skip-slash c p y) ∙ (elements-skip p ∙ sym (elements-slash c p y))
  | inr n ↦ ap elements (skip-cons c p n)
]

-- A path that starts with another character than a slash
elements-cons :
    (c : ℕ) (p : List ℕ)
    → (c == slash) ≡ false
    → elements (c ∷ p) ≡ element (c ∷ p) ∷ elements (after_element (c ∷ p))
unfolding elements parts element after_element
elements-cons c p n = rw n (λ i. (c ∷ parts-element p i) ∷ parts-after p i)

-- The path does not start with a slash.
NoSlash : List ℕ → Type 0
NoSlash [] = Unit {0}
NoSlash (c ∷ p) = (c == slash) ≡ false

skip_slash-NoSlash : (p : List ℕ) → NoSlash (skip_slash p)
unfolding skip_slash NoSlash
skip_slash-NoSlash [] = tt
skip_slash-NoSlash (c ∷ p) = elim (Bool-cases (c == slash)) [
  | inl y ↦ rw y (skip_slash-NoSlash p)
  | inr n ↦ rw n n
]

strlen-skip : (p : List ℕ) → strlen (skip_slash p) ≤ strlen p
unfolding skip_slash strlen
strlen-skip [] = omega arith
strlen-skip (c ∷ p) = elim (Bool-cases (c == slash)) [
  | inl y ↦ rw y (omega (arith, strlen-skip p))
  | inr n ↦ rw n (omega arith)
]

strlen-after : (p : List ℕ) → strlen (after_element p) ≤ strlen p
unfolding after_element strlen
strlen-after [] = omega arith
strlen-after (c ∷ p) = elim (Bool-cases (c == slash)) [
  | inl y ↦ rw y (omega arith)
  | inr n ↦ rw n (omega (arith, strlen-after p))
]

is_end-elements : (p : List ℕ) → NoSlash p → is_end (elements p) ≡ is_end p
unfolding elements is_end NoSlash parts
is_end-elements [] n = refl
is_end-elements (c ∷ p) n = rw n refl

rest_fits :
    (fuel c : ℕ) (p : List ℕ)
    → (c == slash) ≡ false
    → strlen (c ∷ p) ≤ suc fuel
    → strlen (skip_slash (after_element (c ∷ p))) ≤ fuel
unfolding strlen
rest_fits fuel c p n h =
    rw (after-cons c p n) (omega (arith, h, strlen-skip (after_element p), strlen-after p))

elements-rest :
    (c : ℕ) (p : List ℕ)
    → (c == slash) ≡ false
    → elements (c ∷ p) ≡ element (c ∷ p) ∷ elements (skip_slash (after_element (c ∷ p)))
elements-rest c p n =
    elements-cons c p n
    ∙ ap (λ e. element (c ∷ p) ∷ e) (sym (elements-skip (after_element (c ∷ p))))

walk_from-walk_names :
    (fuel : ℕ) (p : List ℕ) (dir : Option Place) (file : Place)
    → strlen p ≤ fuel
    → NoSlash p
    → walk_from fuel p dir file ≡ walk_names (elements p) dir file
unfolding walk_from walk_names strlen NoSlash elements parts
walk_from-walk_names zero [] dir file h n = refl
walk_from-walk_names (suc fuel) [] dir file h n = refl
walk_from-walk_names zero (c ∷ p) dir file h n = absurd (omega arith)
walk_from-walk_names (suc fuel) (c ∷ p) dir file h n =
    let rest : List ℕ = skip_slash (after_element (c ∷ p)) in
    let m : NoSlash rest = skip_slash-NoSlash (after_element (c ∷ p)) in
    ap (λ k. enter k file (element (c ∷ p)) (is_end rest))
      (fun_ext λ f. walk_from-walk_names fuel rest (some file) f (rest_fits fuel c p n h) m)
    ∙ (ap (λ b. enter (walk_names (elements rest) (some file)) file (element (c ∷ p)) b)
          (sym (is_end-elements rest m))
        ∙ ap (λ ns. walk_names ns dir file) (sym (elements-rest c p n)))

-- `walk_path` does on every state what a walk by the list of the path's elements does, the longest
-- runs of characters other than slashes; so slashes at the start and at the end, and more than one
-- between two names, make no difference, and the loop ends.
pub walk_path-walk_names :
    (path : List ℕ) → walk_path path ≡ with_super λ n. walk_names (elements path) none root
unfolding walk_path
walk_path-walk_names path =
    ap (λ w. with_super (λ n. w))
      (walk_from-walk_names (strlen path) (skip_slash path) none root (strlen-skip path)
          (skip_slash-NoSlash path)
        ∙ ap (λ ns. walk_names ns none root) (elements-skip path))
