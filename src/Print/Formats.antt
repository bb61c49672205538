-- ===== src/Print/Formats.antt =====
-- vprintfmt of lib/print.c: its loop ends.
use os_challenge_sudo_shell.Base.{
  ℕ, zero, suc, ◌≤◌, ◌≡◌, refl, sym, ap, ◌∙◌, ◌==◌, if◌then◌else◌, Option, some, List, [], ◌∷◌,
  arith, Bool-cases, inl, inr,
}
use os_challenge_sudo_shell.Strings.{strlen}
use os_challenge_sudo_shell.Print.{
  Arg, Spec, plain, after_plain, skip_head, skip_width, is_digit, takes_word, put_before, put_both,
  convert_word, convert_text, first_arg, other_args, convert, directive, after_text, format_from,
  vprintfmt,
}

-- Two rests of the loop that agree on formats of at most `k` characters
Agree : ℕ → (List ℕ → List Arg → Option (List ℕ)) → (List ℕ → List Arg → Option (List ℕ)) → Type 0
Agree k f g = (fmt : List ℕ) (args : List Arg) → strlen fmt ≤ k → f fmt args ≡ g fmt args

strlen-skip_head : (c : ℕ) (fmt : List ℕ) → strlen (skip_head c fmt) ≤ strlen fmt
unfolding skip_head strlen
strlen-skip_head c [] = omega arith
strlen-skip_head c (d ∷ fmt) = elim (Bool-cases (d == c)) [
  | inl y ↦ rw y (omega arith)
  | inr n ↦ rw n (omega arith)
]

strlen-skip_width : (fmt : List ℕ) → strlen (skip_width fmt) ≤ strlen fmt
unfolding skip_width strlen
strlen-skip_width [] = omega arith
strlen-skip_width (c ∷ fmt) = elim (Bool-cases (is_digit c)) [
  | inl y ↦ rw y (omega (arith, strlen-skip_width fmt))
  | inr n ↦ rw n (omega arith)
]

strlen-after_plain : (fmt : List ℕ) → strlen (after_plain fmt) ≤ strlen fmt
unfolding after_plain strlen
strlen-after_plain [] = omega arith
strlen-after_plain (c ∷ fmt) = elim (Bool-cases (c == 37)) [
  | inl y ↦ rw y (omega arith)
  | inr n ↦ rw n (omega (arith, strlen-after_plain fmt))
]

convert-Agree :
    (k : ℕ) (f g : List ℕ → List Arg → Option (List ℕ)) (s : Spec) (fmt : List ℕ) (args : List Arg)
    → Agree k f g
    → strlen fmt ≤ k
    → convert f s fmt args ≡ convert g s fmt args
unfolding convert Agree strlen
convert-Agree k f g s [] args a h = a [] args h
convert-Agree k f g s (c ∷ fmt) args a h =
    let e = a fmt (other_args args) (omega (arith, h)) in
    let d = a fmt args (omega (arith, h)) in
    λ i.
      if takes_word c
      then put_both (convert_word c s (first_arg args)) (e i)
      else (if c == 115
          then put_both (convert_text s (first_arg args)) (e i)
          else put_before (c ∷ []) (d i))

after_text-Agree :
    (k : ℕ) (f g : List ℕ → List Arg → Option (List ℕ)) (fmt : List ℕ) (args : List Arg)
    → Agree k f g
    → strlen fmt ≤ suc k
    → after_text f fmt args ≡ after_text g fmt args
unfolding after_text directive strlen
after_text-Agree k f g [] args a h = refl
after_text-Agree k f g (c ∷ fmt) args a h =
    let b : List ℕ = skip_head 48 (skip_head 45 fmt) in
    convert-Agree k f g _ (skip_head 108 (skip_width b)) args a (
      omega (
        arith,
        h,
        strlen-skip_head 108 (skip_width b),
        strlen-skip_width b,
        strlen-skip_head 48 (skip_head 45 fmt),
        strlen-skip_head 45 fmt,
      ))

format_from-nil : (fuel : ℕ) (args : List Arg) → format_from fuel [] args ≡ some []
unfolding format_from plain after_plain after_text
format_from-nil zero args = refl
format_from-nil (suc fuel) args = refl

format_from-Agree :
    (fuel more k : ℕ) → k ≤ fuel → k ≤ more → Agree k (format_from fuel) (format_from more)
unfolding Agree format_from strlen
format_from-Agree fuel more k h g [] args l =
    format_from-nil fuel args ∙ sym (format_from-nil more args)
format_from-Agree zero more k h g (c ∷ fmt) args l = absurd (omega (arith, h, l))
format_from-Agree (suc fuel) zero k h g (c ∷ fmt) args l = absurd (omega (arith, g, l))
format_from-Agree (suc fuel) (suc more) zero h g (c ∷ fmt) args l = absurd (omega (arith, l))
format_from-Agree (suc fuel) (suc more) (suc k) h g (c ∷ fmt) args l =
    ap (put_before (plain (c ∷ fmt))) (
      after_text-Agree k (format_from fuel) (format_from more) (after_plain (c ∷ fmt)) args
        (format_from-Agree fuel more k (omega (arith, h)) (omega (arith, g)))
        (omega (arith, l, strlen-after_plain (c ∷ fmt))))

-- The loop of `vprintfmt` gives the same with any fuel of at least the length of the format.
pub format_from-vprintfmt :
    (fuel : ℕ) (fmt : List ℕ) (args : List Arg)
    → strlen fmt ≤ fuel
    → format_from fuel fmt args ≡ vprintfmt fmt args
unfolding vprintfmt Agree
format_from-vprintfmt fuel fmt args h =
    format_from-Agree fuel (strlen fmt) (strlen fmt) h (omega arith) fmt args (omega arith)
