-- ===== src/Print/Digits.antt =====
-- print_num of lib/print.c: the digits that its first loop stores.
use native.Mathlib.Nat.{mod-add-div, div-lt_self, zero-div}
use os_challenge_sudo_shell.Base.{
  ℕ, zero, suc, ◌+◌, ◌-◌, ◌*◌, ◌/◌, ◌%◌, ◌≤◌, ◌<◌, ◌≡◌, ◌≢◌, refl, sym, ap, ◌∙◌, Bool, true, false,
  ◌&&◌, ltb, leb, ◌==◌, if◌then◌else◌, update, arith, Bool-cases, inl, inr, ==_iff, ==→ne,
}
use os_challenge_sudo_shell.Strings.{Bytes}
use os_challenge_sudo_shell.Print.{digit_char, store_digits}

-- Digit `k` of a number, from the right
pub nth_digit : ℕ → ℕ → ℕ → ℕ
nth_digit u base zero = u % base
nth_digit u base (suc k) = nth_digit (u / base) base k

-- What the first `n` digits are worth
pub value : ℕ → ℕ → ℕ → ℕ
value zero u base = 0
value (suc n) u base = u % base + base * value n (u / base) base

-- The first `n` digits are the number's, without a zero in front of others, and stand in the buffer from `p` on.
abbrev pub Stored : ℕ → Bool → ℕ → ℕ → Bytes → ℕ × Bytes → Type 0
Stored base up p u m (e, m') =
    (n : ℕ) × (0 < n)
    × (e ≡ p + n)
    × (value n u base ≡ u)
    × (1 < n → nth_digit u base (n - 1) ≢ 0)
    × ((x : ℕ)
        → m' x
          ≡ (if leb p x && ltb x (p + n) then digit_char up (nth_digit u base (x - p)) else m x))

one_digit :
    (base : ℕ) (up : Bool) (p u : ℕ) (m : Bytes)
    → u / base ≡ 0
    → Stored base up p u m (p + 1, update m p (digit_char up (u % base)))
unfolding value nth_digit
one_digit base up p u m z = (
  1,
  omega arith,
  refl,
  ap (λ q. u % base + base * q) (sym z) ∙ mod-add-div u base,
  λ h. absurd (omega (arith, h)),
  λ x. elim (Bool-cases (p == x)) [
    | inl y ↦
        let f : (leb p x && ltb x (p + 1)) ≡ true = ground (arith, y) in
        let d : x - p ≡ 0 = ground (arith, y) in rw (y, f, d) refl
    | inr n ↦ let f : (leb p x && ltb x (p + 1)) ≡ false = ground (arith, n) in rw (n, f) refl
  ],
)

top_digit :
    (base u n : ℕ)
    → 0 < n
    → u / base ≢ 0
    → value n (u / base) base ≡ u / base
    → (1 < n → nth_digit (u / base) base (n - 1) ≢ 0)
    → nth_digit u base n ≢ 0
unfolding nth_digit value
top_digit base u zero p ne v t = absurd (omega (arith, p))
top_digit base u (suc zero) p ne v t = λ z. ne (sym v ∙ ap (λ d. d + base * 0) z ∙ omega arith)
top_digit base u (suc (suc k)) p ne v t =
    let e : suc (suc k) - 1 ≡ suc k = omega arith in
    λ z. t (omega arith) (ap (nth_digit (u / base) base) e ∙ z)

more_digits :
    (base : ℕ) (up : Bool) (p u : ℕ) (m : Bytes) (r : ℕ × Bytes)
    → u / base ≢ 0
    → Stored base up (p + 1) (u / base) (update m p (digit_char up (u % base))) r
    → Stored base up p u m r
unfolding value nth_digit
more_digits base up p u m (e, m') ne (n, pos, at, val, top, chars) = (
  suc n,
  omega arith,
  omega (arith, at),
  ap (λ q. u % base + base * q) val ∙ mod-add-div u base,
  λ h z.
      let d : suc n - 1 ≡ n = omega arith in
      top_digit base u n pos ne val top (sym (ap (nth_digit u base) d) ∙ z),
  λ x. elim (Bool-cases (p == x)) [
    | inl y ↦
        let f : (leb (p + 1) x && ltb x (p + 1 + n)) ≡ false = ground (arith, y) in
        let g : (leb p x && ltb x (p + suc n)) ≡ true = ground (arith, y) in
        let d : x - p ≡ 0 = ground (arith, y) in chars x ∙ rw (f, y, g, d) refl
    | inr w ↦ elim (Bool-cases (leb (p + 1) x && ltb x (p + 1 + n))) [
      | inl y ↦
          let g : (leb p x && ltb x (p + suc n)) ≡ true = ground (arith, y) in
          let d : x - p ≡ suc (x - (p + 1)) = ground (arith, y) in chars x ∙ rw (y, g, d) refl
      | inr y ↦
          let g : (leb p x && ltb x (p + suc n)) ≡ false = ground (arith, y, w) in
          chars x ∙ rw (y, g, w) refl
    ]
  ],
)

pub store_digits-Stored :
    (fuel base : ℕ) (up : Bool) (p u : ℕ) (m : Bytes)
    → 1 < base
    → u ≤ fuel
    → Stored base up p u m (store_digits fuel u base up p m)
unfolding store_digits
store_digits-Stored zero base up p u m b h =
    let z : u ≡ 0 = omega (arith, h) in
    one_digit base up p u m (ap (λ k. k / base) z ∙ zero-div base)
store_digits-Stored (suc fuel) base up p u m b h = elim (Bool-cases (u / base == 0)) [
  | inl y ↦ rw y (one_digit base up p u m ((==_iff (u / base) 0).0 y))
  | inr n ↦
      let ne : u / base ≢ 0 = ==→ne (u / base) 0 n in
      let l : u / base ≤ fuel = smaller in
      rw n (
        more_digits base up p u m
          (store_digits fuel (u / base) base up (p + 1) (update m p (digit_char up (u % base)))) ne
          (store_digits-Stored fuel base up (p + 1) (u / base)
            (update m p (digit_char up (u % base))) b l))
]
  where
    smaller : u / base ≤ fuel
    smaller = elim (Bool-cases (u == 0)) [
      | inl y ↦
          let z : u ≡ 0 = (==_iff u 0).0 y in
          let q : u / base ≡ 0 = ap (λ k. k / base) z ∙ zero-div base in omega (arith, q)
      | inr n ↦ let q : u / base < u = div-lt_self (ground (arith, n)) b in omega (arith, q, h)
    ]
