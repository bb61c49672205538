-- ===== src/Print/Numbers.antt =====
-- print_num of lib/print.c: sign, padding and order of what is printed.
use os_challenge_sudo_shell.Base.{
  ℕ, zero, suc, ◌+◌, ◌-◌, ◌≤◌, ◌<◌, ◌≡◌, ◌≢◌, refl, sym, ap, ◌∙◌, Bool, true, false, ◌&&◌, ltb, leb,
  ◌==◌, if◌then◌else◌, update, update_self, update_ne, arith, subst, Bool-cases, inl, inr, ==_iff,
  ==→ne,
}
use os_challenge_sudo_shell.Strings.{Bytes}
use os_challenge_sudo_shell.Print.{
  digit_char, store_digits, pad, swap_ends, put_sign, add_padding, at_least, finish_num, print_num,
}
use os_challenge_sudo_shell.Print.Digits.{nth_digit, value, Stored, store_digits-Stored}

pad_at :
    (count i c : ℕ) (m : Bytes) (x : ℕ)
    → pad count i c m x ≡ (if leb i x && ltb x (i + count) then c else m x)
unfolding pad
pad_at zero i c m x = let f : (leb i x && ltb x (i + 0)) ≡ false = ground arith in rw f refl
pad_at (suc count) i c m x = pad_at count (i + 1) c (update m i c) x ∙ elim (Bool-cases (i == x)) [
  | inl y ↦
      let f : (leb (i + 1) x && ltb x (i + 1 + count)) ≡ false = ground (arith, y) in
      let g : (leb i x && ltb x (i + suc count)) ≡ true = ground (arith, y) in rw (f, y, g) refl
  | inr n ↦
      let f : (leb (i + 1) x && ltb x (i + 1 + count)) ≡ (leb i x && ltb x (i + suc count)) =
        ground (arith, n) in
      rw (f, n) refl
]

exchanged : ℕ → ℕ → Bytes → Bytes
exchanged b e m = update (update m b (m e)) e (m b)

exchanged-at : (b e : ℕ) (m : Bytes) (x : ℕ) → x ≢ b → x ≢ e → exchanged b e m x ≡ m x
unfolding exchanged
exchanged-at b e m x n k =
    update_ne (update m b (m e)) e x (m b) (λ q. k (sym q)) ∙ update_ne m b x (m e) (λ q. n (sym q))

exchanged-ends :
    (b e : ℕ) (m : Bytes) → b ≢ e → (exchanged b e m b ≡ m e) × (exchanged b e m e ≡ m b)
unfolding exchanged
exchanged-ends b e m n = (
  update_ne (update m b (m e)) e b (m b) (λ q. n (sym q)) ∙ update_self m b (m e),
  update_self (update m b (m e)) e (m b),
)

-- One round of the loop, and the rounds after it
exchanged-inner :
    (b e : ℕ) (m : Bytes) (x : ℕ)
    → b < e
    → (if leb (b + 1) x && leb x (e - 1)
        then exchanged b e m (b + 1 + (e - 1) - x)
        else exchanged b e m x)
      ≡ (if leb b x && leb x e then m (b + e - x) else m x)
exchanged-inner b e m x l = elim (Bool-cases (b == x)) [
  | inl y ↦
      let q : b ≡ x = (==_iff b x).0 y in
      let f : (leb (b + 1) x && leb x (e - 1)) ≡ false = ground (arith, y) in
      let g : (leb b x && leb x e) ≡ true = ground (arith, y, l) in
      let d : b + e - x ≡ e = ground (arith, y) in
      rw (f, g, d)
        (ap (exchanged b e m) (sym q) ∙ (exchanged-ends b e m (λ z. omega (arith, z, l))).0)
  | inr n ↦ elim (Bool-cases (e == x)) [
    | inl y ↦
        let q : e ≡ x = (==_iff e x).0 y in
        let f : (leb (b + 1) x && leb x (e - 1)) ≡ false = ground (arith, y, l) in
        let g : (leb b x && leb x e) ≡ true = ground (arith, y, l) in
        let d : b + e - x ≡ b = ground (arith, y) in
        rw (f, g, d)
          (ap (exchanged b e m) (sym q) ∙ (exchanged-ends b e m (λ z. omega (arith, z, l))).1)
    | inr k ↦ elim (Bool-cases (leb (b + 1) x && leb x (e - 1))) [
      | inl y ↦
          let g : (leb b x && leb x e) ≡ true = ground (arith, y) in
          let d : b + 1 + (e - 1) - x ≡ b + e - x = ground (arith, y) in
          rw (y, g, d)
            (exchanged-at b e m (b + e - x) (λ z. ground (arith, y, z, l))
              (λ z. ground (arith, y, z, l)))
      | inr z ↦
          let g : (leb b x && leb x e) ≡ false = ground (arith, z, n, k, l) in
          rw (z, g) (exchanged-at b e m x (λ q. ==→ne b x n (sym q)) (λ q. ==→ne e x k (sym q)))
    ]
  ]
]

-- The bytes between two places in the other order
swap_ends-at :
    (fuel b e : ℕ) (m : Bytes)
    → b ≤ e + 1
    → e ≤ b + fuel
    → (x : ℕ) → swap_ends fuel b e m x ≡ (if leb b x && leb x e then m (b + e - x) else m x)
unfolding swap_ends exchanged
swap_ends-at zero b e m h l x = elim (Bool-cases (leb b x && leb x e)) [
  | inl y ↦ let q : b + e - x ≡ x = ground (arith, y, h, l) in rw (y, q) refl
  | inr n ↦ rw n refl
]
swap_ends-at (suc fuel) b e m h l x = elim (Bool-cases (ltb b e)) [
  | inr n ↦ rw n (elim (Bool-cases (leb b x && leb x e)) [
    | inl y ↦ let q : b + e - x ≡ x = ground (arith, y, n, h) in rw (y, q) refl
    | inr z ↦ rw z refl
  ])
  | inl y ↦
      let ih =
        swap_ends-at fuel (b + 1) (e - 1) (exchanged b e m) (ground (arith, y))
          (ground (arith, y, l)) x in
      rw y (ih ∙ exchanged-inner b e m x (ground (arith, y)))
]

-- The text of `l` bytes with `n` digits: the byte at place `r` from the right where the padding is on the left,
-- and the byte at place `x` from the left where it is on the right.
pub sign : Bool → ℕ
sign neg = if neg then 1 else 0

behind_digits : Bool → Bool → ℕ → ℕ → ℕ → ℕ → ℕ
behind_digits neg zeros padc n l r =
    if zeros then (if r == l - 1 then 45 else 48) else (if neg && r == n then 45 else padc)

from_right : Bool → Bool → ℕ → ℕ → ℕ → (ℕ → ℕ) → ℕ → ℕ
from_right neg zeros padc n l digit r =
    if ltb r n then digit r else behind_digits neg zeros padc n l r

pub layout : Bool → Bool → ℕ → ℕ → ℕ → (ℕ → ℕ) → ℕ → ℕ
layout neg ladjust padc n l digit x =
    if ladjust
    then (if ltb x (n + sign neg)
        then from_right neg false 32 n l digit (n + sign neg - 1 - x)
        else 32)
    else from_right neg (neg && padc == 48) padc n l digit (l - 1 - x)

-- The buffer before it is reversed
before : Bool → Bool → ℕ → ℕ → ℕ → (ℕ → ℕ) → ℕ → ℕ
before neg ladjust padc n l digit r =
    if ladjust
    then from_right neg false 32 n l digit r
    else from_right neg (neg && padc == 48) padc n l digit r

module _ (n l : ℕ) (digit : ℕ → ℕ) (m : Bytes) (pos : 0 < n)
    (d : (r : ℕ) → r < n → m r ≡ digit r) where
  padded :
      (neg : Bool) (c : ℕ)
      → n + sign neg ≤ l
      → (neg ≡ true → m n ≡ 45)
      → (r : ℕ) → r < l
      → pad (l - (n + sign neg)) (n + sign neg) c m r ≡ from_right neg false c n l digit r
  unfolding from_right behind_digits sign
  padded neg c h s r k =
      pad_at (l - (n + sign neg)) (n + sign neg) c m r ∙ elim (Bool-cases (ltb r n)) [
        | inl y ↦
            let f : (leb (n + sign neg) r && ltb r (n + sign neg + (l - (n + sign neg)))) ≡ false =
              ground (arith, y) in
            rw (f, y) (d r (ground (arith, y)))
        | inr x ↦ elim (Bool-cases (neg && r == n)) [
          | inl y ↦
              let b = both neg (r == n) y in
              let e : r ≡ n = (==_iff r n).0 b.1 in
              let f : (leb (n + sign neg) r && ltb r (n + sign neg + (l - (n + sign neg))))
                  ≡ false =
                rw b.0 (ground (arith, e)) in
              rw (f, x, y) (ap m e ∙ s b.0)
          | inr z ↦
              let f : (leb (n + sign neg) r && ltb r (n + sign neg + (l - (n + sign neg)))) ≡ true =
                beyond neg r h k x z in
              rw (f, x, z) refl
        ]
      ]
    where
      both : (a b : Bool) → (a && b) ≡ true → (a ≡ true) × (b ≡ true)
      both true b y = (refl, y)
      both false b y = absurd (ground (arith, y))

      beyond :
          (neg : Bool) (r : ℕ)
          → n + sign neg ≤ l
          → r < l
          → ltb r n ≡ false
          → (neg && r == n) ≡ false
          → (leb (n + sign neg) r && ltb r (n + sign neg + (l - (n + sign neg)))) ≡ true
      beyond true r h k x z = ground (arith, h, k, x, z)
      beyond false r h k x z = ground (arith, h, k, x)

  zero_padded :
      n + 1 ≤ l
      → (r : ℕ) → r < l
      → update (pad (l - (n + 1)) (n + 1 - 1) 48 m) (l - 1) 45 r
        ≡ from_right true true 48 n l digit r
  unfolding from_right behind_digits
  zero_padded h r k = elim (Bool-cases (l - 1 == r)) [
    | inl y ↦
        let f : ltb r n ≡ false = ground (arith, y, h) in
        let g : (r == l - 1) ≡ true = ground (arith, y) in rw (y, f, g) refl
    | inr x ↦
        let g : (r == l - 1) ≡ false = ground (arith, x) in
        rw (x, g)
          (pad_at (l - (n + 1)) (n + 1 - 1) 48 m r ∙ elim (Bool-cases (ltb r n)) [
            | inl y ↦
                let f : (leb (n + 1 - 1) r && ltb r (n + 1 - 1 + (l - (n + 1)))) ≡ false =
                  ground (arith, y) in
                rw (f, y) (d r (ground (arith, y)))
            | inr z ↦
                let f : (leb (n + 1 - 1) r && ltb r (n + 1 - 1 + (l - (n + 1)))) ≡ true =
                  ground (arith, z, x, k, h) in
                rw (f, z) refl
          ])
  ]

  add_padding-before :
      (neg ladjust : Bool) (padc : ℕ)
      → n + sign neg ≤ l
      → (neg ≡ true → m n ≡ 45)
      → (r : ℕ) → r < l
      → add_padding neg ladjust padc (n + sign neg) l m r ≡ before neg ladjust padc n l digit r
  unfolding add_padding before sign
  add_padding-before false true padc h s r k = padded false 32 h s r k
  add_padding-before false false padc h s r k = padded false padc h s r k
  add_padding-before true true padc h s r k = padded true 32 h s r k
  add_padding-before true false padc h s r k = elim (Bool-cases (padc == 48)) [
    | inl y ↦
        let e : padc ≡ 48 = (==_iff padc 48).0 y in
        subst
          (λ p. add_padding true false p (n + sign true) l m r ≡ before true false p n l digit r)
          (sym e) (zero_padded h r k)
    | inr x ↦ rw x (padded true padc h s r k)
  ]

-- What print_num passes to the output, for a number whose digits are `digit`.
abbrev pub Printed : ℕ → ℕ → Bool → ℕ → Bool → ℕ → Bool → ℕ × Bytes → Type 0
Printed u base neg length ladjust padc up (l, m) =
    (n : ℕ) × (0 < n)
    × (value n u base ≡ u)
    × (1 < n → nth_digit u base (n - 1) ≢ 0)
    × (l ≡ at_least length (n + sign neg))
    × ((x : ℕ)
        → x < l
        → m x ≡ layout neg ladjust padc n l (λ k. digit_char up (nth_digit u base k)) x)

no_sign : (neg : Bool) (n x : ℕ) → ltb x (n + sign neg) ≡ false → (neg && x == n) ≡ false
unfolding sign
no_sign true n x z = ground (arith, z)
no_sign false n x z = refl

-- From the right to the left
reversed :
    (neg ladjust : Bool) (padc n l : ℕ) (digit : ℕ → ℕ) (m : Bytes)
    → 0 < n
    → n + sign neg ≤ l
    → ((r : ℕ) → r < l → m r ≡ before neg ladjust padc n l digit r)
    → (x : ℕ) → x < l
    → swap_ends
        (if ladjust then n + sign neg - 1 else l - 1)
        0
        (if ladjust then n + sign neg - 1 else l - 1)
        m
        x
      ≡ layout neg ladjust padc n l digit x
unfolding before layout from_right behind_digits
reversed neg true padc n l digit m pos h b x k =
    swap_ends-at (n + sign neg - 1) 0 (n + sign neg - 1) m (omega arith) (omega arith) x
    ∙ elim (Bool-cases (ltb x (n + sign neg))) [
      | inl y ↦
          let f : (leb 0 x && leb x (n + sign neg - 1)) ≡ true = ground (arith, y) in
          let e : 0 + (n + sign neg - 1) - x ≡ n + sign neg - 1 - x = ground arith in
          rw (f, y, e) (b (n + sign neg - 1 - x) (ground (arith, h, pos)))
      | inr z ↦
          let f : (leb 0 x && leb x (n + sign neg - 1)) ≡ false = ground (arith, z, pos) in
          let g : ltb x n ≡ false = ground (arith, z) in
          rw (f, z) (b x k ∙ rw (g, no_sign neg n x z) refl)
    ]
reversed neg false padc n l digit m pos h b x k =
    swap_ends-at (l - 1) 0 (l - 1) m (omega arith) (omega arith) x
    ∙ (let f : (leb 0 x && leb x (l - 1)) ≡ true = ground (arith, k) in
        let e : 0 + (l - 1) - x ≡ l - 1 - x = ground arith in
        rw (f, e) (b (l - 1 - x) (omega (arith, k))))

finish_num-Printed :
    (u base : ℕ) (neg : Bool) (length : ℕ) (ladjust : Bool) (padc : ℕ) (up : Bool) (n : ℕ)
    (m : Bytes)
    → 0 < n
    → value n u base ≡ u
    → (1 < n → nth_digit u base (n - 1) ≢ 0)
    → ((r : ℕ) → r < n → m r ≡ digit_char up (nth_digit u base r))
    → (neg ≡ true → m n ≡ 45)
    → Printed u base neg length ladjust padc up
        (finish_num neg length ladjust padc (n + sign neg, m))
unfolding finish_num
finish_num-Printed u base neg length ladjust padc up n m pos val top d s =
    let l : ℕ = at_least length (n + sign neg) in
    let fit : n + sign neg ≤ l = ground arith in
    let digit : ℕ → ℕ = λ k. digit_char up (nth_digit u base k) in
    (
      n,
      pos,
      val,
      top,
      refl,
      reversed neg ladjust padc n l digit (add_padding neg ladjust padc (n + sign neg) l m) pos fit
          (add_padding-before n l digit m pos d neg ladjust padc fit s),
    )

digits_at :
    (base : ℕ) (up : Bool) (u n : ℕ) (m m' : Bytes)
    → ((x : ℕ)
        → m' x
          ≡ (if leb 0 x && ltb x (0 + n) then digit_char up (nth_digit u base (x - 0)) else m x))
    → (r : ℕ) → r < n
    → m' r ≡ digit_char up (nth_digit u base r)
digits_at base up u n m m' chars r h =
    let f : (leb 0 r && ltb r (0 + n)) ≡ true = ground (arith, h) in
    let z : r - 0 ≡ r = omega arith in chars r ∙ rw (f, z) refl

-- The buffer behind the first loop
stored :
    (base : ℕ) (up neg : Bool) (u n : ℕ) (length : ℕ) (ladjust : Bool) (padc : ℕ) (m m' : Bytes)
    → 0 < n
    → value n u base ≡ u
    → (1 < n → nth_digit u base (n - 1) ≢ 0)
    → ((x : ℕ)
        → m' x
          ≡ (if leb 0 x && ltb x (0 + n) then digit_char up (nth_digit u base (x - 0)) else m x))
    → Printed u base neg length ladjust padc up
        (finish_num neg length ladjust padc (put_sign neg (n, m')))
unfolding put_sign sign
stored base up false u n length ladjust padc m m' pos val top chars =
    let e : n + sign false ≡ n = omega arith in
    subst
      (λ k.
        Printed u base false length ladjust padc up (finish_num false length ladjust padc (k, m')))
      e
      (finish_num-Printed u base false length ladjust padc up n m' pos val top
        (digits_at base up u n m m' chars) (λ y. absurd (ground (arith, y))))
stored base up true u n length ladjust padc m m' pos val top chars =
    finish_num-Printed u base true length ladjust padc up n (update m' n 45) pos val top
      (λ r h. update_ne m' n r 45 (λ q. omega (arith, q, h)) ∙ digits_at base up u n m m' chars r h)
      (λ y. update_self m' n 45)

-- For a base of at least 2, `print_num` passes to the output as many bytes as the given length, or
-- as the digits and the sign take if that is more. The digits are worth the number, and have no 0
-- in front of others. From the right they come first if the text is not left-adjusted; then the
-- sign and the padding character up to the length; with padding by '0' the sign is the first byte
-- instead. If it is left-adjusted the sign and the digits come first from the left, and blanks
-- follow.
pub print_num-Printed :
    (u base : ℕ) (neg : Bool) (length : ℕ) (ladjust : Bool) (padc : ℕ) (up : Bool) (m : Bytes)
    → 1 < base
    → Printed u base neg length ladjust padc up (print_num u base neg length ladjust padc up m)
unfolding print_num
print_num-Printed u base neg length ladjust padc up m b =
    go (store_digits u u base up 0 m) (store_digits-Stored u base up 0 u m b (omega arith))
  where
    go :
        (r : ℕ × Bytes)
        → Stored base up 0 u m r
        → Printed u base neg length ladjust padc up
            (finish_num neg length ladjust padc (put_sign neg r))
    go (e, m') (n, pos, at, val, top, chars) =
        subst
          (λ k.
            Printed u base neg length ladjust padc up
              (finish_num neg length ladjust padc (put_sign neg (k, m'))))
          (sym (at ∙ omega arith))
          (stored base up neg u n length ladjust padc m m' pos val top chars)
