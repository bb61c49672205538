-- ===== src/Base/Bits.antt =====
-- Facts about `bit_or` on the native numbers, from the digit recursion it stands for, and single
-- bits of a word.
use Prim.Native.Nat.{
  ℕ, zero, suc, ◌+◌, ◌*◌, ◌/◌, ◌%◌, ◌^◌, ◌≤◌, ◌<◌, max, bit_or, digits, bit_or-bitwise,
}
use mathlib.Core.Path.{◌≡◌, refl, ap, ap₂, sym, ◌∙◌}
use Prim.Native.Nat.pow
use native.Mathlib.Nat.{pow-suc}
use native.Mathlib.Omega.{arith}

abbrev or_digits : ℕ → ℕ → ℕ → ℕ
or_digits n a b = digits (λ b. b) max n a b

or_digits_fuel : (n m a b : ℕ) → a ≤ n → a ≤ m → or_digits n a b ≡ or_digits m a b
or_digits_fuel zero zero a b p q = refl
or_digits_fuel zero (suc m) zero b p q = refl
or_digits_fuel zero (suc m) (suc a) b p q = absurd (omega arith)
or_digits_fuel (suc n) zero zero b p q = refl
or_digits_fuel (suc n) zero (suc a) b p q = absurd (omega arith)
or_digits_fuel (suc n) (suc m) zero b p q = refl
or_digits_fuel (suc n) (suc m) (suc a) b p q =
    omega (arith, or_digits_fuel n m (suc a / 2) (b / 2) (omega arith) (omega arith))

pub zero-bit_or : (b : ℕ) → bit_or 0 b ≡ b
zero-bit_or b = bit_or-bitwise 0 b

bit_or_step : (a b : ℕ) → bit_or a b ≡ bit_or (a / 2) (b / 2) * 2 + max (a % 2) (b % 2)
bit_or_step zero b = omega (arith, zero-bit_or b, zero-bit_or (b / 2))
bit_or_step (suc a) b = omega (
  arith,
  bit_or-bitwise (suc a) b,
  bit_or-bitwise (suc a / 2) (b / 2),
  or_digits_fuel a (suc a / 2) (suc a / 2) (b / 2) (omega arith) (omega arith),
)

pub half-bit_or : (a b : ℕ) → bit_or a b / 2 ≡ bit_or (a / 2) (b / 2)
half-bit_or a b = omega (arith, bit_or_step a b)

pub parity-bit_or : (a b : ℕ) → bit_or a b % 2 ≡ max (a % 2) (b % 2)
parity-bit_or a b = omega (arith, bit_or_step a b)

bit_or-zero_fuel : (n a : ℕ) → a ≤ n → bit_or a 0 ≡ a
bit_or-zero_fuel n zero h = zero-bit_or 0
bit_or-zero_fuel zero (suc a) h = absurd (omega arith)
bit_or-zero_fuel (suc n) (suc a) h =
    omega (arith, bit_or_step (suc a) 0, bit_or-zero_fuel n (suc a / 2) (omega arith))

pub bit_or-zero : (a : ℕ) → bit_or a 0 ≡ a
bit_or-zero a = bit_or-zero_fuel a a (omega arith)

-- a >> k, one place at a time.
pub shift : ℕ → ℕ → ℕ
shift zero a = a
shift (suc k) a = shift k (a / 2)

pub shift-bit_or : (k a b : ℕ) → shift k (bit_or a b) ≡ bit_or (shift k a) (shift k b)
unfolding shift
shift-bit_or zero a b = refl
shift-bit_or (suc k) a b = ap (shift k) (half-bit_or a b) ∙ shift-bit_or k (a / 2) (b / 2)

shift_12 : (a : ℕ) → shift 12 a ≡ a / 4096
unfolding shift
shift_12 a = omega arith

shift_7 : (a : ℕ) → shift 7 a ≡ a / 128
unfolding shift
shift_7 a = omega arith

-- The part of a page table entry above its flags.
pub div_4096-bit_or : (a b : ℕ) → bit_or a b / 4096 ≡ bit_or (a / 4096) (b / 4096)
div_4096-bit_or a b =
    sym (shift_12 (bit_or a b)) ∙ shift-bit_or 12 a b ∙ ap₂ bit_or (shift_12 a) (shift_12 b)

div_128-bit_or : (a b : ℕ) → bit_or a b / 128 ≡ bit_or (a / 128) (b / 128)
div_128-bit_or a b =
    sym (shift_7 (bit_or a b)) ∙ shift-bit_or 7 a b ∙ ap₂ bit_or (shift_7 a) (shift_7 b)

pub bit_7-bit_or : (a b : ℕ) → bit_or a b / 128 % 2 ≡ max (a / 128 % 2) (b / 128 % 2)
bit_7-bit_or a b = omega (arith, div_128-bit_or a b, parity-bit_or (a / 128) (b / 128))

-- a * 2^k | b is a sum where b fits under the shift.
pub bit_or-add : (k a b : ℕ) → b < 2 ^ k → bit_or (a * 2 ^ k) b ≡ a * 2 ^ k + b
bit_or-add zero a b h =
    let e : b ≡ 0 = omega (arith, pow.zero 2) in rw (e, bit_or-zero) (omega arith)
bit_or-add (suc k) a b h =
    let e : 2 ^ suc k ≡ 2 ^ k * 2 = pow-suc 2 k in
    let h' : b < 2 ^ k * 2 = rw (← e) h in
    let r : a * (2 ^ k * 2) ≡ a * 2 ^ k * 2 = omega arith in
    let q : a * 2 ^ k * 2 / 2 ≡ a * 2 ^ k = omega arith in
    rw (e, r)
      (omega (
        arith,
        bit_or_step (a * 2 ^ k * 2) b,
        ap (λ x. bit_or x (b / 2)) q,
        bit_or-add k a (b / 2) (omega arith),
      ))

shift_8 : (a : ℕ) → shift 8 a ≡ a / 256
unfolding shift
shift_8 a = omega arith

div_256-bit_or : (a b : ℕ) → bit_or a b / 256 ≡ bit_or (a / 256) (b / 256)
div_256-bit_or a b =
    sym (shift_8 (bit_or a b)) ∙ shift-bit_or 8 a b ∙ ap₂ bit_or (shift_8 a) (shift_8 b)

pub bit_8-bit_or : (a b : ℕ) → bit_or a b / 256 % 2 ≡ max (a / 256 % 2) (b / 256 % 2)
bit_8-bit_or a b = omega (arith, div_256-bit_or a b, parity-bit_or (a / 256) (b / 256))
