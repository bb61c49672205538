-- ===== src/Base/Bitmap.antt =====
-- Bit maps as the kernel and the file server keep them: an array of 32-bit words. The three tests and
-- writes of a bit, `w & (1 << i)`, `w |= 1 << i` and `w &= ~(1 << i)`, by the binary digits.
use Prim.Native.Nat.{ℕ, zero, suc, ◌+◌, ◌*◌, ◌/◌, ◌%◌}
use mathlib.Core.Path.{◌≡◌, refl}
use mathlib.Core.Logic.{◌≢◌}
use mathlib.Core.Bool.{Bool, true, false}
use native.Mathlib.Omega.{arith}
use os_challenge_sudo_shell.Base.Tests.{◌==◌, if◌then◌else◌, update}

unfoldable pub bit : ℕ → ℕ → Bool
bit zero w = w % 2 == 1
bit (suc i) w = bit i (w / 2)

unfoldable pub set_bit : ℕ → ℕ → ℕ
set_bit zero w = w / 2 * 2 + 1
set_bit (suc i) w = set_bit i (w / 2) * 2 + w % 2

unfoldable pub clear_bit : ℕ → ℕ → ℕ
clear_bit zero w = w / 2 * 2
clear_bit (suc i) w = clear_bit i (w / 2) * 2 + w % 2

halve : (x w : ℕ) → (x * 2 + w % 2) / 2 ≡ x
halve x w = omega arith

pub bit-set_self : (i w : ℕ) → bit i (set_bit i w) ≡ true
unfolding bit set_bit
bit-set_self zero w = ground arith
bit-set_self (suc i) w = rw halve (bit-set_self i (w / 2))

pub bit-clear_self : (i w : ℕ) → bit i (clear_bit i w) ≡ false
unfolding bit clear_bit
bit-clear_self zero w = ground arith
bit-clear_self (suc i) w = rw halve (bit-clear_self i (w / 2))

pub bit-set_ne : (i j w : ℕ) → i ≢ j → bit j (set_bit i w) ≡ bit j w
unfolding bit set_bit
bit-set_ne zero zero w h = absurd (h refl)
bit-set_ne zero (suc j) w h = let e : (w / 2 * 2 + 1) / 2 ≡ w / 2 = omega arith in rw e
bit-set_ne (suc i) zero w h = ground arith
bit-set_ne (suc i) (suc j) w h = rw halve (bit-set_ne i j (w / 2) (omega arith))

pub bit-clear_ne : (i j w : ℕ) → i ≢ j → bit j (clear_bit i w) ≡ bit j w
unfolding bit clear_bit
bit-clear_ne zero zero w h = absurd (h refl)
bit-clear_ne zero (suc j) w h = let e : w / 2 * 2 / 2 ≡ w / 2 = omega arith in rw e
bit-clear_ne (suc i) zero w h = ground arith
bit-clear_ne (suc i) (suc j) w h = rw halve (bit-clear_ne i j (w / 2) (omega arith))

-- The array: bit `i % 32` of word `i / 32`.
abbrev pub Bitmap : Type 0
Bitmap = ℕ → ℕ

unfoldable pub test : Bitmap → ℕ → Bool
test b i = bit (i % 32) (b (i / 32))

unfoldable pub mark : Bitmap → ℕ → Bitmap
mark b i = update b (i / 32) (set_bit (i % 32) (b (i / 32)))

unfoldable pub unmark : Bitmap → ℕ → Bitmap
unmark b i = update b (i / 32) (clear_bit (i % 32) (b (i / 32)))

pub test-mark : (b : Bitmap) (i j : ℕ) → test (mark b i) j ≡ (if i == j then true else test b j)
unfolding test mark
test-mark b i j =
    ground (arith, bit-set_self (i % 32) (b (i / 32)), bit-set_ne (i % 32) (j % 32) (b (i / 32)))

pub test-unmark :
    (b : Bitmap) (i j : ℕ) → test (unmark b i) j ≡ (if i == j then false else test b j)
unfolding test unmark
test-unmark b i j =
    ground
      (arith, bit-clear_self (i % 32) (b (i / 32)), bit-clear_ne (i % 32) (j % 32) (b (i / 32)))
