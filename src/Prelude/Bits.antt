-- ===== src/Prelude/Bits.antt =====
-- Bitwise operations of Go's unsigned integers on numbers, by their width.
use anicetus.Prelude.Tests.{◌==◌, if◌then◌else◌}
use Prim.Native.Nat.{ℕ, zero, suc, ◌+◌, ◌*◌, ◌/◌, ◌%◌, ◌^◌, ◌<◌}
use Prim.Native.Nat.pow
use mathlib.Core.Path.{◌≡◌, refl, ap, ◌∙◌}
use mathlib.Core.Bool.{Bool, true, false, not, ◌&&◌, ◌||◌}
use native.Mathlib.Omega.{arith}

abbrev pub is_odd : ℕ → Bool
is_odd n = n % 2 == 1

abbrev pub put_bit : Bool → ℕ → ℕ
put_bit b n = if b then 2 * n + 1 else 2 * n

unfoldable pub bit_or : ℕ → ℕ → ℕ → ℕ
bit_or zero a b = 0
bit_or (suc w) a b = put_bit (is_odd a || is_odd b) (bit_or w (a / 2) (b / 2))

unfoldable pub bit_and : ℕ → ℕ → ℕ → ℕ
bit_and zero a b = 0
bit_and (suc w) a b = put_bit (is_odd a && is_odd b) (bit_and w (a / 2) (b / 2))

unfoldable pub test_bit : ℕ → ℕ → Bool
test_bit zero a = is_odd a
test_bit (suc i) a = test_bit i (a / 2)

put_bit_odd : (b : Bool) (n : ℕ) → is_odd (put_bit b n) ≡ b
put_bit_odd true n = ground arith
put_bit_odd false n = ground arith

put_bit_half : (b : Bool) (n : ℕ) → put_bit b n / 2 ≡ n
put_bit_half true n = omega arith
put_bit_half false n = omega arith

put_bit_test : (b : Bool) (n : ℕ) → not (put_bit b n == 0) ≡ (b || not (n == 0))
put_bit_test true n = ground arith
put_bit_test false n = ground arith

and_true : (b c : Bool) → c ≡ true → (b && c || false) ≡ b
and_true true c h = ground arith
and_true false c h = refl

and_false : (b c d : Bool) → c ≡ false → (b && c || d) ≡ d
and_false true c d h = ground arith
and_false false c d h = refl

pow_even : (i : ℕ) → is_odd (2 ^ suc i) ≡ false
pow_even i = ground (arith, pow.suc 2 i)

pow_half : (i : ℕ) → 2 ^ suc i / 2 ≡ 2 ^ i
pow_half i = omega (arith, pow.suc 2 i)

pub test_bit-bit_or :
    (w i a b : ℕ) → i < w → test_bit i (bit_or w a b) ≡ (test_bit i a || test_bit i b)
unfolding test_bit bit_or
test_bit-bit_or zero i a b h = absurd (omega (arith, h))
test_bit-bit_or (suc w) zero a b h = put_bit_odd _ _
test_bit-bit_or (suc w) (suc i) a b h =
    ap (test_bit i) (put_bit_half _ _) ∙ test_bit-bit_or w i (a / 2) (b / 2) (omega (arith, h))

bit_and_zero : (w a : ℕ) → bit_and w a 0 ≡ 0
unfolding bit_and
bit_and_zero zero a = refl
bit_and_zero (suc w) a = rw (bit_and_zero w (a / 2)) (ground arith)

pub bit_and_pow : (w i a : ℕ) → i < w → not (bit_and w a (2 ^ i) == 0) ≡ test_bit i a
unfolding test_bit bit_and
bit_and_pow zero i a h = absurd (omega (arith, h))
bit_and_pow (suc w) zero a h =
    put_bit_test _ _ ∙ rw (bit_and_zero w (a / 2)) (and_true (is_odd a) true refl)
bit_and_pow (suc w) (suc i) a h =
    put_bit_test _ _
    ∙ rw (pow_half i) (and_false (is_odd a) _ _ (pow_even i))
    ∙ bit_and_pow w i (a / 2) (omega (arith, h))

pub test_bit_zero : (i : ℕ) → test_bit i 0 ≡ false
unfolding test_bit
test_bit_zero zero = refl
test_bit_zero (suc i) = test_bit_zero i

pub test_bit-pow : (i j : ℕ) → test_bit i (2 ^ j) ≡ (i == j)
unfolding test_bit
test_bit-pow zero zero = refl
test_bit-pow zero (suc j) = rw (pow_even j) (ground arith)
test_bit-pow (suc i) zero = rw (test_bit_zero i) (ground arith)
test_bit-pow (suc i) (suc j) = rw (pow_half j) (test_bit-pow i j ∙ ground arith)
