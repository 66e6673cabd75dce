-- ===== src/Rate/Fixed.antt =====
-- A concrete arithmetic for the interface `Float64`: decimal numbers with nine places, cut off
-- towards zero.
use anicetus.Prelude.{ℕ, zero, suc, ◌+◌, ◌*◌, ◌/◌, ◌^◌, ◌&&◌, arith}
use anicetus.Prelude.Int.{ℤ, pos, negsuc, pos_part, neg_part, sub_ℕ, ltb_ℤ, leb_ℤ}
use anicetus.Rate.Float.{Float64, IsFloat}

abbrev neg_ℤ : ℤ → ℤ
neg_ℤ (pos zero) = pos zero
neg_ℤ (pos (suc n)) = negsuc n
neg_ℤ (negsuc n) = pos (suc n)

abbrev unit : ℕ
unit = 1_000_000_000

-- a * b / c on the magnitudes, with the sign of the product
abbrev scaled : ℤ → ℕ → ℕ → ℤ
scaled (pos a) b c = pos (a * b / c)
scaled (negsuc a) b c = neg_ℤ (pos (suc a * b / c))

abbrev mul_fixed : ℤ → ℤ → ℤ
mul_fixed a (pos b) = scaled a b unit
mul_fixed a (negsuc b) = neg_ℤ (scaled a (suc b) unit)

abbrev div_fixed : ℤ → ℤ → ℤ
div_fixed a (pos b) = scaled a unit b
div_fixed a (negsuc b) = neg_ℤ (scaled a unit (suc b))

instance abbrev pub fixed : Float64 ℤ
fixed = record {
  of_int = λ n. scaled n unit 1;
  max_float = pos (2 ^ 200);
  add = λ a b. sub_ℕ (pos_part a + pos_part b) (neg_part a + neg_part b);
  sub = λ a b. sub_ℕ (pos_part a + neg_part b) (neg_part a + pos_part b);
  mul = mul_fixed;
  div = div_fixed;
  neg = neg_ℤ;
  lt = ltb_ℤ;
  le = leb_ℤ;
  eq = λ a b. leb_ℤ a b && leb_ℤ b a;
  to_duration = λ a. scaled a 1 unit;
}

pub fixed-IsFloat : IsFloat ℤ
fixed-IsFloat = record {
  le_of_ℕ = λ m n h. ground arith;
  le_down = λ m n x h k. ground arith;
  not-lt_of_le = λ x y h. ground arith;
  add_le = λ m x d h k. ground arith;
  mul_nonneg = λ x y h k l. ground arith;
  div_nonneg = λ m n h k l. ground arith;
  sub_one_le = λ m x h k. ground arith;
  not-lt_above = λ m n x h k. ground arith;
  sub_one_lt = λ x h. ground arith;
  lt_asym = λ x y h. ground arith;
  to_duration_pos = λ x h k. ground arith;
  sub_one = λ m h. ground arith;
  le_antisym = λ m x h k. ground arith;
  zero_div = λ n h k. ground arith;
  zero_mul = λ x h k. ground arith;
  add_zero = λ m. ground arith;
}
