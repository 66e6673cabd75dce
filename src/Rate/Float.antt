-- ===== src/Rate/Float.antt =====
-- What internal/rate/rate.go does with a `float64`. The operations are an interface, and the laws
-- say what the theorems rest on: IEEE 754 meets them, since its operations round monotonically and
-- are exact on the integers below 2 ^ 53.
use anicetus.Prelude.{ℕ, suc, ◌^◌, ◌<◌, ◌≤◌, ◌≡◌, Bool, true, false, ◌-◌}
use anicetus.Prelude.Int.{ℤ, pos, leb_ℤ, quot_ℤ, rem_ℤ}

pub record Float64 (R : Type 0) : Type 0 where
  -- `float64(n)`
  pub of_int : ℤ → R
  -- `math.MaxFloat64`
  pub max_float : R
  pub add : R → R → R
  pub sub : R → R → R
  pub mul : R → R → R
  pub div : R → R → R
  pub neg : R → R
  -- `x < y`, `x <= y` and `x == y`
  pub lt : R → R → Bool
  pub le : R → R → Bool
  pub eq : R → R → Bool
  -- `time.Duration(x)`
  pub to_duration : R → ℤ

module _ {R : Type 0} ⦃fl : Float64 R⦄ where
  abbrev pub of_ℕ : ℕ → R
  of_ℕ n = fl.of_int (pos n)

  -- `time.Duration.Seconds` of the standard library.
  unfoldable pub seconds : ℤ → R
  seconds d =
      fl.add (fl.of_int (quot_ℤ d 1_000_000_000))
        (fl.div (fl.of_int (rem_ℤ d 1_000_000_000)) (of_ℕ 1_000_000_000))

-- The integers that a `float64` holds exactly.
abbrev pub exact_below : ℕ
exact_below = 2 ^ 53

pub record IsFloat (R : Type 0) ⦃fl : Float64 R⦄ : Type 0 where
  pub le_of_ℕ : (m n : ℕ) → m ≤ n → fl.le (of_ℕ m) (of_ℕ n) ≡ true
  pub le_down : (m n : ℕ) (x : R) → m ≤ n → fl.le (of_ℕ n) x ≡ true → fl.le (of_ℕ m) x ≡ true
  pub not-lt_of_le : (x y : R) → fl.le x y ≡ true → fl.lt y x ≡ false
  -- A sum of what is not negative does not fall below its first part.
  pub add_le :
      (m : ℕ) (x d : R)
      → fl.le (of_ℕ m) x ≡ true
      → fl.le (of_ℕ 0) d ≡ true
      → fl.le (of_ℕ m) (fl.add x d) ≡ true
  pub mul_nonneg :
      (x y : R)
      → fl.le (of_ℕ 0) x ≡ true
      → fl.le y (of_ℕ 0) ≡ false
      → fl.le y fl.max_float ≡ true
      → fl.le (of_ℕ 0) (fl.mul x y) ≡ true
  pub div_nonneg :
      (m n : ℕ)
      → 0 < n
      → m < exact_below
      → n < exact_below
      → fl.le (of_ℕ 0) (fl.div (of_ℕ m) (of_ℕ n)) ≡ true
  -- One less than an integer, in order.
  pub sub_one_le :
      (m : ℕ) (x : R)
      → suc m < exact_below
      → fl.le (of_ℕ (suc m)) x ≡ true
      → fl.le (of_ℕ m) (fl.sub x (of_ℕ 1)) ≡ true
  pub not-lt_above : (m n : ℕ) (x : R) → m ≤ n → fl.lt x (of_ℕ m) ≡ true → fl.lt (of_ℕ n) x ≡ false
  pub sub_one_lt : (x : R) → fl.lt x (of_ℕ 1) ≡ true → fl.lt (fl.sub x (of_ℕ 1)) (of_ℕ 0) ≡ true
  pub lt_asym : (x y : R) → fl.lt x y ≡ true → fl.lt y x ≡ false
  -- A conversion in the range of `int64` cuts off the fraction.
  pub to_duration_pos :
      (x : R)
      → fl.le (of_ℕ 1) x ≡ true
      → fl.lt x (of_ℕ (2 ^ 63 - 1)) ≡ true
      → leb_ℤ (fl.to_duration x) (pos 0) ≡ false
  pub sub_one : (m : ℕ) → suc m < exact_below → fl.sub (of_ℕ (suc m)) (of_ℕ 1) ≡ of_ℕ m
  pub le_antisym :
      (m : ℕ) (x : R)
      → fl.le (of_ℕ (suc m)) x ≡ true
      → fl.lt (of_ℕ (suc m)) x ≡ false
      → x ≡ of_ℕ (suc m)
  pub zero_div : (n : ℕ) → 0 < n → n < exact_below → fl.div (of_ℕ 0) (of_ℕ n) ≡ of_ℕ 0
  pub zero_mul :
      (x : R) → fl.le x (of_ℕ 0) ≡ false → fl.le x fl.max_float ≡ true → fl.mul (of_ℕ 0) x ≡ of_ℕ 0
  pub add_zero : (m : ℕ) → fl.add (of_ℕ m) (of_ℕ 0) ≡ of_ℕ m
