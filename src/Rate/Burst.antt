-- ===== src/Rate/Burst.antt =====
-- The first requests on a new limiter of internal/rate/rate.go.
use anicetus.Prelude.{
  ℕ, zero, suc, ◌+◌, ◌-◌, ◌≤◌, ◌<◌, ◌≡◌, refl, Bool, true, if◌then◌else◌, ltb, List, [], ◌∷◌,
  length, All, arith, ◌%◌, ◌⊎◌, inr,
}
use anicetus.Prelude.Int.{pos}
use anicetus.Rate.Float.{Float64, IsFloat, of_ℕ, seconds, exact_below}
use anicetus.Rate.Limiter.{
  Limiter, new_limiter, allow, advance, tokens_from_duration, sub_time, max_int64,
}

abbrev pub elapsed : ℕ → ℕ → ℕ
elapsed t u = if ltb (u + max_int64) t then max_int64 else t - u

pub sub_time-elapsed : (t u : ℕ) → u ≤ t → sub_time t u ≡ pos (elapsed t u)
unfolding sub_time
sub_time-elapsed t u h = ground arith

module _ {R : Type 0} ⦃fl : Float64 R⦄ where
  -- The answers of `Allow` at the given times, in turn.
  unfoldable pub allows : List ℕ → Limiter R → List Bool
  allows [] lim = []
  allows (t ∷ ts) lim = let (ok, lim') = allow t lim in ok ∷ allows ts lim'

  -- The limiter has no limit, or at least `k` tokens of at most `b`.
  pub record IsFilled (k b : ℕ) (lim : Limiter R) : Type 0 where
    pub bucket : lim.burst ≡ pos b
    pub fits : k ≤ b
    pub finite : fl.le lim.limit fl.max_float ≡ true
    pub filled : (fl.eq lim.limit fl.max_float ≡ true) ⊎ (fl.le (of_ℕ k) lim.tokens ≡ true)

  module _ (laws : IsFloat R) where
    open laws use {le_down, le_of_ℕ, not-lt_of_le, add_le, mul_nonneg, div_nonneg, sub_one_le}

    le-seconds : (n : ℕ) → fl.le (of_ℕ 0) (seconds (pos n)) ≡ true
    unfolding seconds
    le-seconds n =
        add_le 0 _ _ (le_of_ℕ 0 _ (omega arith))
          (div_nonneg (n % 1_000_000_000) 1_000_000_000 (omega arith) (omega arith) (omega arith))

    le-tokens_from_duration :
        (limit : R) (n : ℕ)
        → fl.le limit fl.max_float ≡ true
        → fl.le (of_ℕ 0) (tokens_from_duration limit (pos n)) ≡ true
    unfolding tokens_from_duration
    le-tokens_from_duration limit n h =
        ground (arith, le_of_ℕ 0 0, mul_nonneg (seconds (pos n)) limit (le-seconds n))

    pub le-advance :
        (t k b : ℕ) (lim : Limiter R)
        → lim.burst ≡ pos b
        → k ≤ b
        → fl.le lim.limit fl.max_float ≡ true
        → fl.le (of_ℕ k) lim.tokens ≡ true
        → fl.le (of_ℕ k) (advance t lim) ≡ true
    unfolding advance
    le-advance t k b lim e h f q =
        let last : ℕ = if ltb t lim.last then t else lim.last in
        let early : last ≤ t = ground arith in
        ground (
          arith,
          sub_time-elapsed t last early,
          le-tokens_from_duration lim.limit (elapsed t last) f,
          add_le k lim.tokens (tokens_from_duration lim.limit (pos (elapsed t last))),
          le_of_ℕ k b,
        )

    allow-IsFilled :
        (t k b : ℕ) (lim : Limiter R)
        → suc k < exact_below
        → IsFilled (suc k) b lim
        → ((allow t lim).0 ≡ true) × IsFilled k b (allow t lim).1
    unfolding allow
    allow-IsFilled t k b lim small v = ground (
      arith,
      le-advance t (suc k) b lim v.bucket v.fits v.finite,
      sub_one_le k (advance t lim) small,
      not-lt_of_le (of_ℕ 0) (fl.sub (advance t lim) (of_ℕ 1)),
      le_down 0 k (fl.sub (advance t lim) (of_ℕ 1)),
    )

    allows-IsFilled :
        (ts : List ℕ) (k b : ℕ) (lim : Limiter R)
        → length ts ≤ k
        → k < exact_below
        → IsFilled k b lim
        → All (λ ok. ok ≡ true) (allows ts lim)
    unfolding allows
    allows-IsFilled [] k b lim few small v = tt
    allows-IsFilled (t ∷ ts) zero b lim few small v = absurd (omega arith)
    allows-IsFilled (t ∷ ts) (suc k) b lim few small v =
        let (ok, v') = allow-IsFilled t k b lim small v in
        (ok, allows-IsFilled ts k b (allow t lim).1 (omega arith) (omega arith) v')

    -- A new limiter of burst `b` allows the first `b` requests, at whatever times they come.
    pub allows_burst :
        (r : R) (b : ℕ) (ts : List ℕ)
        → fl.le r fl.max_float ≡ true
        → b < exact_below
        → length ts ≤ b
        → All (λ ok. ok ≡ true) (allows ts (new_limiter r (pos b)))
    unfolding new_limiter
    allows_burst r b ts finite small few =
        allows-IsFilled ts b b (new_limiter r (pos b)) few small (record {
          bucket = refl;
          fits = omega arith;
          finite = finite;
          filled = inr (le_of_ℕ b b (omega arith));
        })
