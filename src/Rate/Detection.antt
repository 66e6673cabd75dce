-- ===== src/Rate/Detection.antt =====
-- A herd on a new limiter of internal/rate/rate.go: which of its requests are allowed.
use anicetus.Prelude.{ℕ, zero, suc, ◌≤◌, ◌<◌, ◌≡◌, refl, true, false, ◌∷◌, ◌++◌, replicate, arith}
use anicetus.Prelude.Int.{pos}
use mathlib.Core.Path.{ap₂}
use anicetus.Rate.Float.{Float64, IsFloat, of_ℕ, seconds, exact_below}
use anicetus.Rate.Limiter.{Limiter, new_limiter, allow, advance, tokens_from_duration}
use anicetus.Rate.Burst.{allows, elapsed, sub_time-elapsed, le-advance}
use anicetus.Rate.Penalty.{IsShort, IsEmpty, allow_short, denied-IsEmpty}

pub elapsed_self : (t : ℕ) → elapsed t t ≡ 0
elapsed_self t = ground arith

module _ {R : Type 0} ⦃fl : Float64 R⦄ (laws : IsFloat R) where
  open laws use {sub_one, zero_div, zero_mul, add_zero, not-lt_of_le, le_of_ℕ, le_antisym, add_le}

  tokens_from_no_duration :
      (r : R) → fl.le r fl.max_float ≡ true → tokens_from_duration r (pos 0) ≡ of_ℕ 0
  unfolding tokens_from_duration seconds
  tokens_from_no_duration r h =
      ground (arith, zero_div 1_000_000_000 (omega arith) (omega arith), add_zero 0, zero_mul r)

  record IsExact (r : R) (b t k : ℕ) (lim : Limiter R) : Type 0 where
    limit : lim.limit ≡ r
    burst : lim.burst ≡ pos b
    tokens : lim.tokens ≡ of_ℕ k
    last : lim.last ≡ t

  advance-IsExact :
      (r : R) (b t k : ℕ) (lim : Limiter R)
      → fl.le r fl.max_float ≡ true
      → k ≤ b
      → IsExact r b t k lim
      → advance t lim ≡ of_ℕ k
  unfolding advance
  advance-IsExact r b t k lim f le v = ground (
    arith,
    sub_time-elapsed t t (omega arith),
    tokens_from_no_duration r f,
    add_zero k,
    le_of_ℕ k b le,
    not-lt_of_le (of_ℕ k) (of_ℕ b),
  )

  -- A bucket with `suc k` tokens allows a request, and one with none denies it.
  allow-IsExact :
      (r : R) (b t k : ℕ) (lim : Limiter R)
      → fl.eq r fl.max_float ≡ false
      → b < exact_below
      → suc k ≤ b
      → lim.limit ≡ r
      → lim.burst ≡ pos b
      → advance t lim ≡ of_ℕ (suc k)
      → ((allow t lim).0 ≡ true) × IsExact r b t k (allow t lim).1
  unfolding allow
  allow-IsExact r b t k lim ne small le p q e =
      ground
        (arith, sub_one k (omega arith), le_of_ℕ 0 k (omega arith), not-lt_of_le (of_ℕ 0) (of_ℕ k))

  empty_denies :
      (j : ℕ) (r : R) (b t : ℕ) (lim : Limiter R)
      → fl.eq r fl.max_float ≡ false
      → IsShort r (elapsed t t)
      → IsEmpty r b t lim
      → allows (replicate j t) lim ≡ replicate j false
  unfolding allows
  empty_denies zero r b t lim ne short v = refl
  empty_denies (suc j) r b t lim ne short v =
      let no_token = allow_short laws r b t t lim ne (omega arith) short v in
      ap₂ ◌∷◌ no_token (
        empty_denies j r b t (allow t lim).1 ne short
          (denied-IsEmpty r b t lim v.limit v.burst no_token).0)

  exact_allows :
      (k j : ℕ) (r : R) (b t : ℕ) (lim : Limiter R)
      → fl.le r fl.max_float ≡ true
      → fl.eq r fl.max_float ≡ false
      → b < exact_below
      → IsShort r (elapsed t t)
      → k ≤ b
      → IsExact r b t k lim
      → allows (replicate k t ++ replicate j t) lim ≡ replicate k true ++ replicate j false
  unfolding allows
  exact_allows zero j r b t lim f ne small short le v =
      empty_denies j r b t lim ne short
        (record { limit = v.limit; burst = v.burst; empty = v.tokens; last = v.last })
  exact_allows (suc k) j r b t lim f ne small short le v =
      let (token, v') =
        allow-IsExact r b t k lim ne small le v.limit v.burst
          (advance-IsExact r b t (suc k) lim f le v) in
      ap₂ ◌∷◌ token (exact_allows k j r b t (allow t lim).1 f ne small short (omega arith) v')

  capped : (t b : ℕ) (lim : Limiter R) → lim.burst ≡ pos b → fl.lt (of_ℕ b) (advance t lim) ≡ false
  unfolding advance
  capped t b lim e = ground (arith, le_of_ℕ b b (omega arith), not-lt_of_le (of_ℕ b) (of_ℕ b))

  advance-new_limiter :
      (r : R) (b t : ℕ)
      → fl.le r fl.max_float ≡ true
      → advance t (new_limiter r (pos (suc b))) ≡ of_ℕ (suc b)
  unfolding new_limiter
  advance-new_limiter r b t f =
      let lim = new_limiter r (pos (suc b)) in
      le_antisym b (advance t lim)
        (le-advance laws t (suc b) (suc b) lim refl (omega arith) f
          (le_of_ℕ (suc b) (suc b) (omega arith)))
        (capped t (suc b) lim refl)

  -- Of a herd of `b + k` requests that come at once a new limiter of burst `b` allows the first `b`
  -- and denies the rest, as long as one token takes a nanosecond or more.
  pub herd_detected :
      (r : R) (b k t : ℕ)
      → fl.le r fl.max_float ≡ true
      → fl.eq r fl.max_float ≡ false
      → b < exact_below
      → 0 < b
      → IsShort r 0
      → allows (replicate b t ++ replicate k t) (new_limiter r (pos b))
        ≡ replicate b true ++ replicate k false
  unfolding allows new_limiter
  herd_detected r zero k t f ne small some_burst short = absurd (omega arith)
  herd_detected r (suc b) k t f ne small some_burst short =
      let lim = new_limiter r (pos (suc b)) in
      let (token, v) =
        allow-IsExact r (suc b) t b lim ne small (omega arith) refl refl
          (advance-new_limiter r b t f) in
      ap₂ ◌∷◌ token (
        exact_allows b k r (suc b) t (allow t lim).1 f ne small (rw (elapsed_self t) short)
          (omega arith) v)
