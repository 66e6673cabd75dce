-- ===== src/Rate/Penalty.antt =====
-- The penalty that internal/rate/rate.go puts on a herd: a request that is denied empties the
-- bucket.
use anicetus.Prelude.{refl, ℕ, ◌≤◌, ◌≡◌, true, false, if◌then◌else◌, List, [], ◌∷◌, arith}
use anicetus.Prelude.Int.{pos}
use anicetus.Rate.Float.{Float64, IsFloat, of_ℕ}
use anicetus.Rate.Limiter.{
  Limiter, allow, advance, tokens_from_duration, duration_from_tokens, max_int64,
}
use anicetus.Rate.Burst.{elapsed, sub_time-elapsed}

module _ {R : Type 0} ⦃fl : Float64 R⦄ where
  -- What an empty bucket holds after a duration, and how long the rest of a token then takes, in
  -- nanoseconds.
  abbrev pub refill : R → ℕ → R
  refill limit d = fl.add (of_ℕ 0) (tokens_from_duration limit (pos d))

  abbrev pub missing : R → ℕ → R
  missing limit d =
      fl.mul (fl.div (fl.neg (fl.sub (refill limit d) (of_ℕ 1))) limit) (of_ℕ 1_000_000_000)

  -- After the duration an empty bucket holds less than one token, and the rest takes a nanosecond
  -- or more.
  abbrev pub IsShort : R → ℕ → Type 0
  IsShort limit d =
      (fl.lt (refill limit d) (of_ℕ 1) ≡ true)
      × (fl.le (of_ℕ 1) (missing limit d) ≡ true)
      × (fl.lt (missing limit d) (of_ℕ max_int64) ≡ true)

  -- Each time is a short while after the one before.
  abbrev pub AreRapid : R → ℕ → List ℕ → Type 0
  AreRapid limit t [] = Unit
  AreRapid limit t (u ∷ us) = (t ≤ u) × IsShort limit (elapsed u t) × AreRapid limit u us

  pub record IsEmpty (r : R) (b t : ℕ) (lim : Limiter R) : Type 0 where
    pub limit : lim.limit ≡ r
    pub burst : lim.burst ≡ pos b
    pub empty : lim.tokens ≡ of_ℕ 0
    pub last : lim.last ≡ t

  pub denied-IsEmpty :
      (r : R) (b t : ℕ) (lim : Limiter R)
      → lim.limit ≡ r
      → lim.burst ≡ pos b
      → (allow t lim).0 ≡ false
      → IsEmpty r b t (allow t lim).1 × (fl.eq r fl.max_float ≡ false)
  unfolding allow
  denied-IsEmpty r b t lim p q h = ground arith

  advance-refill :
      (r : R) (b t u : ℕ) (lim : Limiter R)
      → t ≤ u
      → IsEmpty r b t lim
      → advance u lim
        ≡ (if fl.lt (of_ℕ b) (refill r (elapsed u t)) then of_ℕ b else refill r (elapsed u t))
  unfolding advance
  advance-refill r b t u lim le v = ground (arith, sub_time-elapsed u t le)

  module _ (laws : IsFloat R) where
    open laws use {
      not-lt_above, sub_one_lt, sub_one_le, lt_asym, to_duration_pos, not-lt_of_le, le_of_ℕ,
    }

    pub allow_short :
        (r : R) (b t u : ℕ) (lim : Limiter R)
        → fl.eq r fl.max_float ≡ false
        → t ≤ u
        → IsShort r (elapsed u t)
        → IsEmpty r b t lim
        → (allow u lim).0 ≡ false
    unfolding allow duration_from_tokens
    allow_short r b t u lim ne le (low, wait, range) v = ground (
      arith,
      advance-refill r b t u lim le v,
      not-lt_above 1 b (refill r (elapsed u t)),
      sub_one_lt (refill r (elapsed u t)) low,
      lt_asym (missing r (elapsed u t)) (of_ℕ max_int64) range,
      to_duration_pos (missing r (elapsed u t)) wait range,
    )

    allow_token :
        (r : R) (b t u : ℕ) (lim : Limiter R)
        → 1 ≤ b
        → t ≤ u
        → fl.le (of_ℕ 1) (refill r (elapsed u t)) ≡ true
        → IsEmpty r b t lim
        → (allow u lim).0 ≡ true
    unfolding allow
    allow_token r b t u lim one le token v = ground (
      arith,
      advance-refill r b t u lim le v,
      le_of_ℕ 1 b,
      sub_one_le 0 (of_ℕ b) (omega arith),
      sub_one_le 0 (refill r (elapsed u t)) (omega arith),
      not-lt_of_le (of_ℕ 0) (fl.sub (of_ℕ b) (of_ℕ 1)),
      not-lt_of_le (of_ℕ 0) (fl.sub (refill r (elapsed u t)) (of_ℕ 1)),
    )

    -- A request that comes when the empty bucket has gained a token since the last denied one is
    -- allowed.
    pub denied_recovers :
        (t u : ℕ) (lim : Limiter R) (b : ℕ)
        → lim.burst ≡ pos b
        → 1 ≤ b
        → (allow t lim).0 ≡ false
        → t ≤ u
        → fl.le (of_ℕ 1) (refill lim.limit (elapsed u t)) ≡ true
        → (allow u (allow t lim).1).0 ≡ true
    denied_recovers t u lim b full one denied le token =
        let (v, ne) = denied-IsEmpty lim.limit b t lim refl full denied in
        allow_token lim.limit b t u (allow t lim).1 one le token v
