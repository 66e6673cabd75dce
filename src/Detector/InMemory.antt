-- ===== src/Detector/InMemory.antt =====
-- detector/tokenbucket_inmemory.go. The methods take what each `time.Now()` below them returns. The
-- limiters are pointers in the source: a limiter that `Allow` has changed is the one in the map.
use anicetus.Prelude.{ℕ, Bool, true, false, not, List, Option, none, some, write}
use anicetus.Prelude.Int.{ℤ, mul_ℤ, wrap_int64}
use anicetus.Mapexp.Map
use anicetus.Mapexp.Map.{Map}
use anicetus.Rate.Float.{Float64}
use anicetus.Rate.Limiter.{Limiter, every, new_limiter, allow}
use anicetus.Detector.Options.{
  TokenBucketOptions, TokenBucketOption, new_token_bucket_options, apply,
}

pub record TokenBucketInMemory (F R : Type 0) : Type 0 where
  pub cooldowns : Map F Bool
  pub limiters : Map F (Limiter R)
  pub limiters_burst : ℤ
  pub limiters_interval : ℤ

module _ {F R : Type 0} where
  -- `none` is a panic of `mapexp.New`.
  unfoldable pub from_options :
      {L : Type 0} → TokenBucketOptions L → Option (TokenBucketInMemory F R)
  from_options o =
      let full_bucket_period = wrap_int64 (mul_ℤ o.limiters_interval o.limiters_burst) in
      elim (Map.new {K = F} {V = Bool} o.cool_down_interval) [
        | none ↦ none
        | some cooldowns ↦ elim (Map.new {K = F} {V = Limiter R} full_bucket_period) [
          | none ↦ none
          | some limiters ↦ some (record {
            cooldowns = cooldowns;
            limiters = limiters;
            limiters_burst = o.limiters_burst;
            limiters_interval = o.limiters_interval;
          })
        ]
      ]

  unfoldable pub new_token_bucket_in_memory :
      {L : Type 0} → List (TokenBucketOption L) → Option (TokenBucketInMemory F R)
  unfolding from_options
  new_token_bucket_in_memory options = from_options (apply options new_token_bucket_options)

module _ {F R : Type 0} (dec : Discrete F) where
  unfoldable pub cool_down : ℕ → F → TokenBucketInMemory F R → TokenBucketInMemory F R
  cool_down now fingerprint t = record t {
    cooldowns = Map.set dec now fingerprint true t.cooldowns;
  }

  unfoldable pub is_cool_down : ℕ → F → TokenBucketInMemory F R → Bool × TokenBucketInMemory F R
  is_cool_down now fingerprint t =
      let (found, cooldowns) = Map.get dec now fingerprint t.cooldowns in
      (elim found [ none ↦ false | some cooldown ↦ cooldown ], record t { cooldowns = cooldowns })

  module _ ⦃fl : Float64 R⦄ where
    -- The limiter found, or a new one that is put into the map.
    unfoldable pub get_or_create :
        (get_at set_at : ℕ) → F → TokenBucketInMemory F R → Limiter R × Map F (Limiter R)
    get_or_create get_at set_at fingerprint t =
        let (found, looked_up) = Map.get dec get_at fingerprint t.limiters in
        elim found [
          | some limiter ↦ (limiter, looked_up)
          | none ↦
              let limiter = new_limiter (every t.limiters_interval) t.limiters_burst in
              (limiter, Map.set dec set_at fingerprint limiter looked_up)
        ]

    unfoldable pub is_thundering_herd :
        (get_at set_at allow_at : ℕ) → F → TokenBucketInMemory F R → Bool × TokenBucketInMemory F R
    unfolding get_or_create
    is_thundering_herd get_at set_at allow_at fingerprint t =
        let (limiter, limiters) = get_or_create get_at set_at fingerprint t in
        let (allowed, limiter') = allow allow_at limiter in
        (
          not allowed,
          record t {
            limiters = record limiters { items = write dec limiters.items fingerprint limiter' };
          },
        )
