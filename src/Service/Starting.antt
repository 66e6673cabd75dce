-- ===== src/Service/Starting.antt =====
-- The service that `NewResources` of internal/http/resources.go builds from a configuration.
use anicetus.Rate.Penalty.{IsShort}
use anicetus.Status.{open_gates, process, wait}
use anicetus.Service.Herd.{statuses, herd_has_one_leader}
use anicetus.Rate.Limiter.{every}
use mathlib.Core.Path.{subst⁻¹}
use anicetus.Rate.Float.{Float64, IsFloat}
use anicetus.Prelude.{
  ◌∷◌, ◌++◌, replicate, suc, ◌+◌, ℕ, ◌*◌, ◌^◌, ◌≤◌, ◌<◌, ◌≡◌, ◌∙◌, ◌⊎◌, refl, ap, Option, none,
  some, arith, no_entries, true, false, [], ◌+◌, suc, replicate, ◌++◌, ◌∷◌,
}
use anicetus.Prelude.Int.{ℤ, pos, ◌≤ℤ◌}
use anicetus.Detector.Options.{
  minute, TokenBucketOptions, new_options, apply, with_limiters_burst, with_limiters_interval,
  with_cool_down_interval, new_token_bucket_options,
}
use anicetus.Anicetus.{new_anicetus}
use anicetus.Storage.{new_in_memory}
use anicetus.Detector.InMemory.{TokenBucketInMemory, from_options, new_token_bucket_in_memory}
use anicetus.Detector.Periods.{from_options_panics, from_options_fits}
use anicetus.Detector.Timed.{Clock}
use anicetus.Envs.{Settings}
use anicetus.Service.Resources.{Resources, new_resources}

-- The options of the detector that `NewResources` makes.
abbrev configured : {L U : Type 0} → Settings L ℤ U → TokenBucketOptions L
configured config = record {
  options = new_options;
  cool_down_interval = config.cool_down;
  limiters_burst = config.requests_per_minute;
  limiters_interval = pos minute;
}

module _ {F R L : Type 0} where
  -- A service as it starts, of burst `n`.
  pub record IsNew (n : ℕ) (clock : Clock) (r : Resources F R L) : Type 0 where
    pub still : r.anicetus.detector.clock ≡ clock
    pub uncooled : r.anicetus.detector.buckets.cooldowns.items ≡ no_entries
    pub unlimited : r.anicetus.detector.buckets.limiters.items ≡ no_entries
    pub burst : r.anicetus.detector.buckets.limiters_burst ≡ pos n
    pub interval : r.anicetus.detector.buckets.limiters_interval ≡ pos minute

  abbrev around :
      {U : Type 0}
      → Clock
      → Settings L ℤ U
      → Option (TokenBucketInMemory F R)
      → Option (Resources F R L)
  around clock config none = none
  around clock config (some detector) = some (record {
    logger = config.logger_level;
    anicetus = record {
      detector = record { buckets = detector; clock = clock };
      storage = record { flags = no_entries };
    };
    backend_client = config.timeout;
  })

  new_resources-around :
      {U : Type 0} (clock : Clock) (config : Settings L ℤ U)
      → new_resources clock config ≡ around clock config (from_options (configured config))
  unfolding new_resources new_token_bucket_in_memory apply with_limiters_burst
      with_limiters_interval with_cool_down_interval new_token_bucket_options new_anicetus
      new_in_memory
  new_resources-around clock config =
      elim (from_options {F = F} {R = R} (configured config))
        as (λ o.
          elim o [
            | none ↦ none
            | some detector ↦ some (record {
              logger = config.logger_level;
              anicetus = record {
                detector = record { buckets = detector; clock = clock };
                storage = record { flags = no_entries };
              };
              backend_client = config.timeout;
            })
          ]
          ≡ around clock config o) [ none ↦ refl | some detector ↦ refl ]

  new_resources-IsNew :
      {U : Type 0} (clock : Clock) (config : Settings L ℤ U) (n c : ℕ)
      → config.requests_per_minute ≡ pos n
      → config.cool_down ≡ pos c
      → 0 < n
      → minute * n < 2 ^ 63
      → 0 < c
      → (r : Resources F R L) × (new_resources clock config ≡ some r) × IsNew n clock r
  new_resources-IsNew clock config n c p q hn fits hc =
      let (t, e, uncooled, unlimited, _, _, burst, interval) =
        from_options_fits {F = F} {R = R} (configured config) c minute n q refl p hc
          (omega (arith, hn)) fits in
      (
        record {
          logger = config.logger_level;
          anicetus = record {
            detector = record { buckets = t; clock = clock };
            storage = record { flags = no_entries };
          };
          backend_client = config.timeout;
        },
        new_resources-around clock config ∙ ap (around clock config) e,
        record {
          still = refl;
          uncooled = uncooled;
          unlimited = unlimited;
          burst = burst;
          interval = interval;
        },
      )

  -- The server does not start where the cooldown or the number of requests is not positive, or
  -- where the time in which a bucket fills overflows into the sign: `NewResources` panics.
  pub new_resources_panics :
      {U : Type 0} (clock : Clock) (config : Settings L ℤ U) (n : ℕ)
      → config.requests_per_minute ≡ pos n
      → (config.cool_down ≤ℤ pos 0) ⊎ (n ≡ 0) ⊎ (2 ^ 63 ≤ minute * n) × (minute * n < 2 ^ 64)
      → new_resources {F = F} {R = R} clock config ≡ none
  new_resources_panics clock config n p h =
      new_resources-around clock config
      ∙ ap (around clock config) (
          from_options_panics {F = F} {R = R} (configured config) minute n refl p
            (ground (arith, h)))

-- A server that is configured with a positive cooldown and `n` requests per minute, where `n` is
-- positive and `n` minutes are less than 2 ^ 63 nanoseconds, starts. Of `n + 1 + k` calls of
-- `Evaluate` with one fingerprint, made one after another while the clock stands still, the first
-- `n` open the gates, the next one is answered process and the other `k` wait, if the rate of one
-- in a minute is finite and an empty bucket that no time has passed for lacks a token, the wait for
-- it being between a nanosecond and 2 ^ 63.
pub starts_with_one_leader :
    {Q F R L U : Type 0} (dec : Discrete F) ⦃fl : Float64 R⦄ (print : Q → F) (laws : IsFloat R)
    (config : Settings L ℤ U) (n c k now : ℕ) (q : Q)
    → config.requests_per_minute ≡ pos n
    → config.cool_down ≡ pos c
    → 0 < n
    → minute * n < 2 ^ 63
    → 0 < c
    → let rate : R = every (pos minute) in
      fl.le rate fl.max_float ≡ true
      → fl.eq rate fl.max_float ≡ false
      → IsShort rate 0
      → (r : Resources F R L) × (new_resources (record { now = now; delays = [] }) config ≡ some r)
        × (statuses dec print (n + suc k) q r.anicetus
            ≡ replicate n open_gates ++ process ∷ replicate k wait)
starts_with_one_leader dec ⦃fl = fl⦄ print laws config n c k now q p e hn fits hc finite limited
      short =
    let (r, built, v) =
      new_resources-IsNew (record { now = now; delays = [] }) config n c p e hn fits hc in
    (
      r,
      built,
      herd_has_one_leader dec print laws q n k now r.anicetus v.still
          (ap (λ items. items (print q)) v.uncooled) (ap (λ items. items (print q)) v.unlimited)
          v.burst hn (omega (arith, fits))
          (ap (λ i. fl.le (every i) fl.max_float) v.interval ∙ finite)
          (ap (λ i. fl.eq (every i) fl.max_float) v.interval ∙ limited)
          (subst⁻¹ (λ i. IsShort ⦃fl = fl⦄ (every i) 0) v.interval short),
    )
