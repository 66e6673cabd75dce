-- ===== src/Detector/Tests.antt =====
-- The token bucket in memory at concrete requests, over the decimal arithmetic.
use anicetus.Rate.Burst.{allows}
use anicetus.Mapexp.Calls.{IsValid}
use anicetus.Prelude.{
  ℕ, ◌≡◌, refl, true, List, [], ◌∷◌, arith, ℕ_discrete, no_entries, none, map, not,
}
use anicetus.Prelude.Int.{ℤ, pos}
use anicetus.Rate.Fixed.{fixed}
use anicetus.Rate.Limiter.{every, new_limiter}
use anicetus.Detector.Options.{TokenBucketOptions}
use anicetus.Detector.InMemory.{TokenBucketInMemory, cool_down, is_cool_down}
use anicetus.Detector.Cooldowns.{polls, ticks_cooldowns, run, cooldown_lasts}
use anicetus.Detector.Herds.{Check, answers_for, answers_own_limiter, times_for}

abbrev options : TokenBucketOptions (Unit {0})
options = record {
  options = record { logger = none };
  cool_down_interval = pos 10;
  limiters_burst = pos 2;
  limiters_interval = pos 1_000_000_000;
}

-- The detector of these options.
abbrev buckets : TokenBucketInMemory ℕ ℤ
buckets = record {
  cooldowns = record { items = no_entries; expiration_queue = record { items = []; ttl = 10 } };
  limiters = record {
    items = no_entries;
    expiration_queue = record { items = []; ttl = 2_000_000_000 };
  };
  limiters_burst = pos 2;
  limiters_interval = pos 1_000_000_000;
}

abbrev check : ℕ → Check ℕ
check f = record { get_at = 5; set_at = 5; allow_at = 5; fingerprint = f }

abbrev checked_requests : List (Check ℕ)
checked_requests = check 1 ∷ check 7 ∷ check 1 ∷ check 1 ∷ check 7 ∷ check 1 ∷ []

buckets-IsValid : IsValid ℕ_discrete buckets.cooldowns
buckets-IsValid = record { distinct = tt; queued = λ key h. refl }

-- Polled at 9 and 18, a cooldown of 10 is not over at 28.
cooldown_lasts_example :
    (is_cool_down ℕ_discrete 28 3 (
      run ℕ_discrete
        (cool_down ℕ_discrete 0 3 buckets)
        (polls 9 3 ∷ ticks_cooldowns 10 ∷ polls 18 3 ∷ ticks_cooldowns 20 ∷ []))).0
    ≡ true
cooldown_lasts_example =
    cooldown_lasts ℕ_discrete 0 28 3 buckets
      (polls 9 3 ∷ ticks_cooldowns 10 ∷ polls 18 3 ∷ ticks_cooldowns 20 ∷ []) buckets-IsValid
      (ground arith)

answers_own_limiter_example :
    answers_for ℕ_discrete 1 checked_requests buckets
    ≡ map not
        (allows {R = ℤ} (5 ∷ 5 ∷ 5 ∷ 5 ∷ []) (new_limiter (every (pos 1_000_000_000)) (pos 2)))
unfolding times_for ℕ_discrete
answers_own_limiter_example = answers_own_limiter ℕ_discrete 1 checked_requests buckets
