-- ===== src/Detector/Options.antt =====
-- detector/options.go. Durations are `int64` numbers of nanoseconds. `L` is the type of loggers.
use anicetus.Prelude.{ℕ, ◌*◌, List, [], ◌∷◌, Option, none}
use anicetus.Prelude.Int.{ℤ, pos}

-- `time.Minute`
abbrev pub minute : ℕ
minute = 60_000_000_000

-- The loop `for _, opt := range options { opt(&o) }`.
unfoldable pub apply : {O : Type 0} → List (O → O) → O → O
apply [] o = o
apply (opt ∷ opts) o = apply opts (opt o)

pub record Options (L : Type 0) : Type 0 where
  pub logger : Option L

unfoldable pub new_options : {L : Type 0} → Options L
new_options = record { logger = none }

abbrev pub OptionFunction : Type 0 → Type 0
OptionFunction L = Options L → Options L

unfoldable pub with_logger : {L : Type 0} → Option L → OptionFunction L
with_logger logger o = record o { logger = logger }

pub record TokenBucketOptions (L : Type 0) : Type 0 where
  pub options : Options L
  pub cool_down_interval : ℤ
  pub limiters_burst : ℤ
  pub limiters_interval : ℤ

abbrev pub TokenBucketOption : Type 0 → Type 0
TokenBucketOption L = TokenBucketOptions L → TokenBucketOptions L

module _ {L : Type 0} where
  unfoldable pub new_token_bucket_options : TokenBucketOptions L
  unfolding new_options
  new_token_bucket_options = record {
    options = new_options;
    cool_down_interval = pos (5 * minute);
    limiters_burst = pos 1000;
    limiters_interval = pos (1 * minute);
  }

  unfoldable pub with_basic_option : List (OptionFunction L) → TokenBucketOption L
  with_basic_option opts o = record o { options = apply opts o.options }

  unfoldable pub with_cool_down_interval : ℤ → TokenBucketOption L
  with_cool_down_interval interval o = record o { cool_down_interval = interval }

  unfoldable pub with_limiters_burst : ℤ → TokenBucketOption L
  with_limiters_burst burst o = record o { limiters_burst = burst }

  unfoldable pub with_limiters_interval : ℤ → TokenBucketOption L
  with_limiters_interval interval o = record o { limiters_interval = interval }
