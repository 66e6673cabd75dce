-- ===== src/Storage/Options.antt =====
-- storage/options.go, and `NewRedis` of storage/redigo/redis.go. `L` is the type of loggers.
use anicetus.Prelude.{List, Option, none}
use anicetus.Detector.Options.{apply}

pub record Options (L : Type 0) : Type 0 where
  pub logger : Option L

abbrev pub OptionFunction : Type 0 → Type 0
OptionFunction L = Options L → Options L

-- `Redis` but for its pool.
pub record Redis (L : Type 0) : Type 0 where
  pub logger : Option L

module _ {L : Type 0} where
  unfoldable pub new_options : Options L
  new_options = record { logger = none }

  unfoldable pub with_logger : Option L → OptionFunction L
  with_logger logger o = record o { logger = logger }

  unfoldable pub new_redis : List (OptionFunction L) → Redis L
  new_redis options = record { logger = (apply options new_options).logger }
