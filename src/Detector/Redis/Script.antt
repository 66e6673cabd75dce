-- ===== src/Detector/Redis/Script.antt =====
-- The Lua script of detector/redigo/tokenbucket_redis.go.
use anicetus.Prelude.{ℕ, if◌then◌else◌, Option, none, some}
use anicetus.Prelude.Int.{ℤ, pos}
use anicetus.Errors.{Error, Result, ok, err, check}
use anicetus.Message.{Text}
use anicetus.Rate.Float.{Float64, of_ℕ}
use anicetus.Detector.Redis.Connection.{Commands}

abbrev pub raise : {A W : Type 0} → Error → W → Result A × W
raise e w = (err e, w)

-- `x or default`
abbrev pub or_else : {A : Type 0} → Option A → A → A
or_else none default = default
or_else (some a) default = a

module _ {R : Type 0} ⦃fl : Float64 R⦄ where
  -- `math.min(x, y)`
  abbrev pub min : R → R → R
  min x y = if fl.lt y x then y else x

  -- `tonumber(current_time[1]) + tonumber(current_time[2]) / 1000000`
  abbrev pub now_of : ℕ × ℕ → R
  now_of (seconds, micros) = fl.add (of_ℕ seconds) (fl.div (of_ℕ micros) (of_ℕ 1_000_000))

  -- `ceil` is `math.ceil`.
  unfoldable pub token_bucket_script :
      {W : Type 0} → Commands W R → (ceil : R → ℤ) → Text → R → R → W → Result ℤ × W
  token_bucket_script redis ceil key max_tokens refill_rate w =
      check (redis.time w) raise λ current_time w1.
        let now = now_of current_time in
        check (redis.hmget key w1) raise λ bucket w2.
          let tokens = or_else bucket.0 max_tokens in
          let last_refreshed = or_else bucket.1 now in
          let elapsed_time = fl.sub now last_refreshed in
          let new_tokens = min max_tokens (fl.add tokens (fl.mul elapsed_time refill_rate)) in
          if fl.le (of_ℕ 1) new_tokens
          then (check (redis.hmset key (fl.sub new_tokens (of_ℕ 1)) now w2) raise λ _ w3.
              check (redis.expire key (ceil (fl.div max_tokens refill_rate)) w3) raise
                λ _ w4. (ok (pos 1), w4))
          else (check (redis.hmset key (of_ℕ 0) now w2) raise
              λ hmset_result w3. (ok (if hmset_result then pos 0 else pos 1), w3))
