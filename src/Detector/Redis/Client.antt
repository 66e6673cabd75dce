-- ===== src/Detector/Redis/Client.antt =====
-- The detector of detector/redigo/tokenbucket_redis.go.
use anicetus.Prelude.{Bool, true, false, not, if◌then◌else◌, List, ◌++◌, zero, suc}
use anicetus.Prelude.Int.{ℤ, pos}
use anicetus.Errors.{plain, wrap, Result, ok, err, check}
use anicetus.Message.{Text, text}
use anicetus.Rate.Float.{Float64, of_ℕ, seconds}
use anicetus.Anicetus.{Detector}
use anicetus.Detector.Options.{TokenBucketOption, new_token_bucket_options, apply}
use anicetus.Detector.Redis.Connection.{Commands, Redigo}
use anicetus.Detector.Redis.Script.{token_bucket_script}

pub data Mode : Type 0 where
  cooldown thundering_herd : Mode

-- The text of a mode.
abbrev pub mode_text : Mode → Text
mode_text cooldown = text "cooldown"
mode_text thundering_herd = text "th"

-- `fmt.Sprintf("anicetus:%s:%s", m, fingerprint)`
unfoldable pub add_key_prefix : Text → Mode → Text
add_key_prefix fingerprint m = text "anicetus:" ++ (mode_text m ++ (text ":" ++ fingerprint))

-- The fields but for the pool, which is the parameters below, and the logger.
pub record TokenBucketRedis : Type 0 where
  pub cool_down_interval : ℤ
  pub limiters_burst : ℤ
  pub limiters_interval : ℤ

unfoldable pub new_token_bucket_redis : {L : Type 0} → List (TokenBucketOption L) → TokenBucketRedis
new_token_bucket_redis options =
    let o = apply options new_token_bucket_options in
    record {
      cool_down_interval = o.cool_down_interval;
      limiters_burst = o.limiters_burst;
      limiters_interval = o.limiters_interval;
    }

-- `result == 1`
abbrev pub is_one : ℤ → Bool
is_one (pos (suc zero)) = true
is_one _ = false

module _ {W R : Type 0} ⦃fl : Float64 R⦄ (redis : Commands W R) (redigo : Redigo W) (ceil : R → ℤ)
    (t : TokenBucketRedis) where
  -- The rest of a method on a connection of the pool.
  abbrev pub with_connection : {A : Type 0} → (W → Result A × W) → W → Result A × W
  with_connection rest w =
      check (redigo.get_context w) (λ e w. (err (wrap "failed to get redis connection" e), w))
        λ _ w. rest w

  unfoldable pub redis_cool_down : Text → W → Result (Unit {0}) × W
  redis_cool_down fingerprint = with_connection λ w.
      let (reply, w') =
        redis.set_ex (add_key_prefix fingerprint cooldown) 1 (seconds t.cool_down_interval) w in
      check (redigo.to_int reply, w') (λ e w. (err (wrap "failed to set redis key" e), w))
        λ result w. (if is_one result then ok tt else err (plain "failed to set redis key"), w)

  unfoldable pub redis_is_cool_down : Text → W → Result Bool × W
  redis_is_cool_down fingerprint = with_connection λ w.
      let (reply, w') = redis.exists (add_key_prefix fingerprint cooldown) w in
      check (redigo.to_int reply, w') (λ e w. (err (wrap "failed to check redis key" e), w))
        λ result w. (ok (is_one result), w)

  unfoldable pub redis_is_thundering_herd : Text → W → Result Bool × W
  redis_is_thundering_herd fingerprint = with_connection λ w.
      let (reply, w') = redigo.do_script (
        token_bucket_script redis ceil (add_key_prefix fingerprint thundering_herd)
          (fl.of_int t.limiters_burst) (fl.div (of_ℕ 1) (seconds t.limiters_interval)) w) in
      check (redigo.to_bool reply, w')
        (λ e w. (err (wrap "failed to execute redis lua script" e), w))
        λ allow w. (ok (not allow), w)

  abbrev pub redis_detector : Detector Text W
  redis_detector = record {
    cool_down = redis_cool_down;
    is_cool_down = redis_is_cool_down;
    is_thundering_herd = redis_is_thundering_herd;
  }
