-- ===== src/Detector/Redis/Asking.antt =====
-- One request to the detector of detector/redigo/tokenbucket_redis.go, on a server that does not
-- fail.
use anicetus.Prelude.{ℕ, ◌≤◌, ◌<◌, ◌≡◌, true, false, Bool, some, List, [], ◌∷◌, arith, ◌+◌, not}
use anicetus.Prelude.Int.{ℤ, pos}
use anicetus.Errors.{ok, Result}
use anicetus.Message.{Text}
use anicetus.Rate.Float.{Float64, IsFloat, of_ℕ, seconds, exact_below}
use anicetus.Detector.Redis.Connection.{Commands, Redigo, integer}
use anicetus.Detector.Redis.Client.{
  TokenBucketRedis, thundering_herd, add_key_prefix, redis_is_thundering_herd,
}
use anicetus.Detector.Redis.Documented.{Server, IsServer, IsClient, fields, visible, expiry, micros}
use anicetus.Detector.Redis.Buckets.{
  now_at, refilled, script, tokens_at, script_allows, script_denies,
}

-- What the script uses of its numbers beyond IsFloat: the order of the exact integers, and that a
-- time of the clock is finite.
pub record IsLuaNumber (R : Type 0) ⦃fl : Float64 R⦄ : Type 0 where
  pub lt_of_ℕ : (m n : ℕ) → m < n → n < exact_below → fl.lt (of_ℕ m) (of_ℕ n) ≡ true
  pub not-le_of_ℕ : (m n : ℕ) → m < n → n < exact_below → fl.le (of_ℕ n) (of_ℕ m) ≡ false
  pub sub_now : (clock : ℕ) → clock < exact_below → fl.sub (now_at clock) (now_at clock) ≡ of_ℕ 0

module _ {R : Type 0} ⦃fl : Float64 R⦄ (laws : IsFloat R) (numbers : IsLuaNumber R) where
  open laws use {zero_mul, add_zero, not-lt_of_le, le_of_ℕ}
  open numbers use {lt_of_ℕ, not-le_of_ℕ, sub_now}

  -- Nothing is refilled in no time.
  pub refilled_now :
      (b k clock : ℕ) (rate : R)
      → k ≤ b
      → b < exact_below
      → clock < exact_below
      → fl.le rate (of_ℕ 0) ≡ false
      → fl.le rate fl.max_float ≡ true
      → refilled (of_ℕ b) rate (now_at clock) (some (of_ℕ k), some (now_at clock)) ≡ of_ℕ k
  refilled_now b k clock rate fits small early positive finite =
      ground (arith, sub_now clock early, zero_mul rate positive finite, add_zero k, lt_of_ℕ k b)

module _ {R : Type 0} ⦃fl : Float64 R⦄ (t : TokenBucketRedis) where
  -- The tokens that come back in a second.
  abbrev pub rate : R
  rate = fl.div (of_ℕ 1) (seconds t.limiters_interval)

  -- A burst of `b` tokens that fills in at most `ttl` seconds.
  pub record IsSetUp (ceil : R → ℤ) (b ttl : ℕ) : Type 0 where
    pub burst : t.limiters_burst ≡ pos b
    pub some_burst : 0 < b
    pub small : b < exact_below
    pub positive : fl.le rate (of_ℕ 0) ≡ false
    pub finite : fl.le rate fl.max_float ≡ true
    pub period : ceil (fl.div (of_ℕ b) rate) ≡ pos ttl
    pub lasts : 0 < ttl

abbrev pub key : Text → Text
key f = add_key_prefix f thundering_herd

module _ {W R : Type 0} ⦃fl : Float64 R⦄ (redis : Commands W R) (redigo : Redigo W) (ceil : R → ℤ)
    (server : Server W R) (t : TokenBucketRedis) (f : Text) where
  abbrev pub ask : W → Result Bool × W
  ask = redis_is_thundering_herd redis redigo ceil t f

  -- The answers to requests with the fingerprint, each after a delay in microseconds.
  unfoldable pub answers : List ℕ → W → List (Result Bool)
  answers [] w = []
  answers (d ∷ ds) w = let (herd, w') = ask (server.later d w) in herd ∷ answers ds w'

  module _ (laws : IsFloat R) (numbers : IsLuaNumber R) (documented : IsServer redis server)
      (client : IsClient redigo) (b ttl : ℕ) (set_up : IsSetUp t ceil b ttl) where
    abbrev run : W → Result ℤ × W
    run = script redis server documented ceil (key f) (of_ℕ b) (rate t)

    abbrev pub tokens : W → R
    tokens = tokens_at redis server documented ceil (key f) (of_ℕ b) (rate t)

    asked :
        (w : W) (n : ℤ) (allow : Bool)
        → (run w).0 ≡ ok n
        → redigo.to_bool (integer n) ≡ ok allow
        → ask w ≡ (ok (not allow), (run w).1)
    unfolding redis_is_thundering_herd
    asked w n allow e q =
        ground (arith, set_up.burst, client.connects w, client.replies (ok n) (run w).1)

    pub tokens_after :
        (k : ℕ) (w w' : W)
        → k ≤ b
        → server.clock w < exact_below
        → server.clock w' ≡ server.clock w
        → fields (visible server w' (key f)) ≡ (some (of_ℕ k), some (now_at (server.clock w)))
        → tokens w' ≡ of_ℕ k
    tokens_after k w w' fits early same v = ground (
      arith,
      refilled_now laws numbers b k (server.clock w) (rate t) fits set_up.small early
          set_up.positive set_up.finite,
    )

    pub ask_allows :
        (w : W)
        → fl.le (of_ℕ 1) (tokens w) ≡ true
        → ((ask w).0 ≡ ok false)
          × (server.clock (ask w).1 ≡ server.clock w)
          × (server.bucket (ask w).1 (key f)
              ≡ some (record {
                tokens = fl.sub (tokens w) (of_ℕ 1);
                last_refreshed = now_at (server.clock w);
                expires = some (server.clock w + micros ttl);
              }))
    ask_allows w h =
        let (answer, same, bucket) =
          script_allows redis server documented ceil (key f) (of_ℕ b) (rate t) w ttl set_up.period
            h in
        ground (arith, asked w (pos 1) true answer client.bool_one)

    pub ask_denies :
        (w : W)
        → fl.le (of_ℕ 1) (tokens w) ≡ false
        → ((ask w).0 ≡ ok true)
          × (server.clock (ask w).1 ≡ server.clock w)
          × (server.bucket (ask w).1 (key f)
              ≡ some (record {
                tokens = of_ℕ 0;
                last_refreshed = now_at (server.clock w);
                expires = expiry (visible server w (key f));
              }))
    ask_denies w h =
        let (answer, same, bucket) =
          script_denies redis server documented ceil (key f) (of_ℕ b) (rate t) w h in
        ground (arith, asked w (pos 0) false answer client.bool_zero)
