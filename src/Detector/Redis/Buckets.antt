-- ===== src/Detector/Redis/Buckets.antt =====
-- What the script of detector/redigo/tokenbucket_redis.go answers and leaves, on a server that does
-- not fail.
use anicetus.Prelude.{ℕ, ◌+◌, ◌/◌, ◌%◌, ◌≡◌, true, false, Option, some, arith}
use anicetus.Prelude.Int.{ℤ, pos}
use anicetus.Errors.{Result, ok}
use anicetus.Message.{Text}
use anicetus.Rate.Float.{Float64, of_ℕ}
use anicetus.Detector.Redis.Connection.{Commands}
use anicetus.Detector.Redis.Script.{token_bucket_script, now_of, or_else, min}
use anicetus.Detector.Redis.Documented.{Server, IsServer, visible, fields, expiry, micros}

module _ {R : Type 0} ⦃fl : Float64 R⦄ where
  abbrev pub now_at : ℕ → R
  now_at clock = now_of (clock / 1_000_000, clock % 1_000_000)

  -- The tokens that the script finds, refilled.
  abbrev pub refilled : R → R → R → Option R × Option R → R
  refilled max_tokens rate now found =
      min max_tokens
        (fl.add (or_else found.0 max_tokens) (fl.mul (fl.sub now (or_else found.1 now)) rate))

  module _ {W : Type 0} (redis : Commands W R) (server : Server W R) (laws : IsServer redis server)
      (ceil : R → ℤ) (key : Text) (max_tokens rate : R) where
    abbrev pub script : W → Result ℤ × W
    script = token_bucket_script redis ceil key max_tokens rate

    abbrev pub tokens_at : W → R
    tokens_at w = refilled max_tokens rate (now_at (server.clock w)) (fields (visible server w key))

    abbrev pub written : R → W → W
    written tokens w = (redis.hmset key tokens (now_at (server.clock w)) w).1

    script_allow :
        (w : W) (ttl : ℕ)
        → ceil (fl.div max_tokens rate) ≡ pos ttl
        → fl.le (of_ℕ 1) (tokens_at w) ≡ true
        → let w' = written (fl.sub (tokens_at w) (of_ℕ 1)) w in
          script w ≡ (ok (pos 1), (redis.expire key (pos ttl) w').1)
    unfolding token_bucket_script
    script_allow w ttl c h =
        let left = fl.sub (tokens_at w) (of_ℕ 1) in
        ground (
          arith,
          laws.time_reads w,
          laws.hmget_reads key w,
          laws.hmset_done key left (now_at (server.clock w)) w,
          laws.expire_done key ttl (written left w),
        )

    pub script_deny :
        (w : W) → fl.le (of_ℕ 1) (tokens_at w) ≡ false → script w ≡ (ok (pos 0), written (of_ℕ 0) w)
    unfolding token_bucket_script
    script_deny w h = ground (
      arith,
      laws.time_reads w,
      laws.hmget_reads key w,
      laws.hmset_done key (of_ℕ 0) (now_at (server.clock w)) w,
    )

    pub written-visible :
        (tokens : R) (w : W)
        → visible server (written tokens w) key
          ≡ some (record {
            tokens = tokens;
            last_refreshed = now_at (server.clock w);
            expires = expiry (visible server w key);
          })
    written-visible tokens w =
        let now = now_at (server.clock w) in
        ground (arith, laws.hmset_clock key tokens now w, laws.hmset_writes key tokens now w)

    pub script_allows :
        (w : W) (ttl : ℕ)
        → ceil (fl.div max_tokens rate) ≡ pos ttl
        → fl.le (of_ℕ 1) (tokens_at w) ≡ true
        → ((script w).0 ≡ ok (pos 1))
          × (server.clock (script w).1 ≡ server.clock w)
          × (server.bucket (script w).1 key
              ≡ some (record {
                tokens = fl.sub (tokens_at w) (of_ℕ 1);
                last_refreshed = now_at (server.clock w);
                expires = some (server.clock w + micros ttl);
              }))
    script_allows w ttl c h =
        let left = fl.sub (tokens_at w) (of_ℕ 1) in
        let now = now_at (server.clock w) in
        let w' = written left w in
        ground (
          arith,
          script_allow w ttl c h,
          laws.expire_clock key ttl w',
          laws.hmset_clock key left now w,
          laws.expire_sets key ttl w' _ (written-visible left w),
        )

    pub script_denies :
        (w : W)
        → fl.le (of_ℕ 1) (tokens_at w) ≡ false
        → ((script w).0 ≡ ok (pos 0))
          × (server.clock (script w).1 ≡ server.clock w)
          × (server.bucket (script w).1 key
              ≡ some (record {
                tokens = of_ℕ 0;
                last_refreshed = now_at (server.clock w);
                expires = expiry (visible server w key);
              }))
    script_denies w h =
        let now = now_at (server.clock w) in
        ground (
          arith,
          script_deny w h,
          laws.hmset_clock key (of_ℕ 0) now w,
          laws.hmset_writes key (of_ℕ 0) now w,
        )
