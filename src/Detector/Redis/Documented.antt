-- ===== src/Detector/Redis/Documented.antt =====
-- What Redis and redigo document of the commands that detector/redigo/tokenbucket_redis.go runs, on
-- a server that is reached and does not fail. Times on the server are numbers of microseconds.
use anicetus.Prelude.{
  ℕ, ◌+◌, ◌*◌, ◌/◌, ◌%◌, ◌≡◌, Bool, true, false, if◌then◌else◌, ltb, Option, none, some, arith, ◌<◌,
}
use anicetus.Prelude.Int.{ℤ, pos}
use anicetus.Errors.{Result, ok}
use anicetus.Message.{Text}
use anicetus.Detector.Redis.Connection.{Commands, Redigo, integer, reply_of}

-- The hash at a key, and when the key expires.
pub record Bucket (R : Type 0) : Type 0 where
  pub tokens : R
  pub last_refreshed : R
  pub expires : Option ℕ

-- What is seen of a server, and the server after a while without commands.
pub record Server (W R : Type 0) : Type 0 where
  pub clock : W → ℕ
  pub bucket : W → Text → Option (Bucket R)
  pub later : ℕ → W → W

abbrev pub micros : ℕ → ℕ
micros seconds = seconds * 1_000_000

abbrev live_until : ℕ → Option ℕ → Bool
live_until now none = true
live_until now (some e) = ltb now e

module _ {R : Type 0} where
  abbrev pub live : ℕ → Option (Bucket R) → Option (Bucket R)
  live now none = none
  live now (some b) = if live_until now b.expires then some b else none

  abbrev pub expiry : Option (Bucket R) → Option ℕ
  expiry none = none
  expiry (some b) = b.expires

  abbrev pub fields : Option (Bucket R) → Option R × Option R
  fields none = (none, none)
  fields (some b) = (some b.tokens, some b.last_refreshed)

  pub live_kept :
      (now : ℕ) (old : Option (Bucket R)) (tokens last : R)
      → let b : Bucket R = record {
        tokens = tokens;
        last_refreshed = last;
        expires = expiry (live now old);
      } in
        live now (some b) ≡ some b
  live_kept now old tokens last = ground arith

  pub live_fresh :
      (now ttl : ℕ) (tokens last : R)
      → 0 < ttl
      → let b : Bucket R = record {
        tokens = tokens;
        last_refreshed = last;
        expires = some (now + micros ttl);
      } in
        live now (some b) ≡ some b
  live_fresh now ttl tokens last h = ground arith

module _ {W R : Type 0} where
  -- The hash at the key that has not expired.
  abbrev pub visible : Server W R → W → Text → Option (Bucket R)
  visible server w key = live (server.clock w) (server.bucket w key)

  pub record IsServer (redis : Commands W R) (server : Server W R) : Type 0 where
    pub time_reads :
        (w : W) → redis.time w ≡ (ok (server.clock w / 1_000_000, server.clock w % 1_000_000), w)
    pub hmget_reads :
        (key : Text) (w : W) → redis.hmget key w ≡ (ok (fields (visible server w key)), w)
    -- A write to a hash keeps when its key expires.
    pub hmset_done :
        (key : Text) (tokens last : R) (w : W) → (redis.hmset key tokens last w).0 ≡ ok true
    pub hmset_clock :
        (key : Text) (tokens last : R) (w : W)
        → server.clock (redis.hmset key tokens last w).1 ≡ server.clock w
    pub hmset_writes :
        (key : Text) (tokens last : R) (w : W)
        → server.bucket (redis.hmset key tokens last w).1 key
          ≡ some (record {
            tokens = tokens;
            last_refreshed = last;
            expires = expiry (visible server w key);
          })
    pub expire_done :
        (key : Text) (seconds : ℕ) (w : W) → (redis.expire key (pos seconds) w).0 ≡ ok tt
    pub expire_clock :
        (key : Text) (seconds : ℕ) (w : W)
        → server.clock (redis.expire key (pos seconds) w).1 ≡ server.clock w
    pub expire_sets :
        (key : Text) (seconds : ℕ) (w : W) (b : Bucket R)
        → visible server w key ≡ some b
        → server.bucket (redis.expire key (pos seconds) w).1 key
          ≡ some (record b { expires = some (server.clock w + micros seconds) })
    pub later_clock : (d : ℕ) (w : W) → server.clock (server.later d w) ≡ server.clock w + d
    pub later_bucket :
        (d : ℕ) (w : W) (key : Text) → server.bucket (server.later d w) key ≡ server.bucket w key

-- A client that gets its connections and the replies.
pub record IsClient {W : Type 0} (redigo : Redigo W) : Type 0 where
  pub connects : (w : W) → redigo.get_context w ≡ (ok tt, w)
  pub replies : (r : Result ℤ) (w : W) → redigo.do_script (r, w) ≡ (reply_of r, w)
  pub bool_one : redigo.to_bool (integer (pos 1)) ≡ ok true
  pub bool_zero : redigo.to_bool (integer (pos 0)) ≡ ok false
