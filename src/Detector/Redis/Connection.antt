-- ===== src/Detector/Redis/Connection.antt =====
-- What detector/redigo/tokenbucket_redis.go uses of Redis and of its client library redigo: the
-- commands that the script and the detector call, and the conversions of a reply. Closing a
-- connection, whose error is only logged, is left out.
use anicetus.Prelude.{ℕ, Bool, Option}
use anicetus.Prelude.Int.{ℤ}
use anicetus.Errors.{Error, Result, ok, err}
use anicetus.Message.{Text}
use Prim.Native.String.{String}

-- What `Do` returns, its error included.
pub data Reply : Type 0 where
  integer : ℤ → Reply
  status : String → Reply
  bulk : Text → Reply
  nil : Reply
  failure : Error → Reply

-- `R` stands for the numbers of Lua. A call of a script that fails ends the script with the error.
pub record Commands (W R : Type 0) : Type 0 where
  -- `TIME`: seconds and microseconds
  pub time : W → Result (ℕ × ℕ) × W
  -- `HMGET key tokens last_refreshed`, as numbers
  pub hmget : Text → W → Result (Option R × Option R) × W
  -- `HMSET key tokens … last_refreshed …`, and whether its result counts as true
  pub hmset : Text → R → R → W → Result Bool × W
  -- `EXPIRE key seconds`
  pub expire : Text → ℤ → W → Result (Unit {0}) × W
  -- `SET key value EX seconds` and `EXISTS key`
  pub set_ex : Text → ℕ → R → W → Reply × W
  pub exists : Text → W → Reply × W

pub record Redigo (W : Type 0) : Type 0 where
  -- `pool.GetContext`
  pub get_context : W → Result (Unit {0}) × W
  -- What `DoContext` of the script returns, for what the script returns on the server.
  pub do_script : Result ℤ × W → Reply × W
  -- `redis.Int` and `redis.Bool`
  pub to_int : Reply → Result ℤ
  pub to_bool : Reply → Result Bool

-- The reply to a script that returns a number or fails.
abbrev pub reply_of : Result ℤ → Reply
reply_of (ok n) = integer n
reply_of (err e) = failure e
