-- ===== src/Detector/Redis/Sample.antt =====
-- A Redis server in memory that meets what Documented says of one, with a detector of burst 2.
use anicetus.Errors.{Error, plain, Result, ok, err}
use anicetus.Prelude.{
  ◌*◌, ap, ◌∙◌, ◌⊎◌, inl, inr, ◌≡◌, ◌<◌, ltb, ◌==◌, ◌&&◌, ◌/◌, ℕ, zero, ◌+◌, ◌%◌, refl, Bool, true,
  false, Option, none, some, Table, write, if_pos, arith,
}
use anicetus.Rate.Float.{of_ℕ, seconds}
use anicetus.Detector.Redis.Cooling.{Strings, KeepsStrings, is_kept, presence}
use anicetus.Prelude.Int.{ℤ, pos, negsuc}
use anicetus.Message.{Text, text_discrete}
use anicetus.Rate.Fixed.{fixed}
use anicetus.Detector.Redis.Connection.{Commands, Redigo, Reply, integer, status, failure, reply_of}
use anicetus.Detector.Redis.Client.{TokenBucketRedis}
use anicetus.Detector.Redis.Documented.{
  Bucket, Server, IsServer, IsClient, live, fields, expiry, micros,
}
use anicetus.Detector.Redis.Asking.{IsSetUp, IsLuaNumber, key}

pub fixed-IsLuaNumber : IsLuaNumber ℤ
fixed-IsLuaNumber = record {
  lt_of_ℕ = λ m n h k. ground arith;
  not-le_of_ℕ = λ m n h k. ground arith;
  sub_now = λ clock h. ground arith;
}

pub record World : Type 0 where
  pub clock : ℕ
  pub buckets : Table Text (Bucket ℤ)
  pub cooldowns : Table Text ℕ

abbrev seen : World → Text → Option (Bucket ℤ)
seen w key = live w.clock (w.buckets key)

abbrev pub put : Text → Bucket ℤ → World → World
put key b w = record w { buckets = write text_discrete w.buckets key b }

abbrev pub deadline_of : ℤ → World → ℕ
deadline_of (pos seconds) w = w.clock + micros seconds
deadline_of (negsuc seconds) w = 0

abbrev pub expire_at : Text → ℤ → Option (Bucket ℤ) → World → World
expire_at key seconds none w = w
expire_at key seconds (some b) w = put key (record b { expires = some (deadline_of seconds w) }) w

-- `SET` with `EX` takes whole seconds that are positive and come without an exponent.
abbrev takes : ℕ → Bool
takes n = n % 1_000_000_000 == 0 && ltb 0 n && ltb n 1_000_000_000_000_000

abbrev refusal : Reply
refusal = failure (plain "ERR value is not an integer or out of range")

abbrev set_if : Bool → Text → ℕ → World → Reply × World
set_if false key n w = (refusal, w)
set_if true key n w =
    (status "OK", record w { cooldowns = write text_discrete w.cooldowns key (w.clock + n / 1000) })

abbrev pub set_for : Text → ℤ → World → Reply × World
set_for key (pos n) w = set_if (takes n) key n w
set_for key (negsuc n) w = (refusal, w)

abbrev pub commands : Commands World ℤ
commands = record {
  time = λ w. (ok (w.clock / 1_000_000, w.clock % 1_000_000), w);
  hmget = λ key w. (ok (fields (seen w key)), w);
  hmset = λ key tokens last w. (
    ok true,
    put key (record { tokens = tokens; last_refreshed = last; expires = expiry (seen w key) }) w,
  );
  expire = λ key seconds w. (ok tt, expire_at key seconds (seen w key) w);
  set_ex = λ key value lifetime w. set_for key lifetime w;
  exists = λ key w. (integer (presence (is_kept w.clock (w.cooldowns key))), w);
}

abbrev pub to_int : Reply → Result ℤ
to_int (integer n) = ok n
to_int (failure e) = err e
to_int _ = err (plain "redigo: unexpected type for Int")

abbrev pub to_bool : Reply → Result Bool
to_bool (integer (pos zero)) = ok false
to_bool (integer n) = ok true
to_bool (failure e) = err e
to_bool _ = err (plain "redigo: unexpected type for Bool")

abbrev pub redis_strings : Strings World
redis_strings = record {
  clock = λ w. w.clock;
  kept_until = λ w. w.cooldowns;
  later = λ d w. record w { clock = w.clock + d };
}

abbrev pub client_library : Redigo World
client_library = record {
  get_context = λ w. (ok tt, w);
  do_script = λ out. (reply_of out.0, out.1);
  to_int = to_int;
  to_bool = to_bool;
}

abbrev pub redis_server : Server World ℤ
redis_server = record {
  clock = λ w. w.clock;
  bucket = λ w. w.buckets;
  later = λ d w. record w { clock = w.clock + d };
}

pub commands-IsServer : IsServer commands redis_server
commands-IsServer = record {
  time_reads = λ w. refl;
  hmget_reads = λ key w. refl;
  hmset_done = λ key tokens last w. refl;
  hmset_clock = λ key tokens last w. refl;
  hmset_writes = λ key tokens last w. if_pos (text_discrete key key) refl _ _;
  expire_done = λ key seconds w. refl;
  expire_clock = λ key seconds w. ground arith;
  expire_sets = λ key seconds w b e. ground arith;
  later_clock = λ d w. refl;
  later_bucket = λ d w key. refl;
}

pub client_library-IsClient : IsClient client_library
client_library-IsClient = record {
  connects = λ w. refl;
  replies = λ r w. refl;
  bool_one = refl;
  bool_zero = refl;
}

-- A burst of 2 and a token each second.
abbrev pub two_a_second : TokenBucketRedis
two_a_second = record {
  cool_down_interval = pos 60_000_000_000;
  limiters_burst = pos 2;
  limiters_interval = pos 1_000_000_000;
}

abbrev pub rounded_up : ℤ → ℤ
rounded_up (pos n) = pos ((n + 999_999_999) / 1_000_000_000)
rounded_up (negsuc n) = pos 0

pub two-IsSetUp : IsSetUp two_a_second rounded_up 2 2
unfolding seconds
two-IsSetUp = record {
  burst = refl;
  some_burst = omega arith;
  small = omega arith;
  positive = refl;
  finite = refl;
  period = refl;
  lasts = omega arith;
}

set_if_clock : (b : Bool) (k : Text) (n : ℕ) (w : World) → (set_if b k n w).1.clock ≡ w.clock
set_if_clock true k n w = refl
set_if_clock false k n w = refl

set_for_clock : (k : Text) (s : ℤ) (w : World) → (set_for k s w).1.clock ≡ w.clock
set_for_clock k (pos n) w = set_if_clock (takes n) k n w
set_for_clock k (negsuc n) w = refl

whole_seconds : (s : ℕ) → of_ℕ s ≡ pos (s * 1_000_000_000)
whole_seconds s = ground arith

set_for_keeps :
    (k : Text) (s : ℕ) (w : World)
    → 0 < s
    → s < 1_000_000
    → (set_for k (of_ℕ s) w).1.cooldowns k ≡ some (w.clock + micros s)
set_for_keeps k s w p q =
    let taken : takes (s * 1_000_000_000) ≡ true = ground (arith, p, q) in
    let time : s * 1_000_000_000 / 1000 ≡ micros s = omega arith in
    ap (λ z. (set_for k z w).1.cooldowns k) (whole_seconds s)
    ∙ ap (λ b. (set_if b k (s * 1_000_000_000) w).1.cooldowns k) taken
    ∙ if_pos (text_discrete k k) refl _ _
    ∙ ap (λ d. some (w.clock + d)) time

set_if_replies :
    (b : Bool) (k : Text) (n : ℕ) (w : World)
    → ((set_if b k n w).0 ≡ status "OK") ⊎ ((e : Error) × ((set_if b k n w).0 ≡ failure e))
set_if_replies true k n w = inl refl
set_if_replies false k n w = inr (_, refl)

pub set_for_replies :
    (k : Text) (s : ℤ) (w : World)
    → ((set_for k s w).0 ≡ status "OK") ⊎ ((e : Error) × ((set_for k s w).0 ≡ failure e))
set_for_replies k (pos n) w = set_if_replies (takes n) k n w
set_for_replies k (negsuc n) w = inr (_, refl)

pub commands-KeepsStrings : KeepsStrings commands client_library redis_strings
commands-KeepsStrings = record {
  connects = λ w. refl;
  set_clock = λ key value s w. set_for_clock key s w;
  set_keeps = λ key value s w p q. set_for_keeps key s w p q;
  exists_reads = λ key w. refl;
  int_integer = λ n. refl;
  later_clock = λ d w. refl;
  later_keeps = λ d w key. refl;
}
