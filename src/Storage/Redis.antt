-- ===== src/Storage/Redis.antt =====
-- storage/redigo/redis.go. The client library is the record Redigo: getting a connection, a command
-- with its reply, and the conversions of a reply. Closing a connection, whose error is only logged,
-- is left out.
use anicetus.Prelude.{ℕ, Bool, true, false, not, ◌==◌, if◌then◌else◌, Option, none, some, ◌≡◌, ◌≢◌}
use anicetus.Errors.{Error, plain, wrap, Result, ok, err, check}
use anicetus.Gatekeeper.{GatekeeperStorage}
use Prim.Native.String.{String}
use text.Mathlib.Text.{◌==◌ as str_eq}

pub data Command (F : Type 0) : Type 0 where
  exists get del : F → Command F
  set : F → ℕ → Command F

-- `reply` is what `Do` returns, its error included. `to_bool` gives `none` for `redis.ErrNil`.
pub record Redigo (F W Reply : Type 0) : Type 0 where
  pub get_context : W → Result (Unit {0}) × W
  pub run : Command F → W → Reply × W
  pub to_int : Reply → Result ℕ
  pub to_bool : Reply → Result (Option Bool)
  pub to_string : Reply → Result String

abbrev pub bool_to_int : Bool → ℕ
bool_to_int b = if b then 1 else 0

module _ {F W Reply : Type 0} (redis : Redigo F W Reply) where
  -- A command on a connection of the pool.
  abbrev pub on_connection :
      {A B : Type 0}
      → Command F
      → (Reply → Result A)
      → (Error → W → Result B × W)
      → (A → W → Result B × W)
      → W
      → Result B × W
  on_connection command convert failed done w =
      check (redis.get_context w) (λ e w. (err (wrap "failed to get redis connection" e), w))
        λ _ w. let (reply, w') = redis.run command w in check (convert reply, w') failed done

  unfoldable pub redis_exists : F → W → Result Bool × W
  redis_exists fingerprint w =
      on_connection (exists fingerprint) redis.to_int
        (λ e w. (err (wrap "failed to check redis key" e), w)) (λ result w. (ok (result == 1), w)) w

  unfoldable pub redis_processed : F → W → Result Bool × W
  redis_processed fingerprint w =
      on_connection (get fingerprint) redis.to_bool
        (λ e w. (err (wrap "failed to get redis key" e), w))
        (λ result w. (elim result [ none ↦ ok false | some b ↦ ok b ], w)) w

  unfoldable pub redis_store : F → Bool → W → Result (Unit {0}) × W
  redis_store fingerprint processed w =
      on_connection (set fingerprint (bool_to_int processed)) redis.to_string
        (λ e w. (err (wrap "failed to set redis key" e), w))
        (λ result w.
          (if str_eq result "OK" then ok tt else err (plain "failed to set redis key"), w))
        w

  unfoldable pub redis_remove : F → W → Result (Unit {0}) × W
  redis_remove fingerprint w =
      on_connection (del fingerprint) redis.to_int
        (λ e w. (err (wrap "failed to delete redis key" e), w)) (λ _ w. (ok tt, w)) w

  abbrev pub redis_storage : GatekeeperStorage F W
  redis_storage = record {
    exists = redis_exists;
    processed = redis_processed;
    store = redis_store;
    remove = redis_remove;
  }

-- What Redis documents of the commands, over the numbers stored at its keys; a command whose reply
-- is an error may have been done or not.
pub record IsRedis {F W Reply : Type 0} (redis : Redigo F W Reply) (keys : W → F → Option ℕ)
    : Type 0 where
  pub connect_same : (w : W) → keys (redis.get_context w).1 ≡ keys w
  pub exists_same : (f : F) (w : W) → keys (redis.run (exists f) w).1 ≡ keys w
  pub exists_none :
      (f : F) (w : W) (n : ℕ)
      → redis.to_int (redis.run (exists f) w).0 ≡ ok n
      → keys w f ≡ none
      → n ≡ 0
  pub exists_some :
      (f : F) (w : W) (n v : ℕ)
      → redis.to_int (redis.run (exists f) w).0 ≡ ok n
      → keys w f ≡ some v
      → n ≡ 1
  pub get_same : (f : F) (w : W) → keys (redis.run (get f) w).1 ≡ keys w
  pub get_none :
      (f : F) (w : W) (b : Option Bool)
      → redis.to_bool (redis.run (get f) w).0 ≡ ok b
      → keys w f ≡ none
      → b ≡ none
  pub get_some :
      (f : F) (w : W) (b : Option Bool) (v : ℕ)
      → redis.to_bool (redis.run (get f) w).0 ≡ ok b
      → keys w f ≡ some v
      → b ≡ some (not (v == 0))
  pub set_ok :
      (f : F) (v : ℕ) (w : W) (s : String)
      → redis.to_string (redis.run (set f v) w).0 ≡ ok s
      → str_eq s "OK" ≡ true
      → keys (redis.run (set f v) w).1 f ≡ some v
  pub set_frame : (f g : F) (v : ℕ) (w : W) → f ≢ g → keys (redis.run (set f v) w).1 g ≡ keys w g
  pub del_ok :
      (f : F) (w : W) (n : ℕ)
      → redis.to_int (redis.run (del f) w).0 ≡ ok n
      → keys (redis.run (del f) w).1 f ≡ none
  pub del_frame : (f g : F) (w : W) → f ≢ g → keys (redis.run (del f) w).1 g ≡ keys w g
