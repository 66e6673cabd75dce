-- ===== src/Detector/Redis/Cooling.antt =====
-- How long a cooldown of detector/redigo/tokenbucket_redis.go lasts.
use mathlib.Core.Path.{ap₂}
use anicetus.Prelude.{
  ℕ, ◌+◌, ◌*◌, ◌/◌, ◌%◌, ◌<◌, ◌≡◌, ◌∙◌, refl, ap, Bool, true, false, ltb, if◌then◌else◌, Option,
  none, some, List, [], ◌∷◌, arith,
}
use anicetus.Prelude.Int.{ℤ, pos}
use anicetus.Errors.{Result, ok}
use anicetus.Message.{Text}
use anicetus.Rate.Float.{Float64, IsFloat, of_ℕ, seconds}
use anicetus.Detector.Redis.Documented.{micros}
use anicetus.Detector.Redis.Connection.{Commands, Redigo, integer}
use anicetus.Detector.Redis.Client.{
  TokenBucketRedis, redis_cool_down, redis_is_cool_down, add_key_prefix, cooldown,
}

-- What is seen of the strings on a server: when the string at a key expires, in microseconds.
pub record Strings (W : Type 0) : Type 0 where
  pub clock : W → ℕ
  pub kept_until : W → Text → Option ℕ
  pub later : ℕ → W → W

abbrev pub is_kept : ℕ → Option ℕ → Bool
is_kept now none = false
is_kept now (some e) = ltb now e

abbrev pub presence : Bool → ℤ
presence b = pos (if b then 1 else 0)

-- What Redis documents of `SET` with `EX` and of `EXISTS`, and redigo of an integer reply, where
-- nothing fails. redigo writes a `float64` as short as it can, and from 1_000_000 on with an
-- exponent; Redis takes only an integer that is positive. So `SET` is known to keep a key for whole
-- seconds below that.
pub record KeepsStrings {W R : Type 0} ⦃fl : Float64 R⦄ (redis : Commands W R) (redigo : Redigo W)
    (strings : Strings W) : Type 0 where
  pub connects : (w : W) → redigo.get_context w ≡ (ok tt, w)
  pub set_clock :
      (key : Text) (value : ℕ) (s : R) (w : W)
      → strings.clock (redis.set_ex key value s w).1 ≡ strings.clock w
  pub set_keeps :
      (key : Text) (value s : ℕ) (w : W)
      → 0 < s
      → s < 1_000_000
      → strings.kept_until (redis.set_ex key value (of_ℕ s) w).1 key
        ≡ some (strings.clock w + micros s)
  pub exists_reads :
      (key : Text) (w : W)
      → redis.exists key w
        ≡ (integer (presence (is_kept (strings.clock w) (strings.kept_until w key))), w)
  pub int_integer : (n : ℤ) → redigo.to_int (integer n) ≡ ok n
  pub later_clock : (d : ℕ) (w : W) → strings.clock (strings.later d w) ≡ strings.clock w + d
  pub later_keeps :
      (d : ℕ) (w : W) (key : Text)
      → strings.kept_until (strings.later d w) key ≡ strings.kept_until w key

-- A whole number of seconds is exact.
seconds_of_whole :
    {R : Type 0} ⦃fl : Float64 R⦄ (laws : IsFloat R) (n : ℕ)
    → ◌≡◌ {A = R} (seconds (pos (n * 1_000_000_000))) (of_ℕ n)
unfolding seconds
seconds_of_whole {R} ⦃fl = fl⦄ laws n =
    let whole : n * 1_000_000_000 / 1_000_000_000 ≡ n = omega arith in
    let rest : n * 1_000_000_000 % 1_000_000_000 ≡ 0 = omega arith in
    ap₂ fl.add (ap {B = R} of_ℕ whole) (
      ap (λ r. fl.div (of_ℕ r) (of_ℕ 1_000_000_000)) rest
      ∙ laws.zero_div 1_000_000_000 (omega arith) (omega arith))
    ∙ laws.add_zero n

module _ {W R : Type 0} ⦃fl : Float64 R⦄ (redis : Commands W R) (redigo : Redigo W) (ceil : R → ℤ)
    (t : TokenBucketRedis) (strings : Strings W) (f : Text) where
  -- The answers of `IsCoolDown`, each call after a delay.
  unfoldable pub polls : List ℕ → W → List (Result Bool)
  polls [] w = []
  polls (d ∷ ds) w =
      let (cooled, w') = redis_is_cool_down redis redigo ceil t f (strings.later d w) in
      cooled ∷ polls ds w'

  -- Whether each of the calls comes before the deadline.
  unfoldable pub before : (deadline now : ℕ) → List ℕ → List (Result Bool)
  before deadline now [] = []
  before deadline now (d ∷ ds) = ok (ltb (now + d) deadline) ∷ before deadline (now + d) ds

  module _ (documented : KeepsStrings redis redigo strings) where
    poll_reads :
        (w : W)
        → redis_is_cool_down redis redigo ceil t f w
          ≡ (ok (is_kept (strings.clock w) (strings.kept_until w (add_key_prefix f cooldown))), w)
    unfolding redis_is_cool_down
    poll_reads w = ground (
      arith,
      documented.connects w,
      documented.exists_reads (add_key_prefix f cooldown) w,
      documented.int_integer (presence true),
      documented.int_integer (presence false),
    )

    polls-before :
        (ds : List ℕ) (deadline now : ℕ) (w : W)
        → strings.clock w ≡ now
        → strings.kept_until w (add_key_prefix f cooldown) ≡ some deadline
        → polls ds w ≡ before deadline now ds
    unfolding polls before
    polls-before [] deadline now w e k = refl
    polls-before (d ∷ ds) deadline now w e k =
        let w1 = strings.later d w in
        let reads = poll_reads w1 in
        let key = add_key_prefix f cooldown in
        let later : strings.clock w1 ≡ now + d = omega (arith, documented.later_clock d w, e) in
        ap₂ ◌∷◌
          (ap (λ r. r.0) reads
            ∙ ap₂ (λ c k. ok (is_kept c k)) later (documented.later_keeps d w key ∙ k))
          (ap (λ r. polls ds r.1) reads
            ∙ polls-before ds deadline (now + d) w1 later (documented.later_keeps d w key ∙ k))

    cooled_state :
        (w : W)
        → (redis_cool_down redis redigo ceil t f w).1
          ≡ (redis.set_ex (add_key_prefix f cooldown) 1 (seconds t.cool_down_interval) w).1
    unfolding redis_cool_down
    cooled_state w = ground (arith, documented.connects w)

    -- After `CoolDown` with an interval of a whole number of seconds, at least one and below
    -- 1_000_000, whatever it returns, the fingerprint is in cooldown for these seconds and not
    -- longer, however often `IsCoolDown` is called in between.
    pub redis_cooldown_lasts :
        (laws : IsFloat R) (n : ℕ) (w : W) (ds : List ℕ)
        → t.cool_down_interval ≡ pos (n * 1_000_000_000)
        → 0 < n
        → n < 1_000_000
        → polls ds (redis_cool_down redis redigo ceil t f w).1
          ≡ before (strings.clock w + micros n) (strings.clock w) ds
    redis_cooldown_lasts laws n w ds e some_seconds few =
        let key = add_key_prefix f cooldown in
        ap (polls ds) (
          cooled_state w
          ∙ ap (λ s. (redis.set_ex key 1 s w).1) (ap seconds e ∙ seconds_of_whole laws n))
        ∙ polls-before ds _ _ (redis.set_ex key 1 (of_ℕ n) w).1
            (documented.set_clock key 1 (of_ℕ n) w)
            (documented.set_keeps key 1 n w some_seconds few)
