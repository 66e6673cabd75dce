-- ===== src/Detector/Redis/Penalty.antt =====
-- How long the penalty of detector/redigo/tokenbucket_redis.go lasts.
use anicetus.Prelude.{
  ℕ, ◌+◌, ◌≤◌, ◌<◌, ◌≡◌, ◌≢◌, inl, inr, Option-cases, ◌∙◌, ap, Bool, true, false, Bool-cases,
  Option, none, some, List, [], ◌∷◌, ◌++◌, replicate, length, All, arith, inl, inr,
}
use anicetus.Prelude.Int.{ℤ}
use anicetus.Errors.{Result, ok}
use anicetus.Message.{Text}
use anicetus.Rate.Float.{Float64, IsFloat, of_ℕ, exact_below}
use anicetus.Detector.Redis.Connection.{Commands, Redigo}
use anicetus.Detector.Redis.Client.{TokenBucketRedis}
use anicetus.Detector.Redis.Documented.{
  Bucket, Server, IsServer, IsClient, visible, live, expiry, micros,
}
use anicetus.Detector.Redis.Asking.{
  IsSetUp, IsLuaNumber, key, ask, answers, tokens, refilled_now, rate, ask_allows, ask_denies,
}
use mathlib.Core.Path.{ap₂}

abbrev pub total : List ℕ → ℕ
total [] = 0
total (d ∷ ds) = d + total ds

one_answer : (r : Result Bool) → r ≡ ok false → r ≢ ok true
one_answer r e h = ground arith

-- A bucket that has not expired expires when it says.
live-expiry :
    {R : Type 0} (now : ℕ) (o : Option (Bucket R)) (b : Bucket R)
    → live now o ≡ some b
    → expiry (live now o) ≡ expiry o
live-expiry now o b e = ground arith

live_over :
    {R : Type 0} (now deadline : ℕ) (o : Option (Bucket R))
    → expiry o ≡ some deadline
    → deadline ≤ now
    → live now o ≡ none
live_over now deadline o e h = ground arith

module _ {W R : Type 0} ⦃fl : Float64 R⦄ (redis : Commands W R) (redigo : Redigo W) (ceil : R → ℤ)
    (server : Server W R) (t : TokenBucketRedis) (f : Text) (laws : IsFloat R)
    (numbers : IsLuaNumber R) (documented : IsServer redis server) (client : IsClient redigo)
    (b ttl : ℕ) (set_up : IsSetUp t ceil b ttl) where
  abbrev call : W → Result Bool × W
  call = ask redis redigo ceil server t f

  abbrev left : W → R
  left = tokens redis redigo ceil server t f laws numbers documented client b ttl set_up

  -- A bucket that is not there is a full one.
  left_absent :
      (w : W)
      → visible server w (key f) ≡ none
      → server.clock w < exact_below
      → fl.le (of_ℕ 1) (left w) ≡ true
  left_absent w absent early = ground (
    arith,
    absent,
    laws.le_of_ℕ 1 b set_up.some_burst,
    refilled_now laws numbers b b (server.clock w) (rate t) (omega arith) set_up.small early
        set_up.positive set_up.finite,
  )

  call_absent :
      (w : W)
      → visible server w (key f) ≡ none
      → server.clock w < exact_below
      → (call w).0 ≡ ok false
  call_absent w absent early =
      (ask_allows redis redigo ceil server t f laws numbers documented client b ttl set_up w
        (left_absent w absent early)).0

  -- An allowed request sets when the bucket expires, and a denied one keeps it.
  call_sets :
      (w : W)
      → (call w).0 ≡ ok false
      → (server.clock (call w).1 ≡ server.clock w)
        × (expiry (server.bucket (call w).1 (key f)) ≡ some (server.clock w + micros ttl))
  call_sets w h = elim (Bool-cases (fl.le (of_ℕ 1) (left w))) [
    | inl p ↦
        let r =
          ask_allows redis redigo ceil server t f laws numbers documented client b ttl set_up w p in
        (r.1, ap expiry r.2)
    | inr p ↦ absurd (
        one_answer (call w).0 h
          (ask_denies redis redigo ceil server t f laws numbers documented client b ttl set_up w
            p).0)
  ]

  call_keeps :
      (w : W) (deadline : ℕ)
      → server.clock w < exact_below
      → expiry (server.bucket w (key f)) ≡ some deadline
      → (call w).0 ≡ ok true
      → (server.clock (call w).1 ≡ server.clock w)
        × (expiry (server.bucket (call w).1 (key f)) ≡ some deadline)
  call_keeps w deadline early e h = elim (Option-cases (visible server w (key f))) [
    | inl p ↦ absurd (one_answer (call w).0 (call_absent w p early) h)
    | inr (bucket, p) ↦ elim (Bool-cases (fl.le (of_ℕ 1) (left w))) [
      | inl q ↦ absurd (
          one_answer (call w).0
            (ask_allows redis redigo ceil server t f laws numbers documented client b ttl set_up w
              q).0
            h)
      | inr q ↦
          let r =
            ask_denies redis redigo ceil server t f laws numbers documented client b ttl set_up w
              q in
          (r.1, ap expiry r.2 ∙ live-expiry (server.clock w) (server.bucket w (key f)) bucket p ∙ e)
    ]
  ]

  -- The bucket says when it expires, whatever the calls do.
  record IsDue (deadline : ℕ) (w : W) : Type 0 where
    due : expiry (server.bucket w (key f)) ≡ some deadline

  later-IsDue : (deadline d : ℕ) (w : W) → IsDue deadline w → IsDue deadline (server.later d w)
  later-IsDue deadline d w v = record {
    due = ap expiry (documented.later_bucket d w (key f)) ∙ v.due;
  }

  answers_due :
      (ds : List ℕ) (d deadline : ℕ) (w : W)
      → IsDue deadline w
      → deadline ≤ server.clock w + total ds + d
      → server.clock w + total ds + d < exact_below
      → All (λ r. r ≡ ok true) (answers redis redigo ceil server t f ds w)
      → answers redis redigo ceil server t f (ds ++ d ∷ []) w
        ≡ replicate (length ds) (ok true) ++ ok false ∷ []
  unfolding answers
  answers_due [] d deadline w v late early _ =
      let w1 = server.later d w in
      let same = documented.later_clock d w in
      let e = (later-IsDue deadline d w v).due in
      ap (λ r. r ∷ [])
        (call_absent w1
          (live_over (server.clock w1) deadline (server.bucket w1 (key f)) e
            (omega (arith, same, late)))
          (omega (arith, same, early)))
  answers_due (x ∷ ds) d deadline w v late early (denied, rest) =
      let w1 = server.later x w in
      let same = documented.later_clock x w in
      let (same', due) =
        call_keeps w1 deadline (omega (arith, same, early)) (later-IsDue deadline x w v).due
          denied in
      ap₂ ◌∷◌ denied (
        answers_due ds d deadline (call w1).1 (record { due = due })
          (omega (arith, same, same', late)) (omega (arith, same, same', early)) rest)

  -- The penalty is forgotten when the bucket expires, which denied requests do not put off: `ttl`
  -- seconds after the last request that was allowed the next one is allowed again, however many
  -- requests were denied in between and however shortly before.
  pub penalty_forgotten :
      (w : W) (ds : List ℕ) (d : ℕ)
      → (call w).0 ≡ ok false
      → All (λ r. r ≡ ok true) (answers redis redigo ceil server t f ds (call w).1)
      → micros ttl ≤ total ds + d
      → server.clock w + total ds + d < exact_below
      → answers redis redigo ceil server t f (ds ++ d ∷ []) (call w).1
        ≡ replicate (length ds) (ok true) ++ ok false ∷ []
  penalty_forgotten w ds d allowed denied late early =
      let (same, due) = call_sets w allowed in
      answers_due ds d (server.clock w + micros ttl) (call w).1 (record { due = due })
        (omega (arith, same, late)) (omega (arith, same, early)) denied
