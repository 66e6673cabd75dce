-- ===== src/Detector/Redis/Herds.antt =====
-- A herd on the detector of detector/redigo/tokenbucket_redis.go.
use anicetus.Detector.Redis.Client.{TokenBucketRedis}
use anicetus.Detector.Redis.Documented.{Server, IsServer, IsClient, visible, live_fresh, live_kept}
use anicetus.Prelude.Int.{ℤ}
use anicetus.Detector.Redis.Connection.{Commands, Redigo}
use anicetus.Rate.Float.{Float64, IsFloat, of_ℕ, exact_below}
use anicetus.Prelude.{
  zero, suc, ◌++◌, replicate, ◌∷◌, refl, ℕ, ◌≤◌, ◌<◌, ◌≡◌, Bool, true, false, none, arith, ap, ◌∙◌,
}
use anicetus.Detector.Redis.Asking.{
  refilled_now, rate, IsSetUp, IsLuaNumber, key, ask, answers, tokens, tokens_after, ask_allows,
  ask_denies,
}
use anicetus.Errors.{Result, ok}
use anicetus.Message.{Text}
use mathlib.Core.Path.{ap₂}
use anicetus.Detector.Redis.Buckets.{now_at}

module _ {W R : Type 0} ⦃fl : Float64 R⦄ (redis : Commands W R) (redigo : Redigo W) (ceil : R → ℤ)
    (server : Server W R) (t : TokenBucketRedis) (f : Text) (laws : IsFloat R)
    (numbers : IsLuaNumber R) (documented : IsServer redis server) (client : IsClient redigo)
    (b ttl : ℕ) (set_up : IsSetUp t ceil b ttl) where
  abbrev call : W → Result Bool × W
  call = ask redis redigo ceil server t f

  abbrev left : W → R
  left = tokens redis redigo ceil server t f laws numbers documented client b ttl set_up

  -- The bucket holds `k` tokens at the present time of the server.
  record Holds (k : ℕ) (w : W) : Type 0 where
    fits : k ≤ b
    early : server.clock w < exact_below
    exact : left w ≡ of_ℕ k

  call_allows : (k : ℕ) (w : W) → Holds (suc k) w → ((call w).0 ≡ ok false) × Holds k (call w).1
  call_allows k w v =
      let (answer, same, bucket) =
        ask_allows redis redigo ceil server t f laws numbers documented client b ttl set_up w
          (ap (fl.le (of_ℕ 1)) v.exact ∙ laws.le_of_ℕ 1 (suc k) (omega arith)) in
      let one_less =
        ap (λ x. fl.sub x (of_ℕ 1)) v.exact
        ∙ laws.sub_one k (omega (arith, v.fits, set_up.small)) in
      (
        answer,
        record {
          fits = omega (arith, v.fits);
          early = ground (arith, v.early, same);
          exact =
              tokens_after redis redigo ceil server t f laws numbers documented client b ttl set_up
                k w (call w).1 (omega (arith, v.fits)) v.early same
                (ground (
                  arith,
                  bucket,
                  same,
                  one_less,
                  live_fresh (server.clock w) ttl (of_ℕ {R = R} k) (now_at (server.clock w))
                      set_up.lasts,
                ));
        },
      )

  call_denies : (w : W) → Holds 0 w → ((call w).0 ≡ ok true) × Holds 0 (call w).1
  call_denies w v =
      let (answer, same, bucket) =
        ask_denies redis redigo ceil server t f laws numbers documented client b ttl set_up w
          (ap (fl.le (of_ℕ 1)) v.exact ∙ numbers.not-le_of_ℕ 0 1 (omega arith) (omega arith)) in
      (
        answer,
        record {
          fits = omega arith;
          early = ground (arith, v.early, same);
          exact =
              tokens_after redis redigo ceil server t f laws numbers documented client b ttl set_up
                0 w (call w).1 (omega arith) v.early same
                (ground (
                  arith,
                  bucket,
                  same,
                  live_kept (server.clock w) (server.bucket w (key f)) (of_ℕ {R = R} 0)
                      (now_at (server.clock w)),
                ));
        },
      )

  at_once : (k : ℕ) (w : W) → Holds k w → Holds k (server.later 0 w)
  at_once k w v = record {
    fits = v.fits;
    early = ground (arith, documented.later_clock 0 w, v.early);
    exact =
        ground (arith, documented.later_clock 0 w, documented.later_bucket 0 w (key f), v.exact);
  }

  deny_all :
      (j : ℕ) (w : W)
      → Holds 0 w
      → answers redis redigo ceil server t f (replicate j 0) w ≡ replicate j (ok true)
  unfolding answers
  deny_all zero w v = refl
  deny_all (suc j) w v =
      let (answer, v') = call_denies (server.later 0 w) (at_once 0 w v) in
      ap₂ ◌∷◌ answer (deny_all j _ v')

  allow_some :
      (k j : ℕ) (w : W)
      → Holds k w
      → answers redis redigo ceil server t f (replicate k 0 ++ replicate j 0) w
        ≡ replicate k (ok false) ++ replicate j (ok true)
  unfolding answers
  allow_some zero j w v = deny_all j w v
  allow_some (suc k) j w v =
      let (answer, v') = call_allows k (server.later 0 w) (at_once (suc k) w v) in
      ap₂ ◌∷◌ answer (allow_some k j _ v')

  -- Of `b + k` requests that come in one microsecond with a fingerprint that has no bucket the
  -- detector of burst `b` lets the first `b` pass and sees a herd in the rest, if the server does
  -- not fail.
  pub redis_herd :
      (k : ℕ) (w : W)
      → visible server w (key f) ≡ none
      → server.clock w < exact_below
      → answers redis redigo ceil server t f (replicate b 0 ++ replicate k 0) w
        ≡ replicate b (ok false) ++ replicate k (ok true)
  redis_herd k w absent early = allow_some b k w (record {
    fits = omega arith;
    early = early;
    exact = ground (
      arith,
      absent,
      refilled_now laws numbers b b (server.clock w) (rate t) (omega arith) set_up.small early
          set_up.positive set_up.finite,
    );
  })
