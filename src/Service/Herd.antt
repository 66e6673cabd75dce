-- ===== src/Service/Herd.antt =====
-- A herd of requests that come one after another at one time to the service in memory.
use anicetus.Prelude.{
  ℕ, zero, suc, ◌+◌, ◌≡◌, refl, ap, ◌∙◌, Bool, true, false, not, List, [], ◌∷◌, ◌++◌, Option, none,
  some, arith, replicate, ◌<◌, if◌then◌else◌, replicate-add,
}
use anicetus.Prelude.Int.{pos}
use anicetus.Errors.{ok}
use anicetus.Status.{Status, process, wait, open_gates}
use anicetus.Gatekeeper
use anicetus.Gatekeeper.{analyze}
use anicetus.Gatekeeper.Contract.{herd_answer, herd_flag}
use anicetus.Anicetus.{evaluate}
use anicetus.Mapexp.Map
use anicetus.Rate.Float.{Float64, IsFloat, exact_below}
use anicetus.Rate.Limiter.{Limiter, every, new_limiter, allow}
use anicetus.Rate.Burst.{allows}
use anicetus.Rate.Penalty.{IsShort}
use anicetus.Rate.Detection.{herd_detected}
use anicetus.Detector.InMemory.{TokenBucketInMemory, is_cool_down, is_thundering_herd}
use anicetus.Detector.Herds.{Check, checked, checked_own, limiter_of, limiter_of_new}
use anicetus.Detector.Timed.{
  Timed, read_clock, timed_detector, timed_is_cool_down, timed_is_thundering_herd,
}
use anicetus.Storage
use anicetus.Storage.{InMemory, in_memory}
use anicetus.Service.{Service}

-- The answers of `Evaluate` that fit the answers of the limiter, where the storage holds the flag.
unfoldable pub herd_statuses : Option Bool → List Bool → List Status
herd_statuses flag [] = []
herd_statuses flag (true ∷ rest) = open_gates ∷ herd_statuses none rest
herd_statuses flag (false ∷ rest) = herd_answer flag ∷ herd_statuses (herd_flag flag) rest

herd_statuses_herd :
    (b k : ℕ)
    → herd_statuses none (replicate b true ++ replicate (suc k) false)
      ≡ replicate b open_gates ++ process ∷ replicate k wait
unfolding herd_statuses
herd_statuses_herd zero k = ap (◌∷◌ process) (followers k)
  where
    followers : (k : ℕ) → herd_statuses (some false) (replicate k false) ≡ replicate k wait
    followers zero = refl
    followers (suc k) = ap (◌∷◌ wait) (followers k)
herd_statuses_herd (suc b) k = ap (◌∷◌ open_gates) (herd_statuses_herd b k)

herd_statuses_first :
    (b k : ℕ) (flag : Option Bool)
    → 0 < b
    → herd_statuses flag (replicate b true ++ replicate (suc k) false)
      ≡ replicate b open_gates ++ process ∷ replicate k wait
unfolding herd_statuses
herd_statuses_first zero k flag h = elim h [ ]
herd_statuses_first (suc b) k flag h = ap (◌∷◌ open_gates) (herd_statuses_herd b k)

abbrev check_at : {F : Type 0} → ℕ → F → Check F
check_at now f = record { get_at = now; set_at = now; allow_at = now; fingerprint = f }

module _ {F : Type 0} (dec : Discrete F) where
  analyze-in_memory :
      (f : F) (flag : Option Bool) (s : InMemory F)
      → s.flags f ≡ flag
      → let (verdict, s') = analyze (in_memory dec) f s in
        (verdict ≡ (herd_answer flag, none)) × (s'.flags f ≡ herd_flag flag)
  unfolding analyze Storage.exists Storage.processed Storage.store
  analyze-in_memory f none s h = ground arith
  analyze-in_memory f (some true) s h = ground arith
  analyze-in_memory f (some false) s h = ground arith

  remove-in_memory :
      (f : F) (s : InMemory F)
      → let (removed, s') = Gatekeeper.remove (in_memory dec) f s in
        (removed ≡ ok tt) × (s'.flags f ≡ none)
  unfolding Gatekeeper.remove Storage.remove
  remove-in_memory f s = ground arith

module _ {Q F R : Type 0} (dec : Discrete F) ⦃fl : Float64 R⦄ (print : Q → F) where
  -- The answers to as many requests, in turn.
  unfoldable pub statuses : ℕ → Q → Service F R → List Status
  statuses zero r t = []
  statuses (suc n) r t =
      let (verdict, t') = evaluate print (timed_detector dec) (in_memory dec) r t in
      verdict.0 ∷ statuses n r t'

  -- The clock stands at `now`, and the fingerprint is not in cooldown.
  record IsReady (f : F) (now : ℕ) (flag : Option Bool) (lim : Limiter R) (t : Service F R)
      : Type 0 where
    still : t.detector.clock ≡ record { now = now; delays = [] }
    uncooled : t.detector.buckets.cooldowns.items f ≡ none
    held : t.storage.flags f ≡ flag
    limiter : limiter_of dec f t.detector.buckets ≡ lim

  timed_is_cool_down_none :
      (f : F) (now : ℕ) (d : Timed F R)
      → d.clock ≡ record { now = now; delays = [] }
      → d.buckets.cooldowns.items f ≡ none
      → let (cooldown, d') = timed_is_cool_down dec f d in
        (cooldown ≡ ok false)
        × (d'.clock ≡ d.clock)
        × (d'.buckets.cooldowns.items f ≡ none)
        × (limiter_of dec f d'.buckets ≡ limiter_of dec f d.buckets)
  unfolding timed_is_cool_down is_cool_down Map.get read_clock
  timed_is_cool_down_none f now d e h = ground arith

  cooldowns-checked :
      (c : Check F) (t : TokenBucketInMemory F R) → (checked dec c t).1.cooldowns ≡ t.cooldowns
  unfolding is_thundering_herd
  cooldowns-checked c t = refl

  timed_is_thundering_herd_still :
      (f : F) (now : ℕ) (d : Timed F R)
      → d.clock ≡ record { now = now; delays = [] }
      → let (herd, d') = timed_is_thundering_herd dec f d in
        let (allowed, lim) = allow now (limiter_of dec f d.buckets) in
        (herd ≡ ok (not allowed))
        × (d'.clock ≡ d.clock)
        × (d'.buckets.cooldowns ≡ d.buckets.cooldowns)
        × (limiter_of dec f d'.buckets ≡ lim)
  unfolding timed_is_thundering_herd read_clock
  timed_is_thundering_herd_still f now d e = ground (
    arith,
    checked_own dec f (check_at now f) d.buckets refl,
    cooldowns-checked (check_at now f) d.buckets,
  )

  evaluate-IsReady :
      (r : Q) (now : ℕ) (flag : Option Bool) (lim : Limiter R) (t : Service F R)
      → IsReady (print r) now flag lim t
      → let (verdict, t') = evaluate print (timed_detector dec) (in_memory dec) r t in
        let (allowed, lim') = allow now lim in
        (verdict.0 ≡ (if allowed then open_gates else herd_answer flag))
        × IsReady (print r) now (if allowed then none else herd_flag flag) lim' t'
  unfolding evaluate
  evaluate-IsReady r now flag lim t v =
      let f = print r in
      let d' = (timed_is_cool_down dec f t.detector).1 in
      ground (
        arith,
        timed_is_cool_down_none f now t.detector v.still v.uncooled,
        timed_is_thundering_herd_still f now d',
        analyze-in_memory dec f flag t.storage v.held,
        remove-in_memory dec f t.storage,
      )

  -- Of requests with one fingerprint that come one after another at one time, with no cooldown,
  -- those that the limiter of the fingerprint allows pass, the first that it denies is processed
  -- and the next ones wait.
  statuses-IsReady :
      (n : ℕ) (r : Q) (now : ℕ) (flag : Option Bool) (lim : Limiter R) (t : Service F R)
      → IsReady (print r) now flag lim t
      → statuses n r t ≡ herd_statuses flag (allows (replicate n now) lim)
  unfolding statuses herd_statuses allows
  statuses-IsReady zero r now flag lim t v = refl
  statuses-IsReady (suc n) r now flag lim t v =
      let (status, v') = evaluate-IsReady r now flag lim t v in
      ground (
        arith,
        status,
        statuses-IsReady n r now (if (allow now lim).0 then none else herd_flag flag)
            (allow now lim).1 (evaluate print (timed_detector dec) (in_memory dec) r t).1 v',
      )

  -- Of `b + 1 + k` calls of `Evaluate` with one fingerprint, made one after another while the clock
  -- stands still, on a service of burst `b` that has neither a cooldown nor a limiter for it, the
  -- first `b` open the gates, the next one is answered process, and the other `k` wait: the herd
  -- has one leader. This is for `0 < b < 2 ^ 53` and a rate that is finite and at which an empty
  -- bucket that no time has passed for lacks a token, the wait for it being between a nanosecond
  -- and 2 ^ 63.
  pub herd_has_one_leader :
      (laws : IsFloat R) (r : Q) (b k now : ℕ) (t : Service F R)
      → t.detector.clock ≡ record { now = now; delays = [] }
      → t.detector.buckets.cooldowns.items (print r) ≡ none
      → t.detector.buckets.limiters.items (print r) ≡ none
      → t.detector.buckets.limiters_burst ≡ pos b
      → 0 < b
      → b < exact_below
      → let rate : R = every t.detector.buckets.limiters_interval in
        fl.le rate fl.max_float ≡ true
        → fl.eq rate fl.max_float ≡ false
        → IsShort rate 0
        → statuses (b + suc k) r t ≡ replicate b open_gates ++ process ∷ replicate k wait
  herd_has_one_leader laws r b k now t still uncooled absent burst some_burst small finite limited
        short =
      let rate : R = every t.detector.buckets.limiters_interval in
      let flag = t.storage.flags (print r) in
      statuses-IsReady (b + suc k) r now flag (new_limiter rate (pos b)) t (record {
        still = still;
        uncooled = uncooled;
        held = refl;
        limiter =
            limiter_of_new dec (print r) t.detector.buckets absent ∙ ap (new_limiter rate) burst;
      })
      ∙ ap (herd_statuses flag) (
          rw (replicate-add b (suc k) now)
            (herd_detected laws rate b (suc k) now finite limited small some_burst short))
      ∙ herd_statuses_first b k flag some_burst
