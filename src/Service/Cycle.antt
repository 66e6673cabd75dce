-- ===== src/Service/Cycle.antt =====
-- The cycle of a herd through the service in memory, over its calls and its background ticks.
use anicetus.Prelude.{◌≡◌, refl, Bool, true, List, Option, none, some, arith, ◌+◌, ap, ◌∙◌}
use anicetus.Errors.{ok}
use anicetus.Status.{open_gates}
use anicetus.Gatekeeper
use anicetus.Anicetus.{evaluate, request_done}
use anicetus.Mapexp.Map
use anicetus.Detector.InMemory.{cool_down, is_cool_down}
use anicetus.Detector.Timed.{Timed, timed_detector, timed_cool_down, timed_is_cool_down, read_clock}
use anicetus.Rate.Float.{Float64}
use anicetus.Storage
use anicetus.Storage.{InMemory, in_memory}
use anicetus.Service.{Service}
use anicetus.Service.Ticking.{Event, run, cooldown_calls, cooldowns-run, latest-cooldown_calls}
use anicetus.Mapexp.Calls
use anicetus.Mapexp.Calls.{IsValid}
use anicetus.Mapexp.Lifetime.{IsTimely, run-IsTimely, set-Holds}

module _ {Q F R : Type 0} (dec : Discrete F) ⦃fl : Float64 R⦄ (print : Q → F) where
  abbrev cooled : F → Timed F R → Option Bool
  cooled f d = d.buckets.cooldowns.items f

  abbrev pub IsCooled : F → Service F R → Type 0
  IsCooled f t = cooled f t.detector ≡ some true

  timed_is_cool_down_lem :
      (f : F) (d : Timed F R) → cooled f d ≡ some true → (timed_is_cool_down dec f d).0 ≡ ok true
  unfolding timed_is_cool_down is_cool_down Map.get
  timed_is_cool_down_lem f d h = ground arith

  -- `RequestDone` never fails, and sets the cooldown at the time it reads.
  request_done_ok :
      (r : Q) (t : Service F R)
      → let done = request_done print (timed_detector dec) (in_memory dec) r t in
        (done.0 ≡ ok tt)
        × (done.1.detector.buckets.cooldowns
            ≡ Map.set dec
                (read_clock t.detector.clock).0
                (print r)
                true
                t.detector.buckets.cooldowns)
  unfolding request_done timed_cool_down cool_down Gatekeeper.store Storage.store
  request_done_ok r t = ground arith

  evaluate_cooled :
      (r : Q) (t : Service F R)
      → IsCooled (print r) t
      → (evaluate print (timed_detector dec) (in_memory dec) r t).0 ≡ (open_gates, none)
  unfolding evaluate
  evaluate_cooled r t h = ground (arith, timed_is_cool_down_lem (print r) t.detector h)

  -- `RequestDone` never fails on the service in memory. From then on, through any calls with any
  -- requests and any background ticks of the two maps, of which each tick of the cooldowns comes
  -- before a ttl has passed since the last `Evaluate` or `RequestDone` with the fingerprint,
  -- `Evaluate` opens the gates to every request with the fingerprint of the one that is done, if
  -- the map of the cooldowns is a valid one before.
  pub done_opens_gates :
      (r q : Q) (t : Service F R) (es : List (Event Q))
      → print q ≡ print r
      → IsValid dec t.detector.buckets.cooldowns
      → let ttl = t.detector.buckets.cooldowns.expiration_queue.ttl in
        let now = (read_clock t.detector.clock).0 in
        let done = request_done print (timed_detector dec) (in_memory dec) r t in
        IsTimely dec (print r) ttl (now + ttl) (cooldown_calls dec print done.1 es)
        → (done.0 ≡ ok tt)
          × ((evaluate print (timed_detector dec) (in_memory dec) q (run dec print done.1 es)).0
              ≡ (open_gates, none))
  done_opens_gates r q t es same valid timely =
      let m = t.detector.buckets.cooldowns in
      let now = (read_clock t.detector.clock).0 in
      let done = request_done print (timed_detector dec) (in_memory dec) r t in
      let (good, set) = request_done_ok r t in
      let calls = cooldown_calls dec print done.1 es in
      let stored =
        run-IsTimely dec (print r) calls _ _ true (Map.set dec now (print r) true m)
          (set-Holds dec (print r) now true m valid) timely in
      let cool : IsCooled (print r) (run dec print done.1 es) =
        ap (λ n. n.items (print r))
          (cooldowns-run dec print es done.1 ∙ ap (λ n. Calls.run dec n calls) set)
        ∙ stored
        ∙ ap some (latest-cooldown_calls dec print (print r) es done.1 true refl) in
      (good, evaluate_cooled q _ (rw same cool))
