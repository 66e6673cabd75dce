-- ===== src/Service/Ticking.antt =====
-- The service in memory over the calls of anicetus.go and the background ticks of the two maps of
-- detector/tokenbucket_inmemory.go, each of which reads the clock.
use anicetus.Mapexp.Lifetime.{latest}
use anicetus.Prelude.{◌≡◌, refl, List, [], ◌∷◌, arith, Bool, ℕ, true, ◌∙◌, ap, ite}
use anicetus.Anicetus.{evaluate, request_done, cleanup}
use anicetus.Anicetus.Leader.{Call, evaluates, dones, cleans}
use anicetus.Anicetus.Leader
use anicetus.Gatekeeper
use anicetus.Storage
use anicetus.Mapexp.Map
use anicetus.Mapexp.Map.{Map}
use anicetus.Mapexp.Calls.{sets, gets, ticks}
use anicetus.Mapexp.Calls
use anicetus.Detector.InMemory.{cool_down, is_cool_down, is_thundering_herd}
use anicetus.Detector.Timed.{
  read_clock, timed_cool_down, timed_is_cool_down, timed_is_thundering_herd, Timed,
}
use anicetus.Rate.Float.{Float64}
use anicetus.Service.{Service, serve}

pub data Event (Q : Type 0) : Type 0 where
  calls : Call Q → Event Q
  ticks_cooldowns : Event Q
  ticks_limiters : Event Q

module _ {Q F R : Type 0} (dec : Discrete F) ⦃fl : Float64 R⦄ (print : Q → F) where
  abbrev pub cooldowns : Service F R → Map F Bool
  cooldowns t = t.detector.buckets.cooldowns

  -- What the next call or tick reads off the clock first.
  abbrev pub reading : Service F R → ℕ
  reading t = (read_clock t.detector.clock).0

  unfoldable pub step : Service F R → Event Q → Service F R
  step t (calls c) = serve dec print t c
  step t ticks_cooldowns =
      let (now, clock) = read_clock t.detector.clock in
      let buckets = record t.detector.buckets {
        cooldowns = Map.tick dec now t.detector.buckets.cooldowns;
      } in
      record t { detector = record { buckets = buckets; clock = clock } }
  step t ticks_limiters =
      let (now, clock) = read_clock t.detector.clock in
      let buckets = record t.detector.buckets {
        limiters = Map.tick dec now t.detector.buckets.limiters;
      } in
      record t { detector = record { buckets = buckets; clock = clock } }

  unfoldable pub run : Service F R → List (Event Q) → Service F R
  run t [] = t
  run t (e ∷ es) = run (step t e) es

  -- The calls that reach the map of the cooldowns, with their times.
  abbrev pub cooldown_calls : Service F R → List (Event Q) → List (Calls.Call F Bool)
  cooldown_calls t [] = []
  cooldown_calls t (calls (evaluates q) ∷ es) =
      gets (reading t) (print q) ∷ cooldown_calls (step t (calls (evaluates q))) es
  cooldown_calls t (calls (dones q) ∷ es) =
      sets (reading t) (print q) true ∷ cooldown_calls (step t (calls (dones q))) es
  cooldown_calls t (calls (cleans q) ∷ es) = cooldown_calls (step t (calls (cleans q))) es
  cooldown_calls t (ticks_cooldowns ∷ es) =
      ticks (reading t) ∷ cooldown_calls (step t ticks_cooldowns) es
  cooldown_calls t (ticks_limiters ∷ es) = cooldown_calls (step t ticks_limiters) es

  cooldowns-herd :
      (g : F) (d : Timed F R)
      → (timed_is_thundering_herd dec g d).1.buckets.cooldowns ≡ d.buckets.cooldowns
  unfolding timed_is_thundering_herd is_thundering_herd
  cooldowns-herd g d = refl

  cooldowns-is_cool_down :
      (g : F) (d : Timed F R)
      → (timed_is_cool_down dec g d).1.buckets.cooldowns
        ≡ Calls.step dec d.buckets.cooldowns (gets (read_clock d.clock).0 g)
  unfolding timed_is_cool_down is_cool_down Calls.step
  cooldowns-is_cool_down g d = refl

  cooldowns-evaluates :
      (t : Service F R) (q : Q)
      → cooldowns (step t (calls (evaluates q)))
        ≡ Calls.step dec (cooldowns t) (gets (reading t) (print q))
  unfolding step Leader.step evaluate Gatekeeper.remove Storage.remove
  cooldowns-evaluates t q =
      let d = t.detector in
      ground (
        arith,
        cooldowns-is_cool_down (print q) d,
        cooldowns-herd (print q) (timed_is_cool_down dec (print q) d).1,
      )

  cooldowns-dones :
      (t : Service F R) (q : Q)
      → cooldowns (step t (calls (dones q)))
        ≡ Calls.step dec (cooldowns t) (sets (reading t) (print q) true)
  unfolding step Leader.step request_done timed_cool_down cool_down Gatekeeper.store Storage.store
      Calls.step
  cooldowns-dones t q = ground arith

  cooldowns-cleans : (t : Service F R) (q : Q) → cooldowns (step t (calls (cleans q))) ≡ cooldowns t
  unfolding step Leader.step cleanup Gatekeeper.remove Storage.remove
  cooldowns-cleans t q = ground arith

  cooldowns-ticks_cooldowns :
      (t : Service F R)
      → cooldowns (step t ticks_cooldowns) ≡ Calls.step dec (cooldowns t) (ticks (reading t))
  unfolding step Calls.step
  cooldowns-ticks_cooldowns t = refl

  cooldowns-ticks_limiters : (t : Service F R) → cooldowns (step t ticks_limiters) ≡ cooldowns t
  unfolding step
  cooldowns-ticks_limiters t = refl

  and_then :
      (e : Event Q) (es : List (Event Q)) (t : Service F R) (m : Map F Bool)
      → cooldowns (step t e) ≡ m
      → let calls = cooldown_calls (step t e) es in
        cooldowns (run (step t e) es) ≡ Calls.run dec (cooldowns (step t e)) calls
        → cooldowns (run (step t e) es) ≡ Calls.run dec m calls
  and_then e es t m same h = h ∙ ap (λ n. Calls.run dec n (cooldown_calls (step t e) es)) same

  -- The map of the cooldowns after a history of the service is the one after the calls that reach
  -- it.
  pub cooldowns-run :
      (es : List (Event Q)) (t : Service F R)
      → cooldowns (run t es) ≡ Calls.run dec (cooldowns t) (cooldown_calls t es)
  unfolding run Calls.run
  cooldowns-run [] t = refl
  cooldowns-run (calls (evaluates q) ∷ es) t =
      and_then _ es t _ (cooldowns-evaluates t q) (cooldowns-run es (step t (calls (evaluates q))))
  cooldowns-run (calls (dones q) ∷ es) t =
      and_then _ es t _ (cooldowns-dones t q) (cooldowns-run es (step t (calls (dones q))))
  cooldowns-run (calls (cleans q) ∷ es) t =
      and_then _ es t _ (cooldowns-cleans t q) (cooldowns-run es (step t (calls (cleans q))))
  cooldowns-run (ticks_cooldowns ∷ es) t =
      and_then _ es t _ (cooldowns-ticks_cooldowns t) (cooldowns-run es (step t ticks_cooldowns))
  cooldowns-run (ticks_limiters ∷ es) t =
      and_then _ es t _ (cooldowns-ticks_limiters t) (cooldowns-run es (step t ticks_limiters))

  -- Every `Set` of the cooldowns stores `true`.
  pub latest-cooldown_calls :
      (f : F) (es : List (Event Q)) (t : Service F R) (v : Bool)
      → v ≡ true
      → latest dec f v (cooldown_calls t es) ≡ true
  latest-cooldown_calls f [] t v h = h
  latest-cooldown_calls f (calls (evaluates q) ∷ es) t v h = latest-cooldown_calls f es _ v h
  latest-cooldown_calls f (calls (dones q) ∷ es) t v h =
      latest-cooldown_calls f es _ (ite (dec (print q) f) true v) (ground arith)
  latest-cooldown_calls f (calls (cleans q) ∷ es) t v h = latest-cooldown_calls f es _ v h
  latest-cooldown_calls f (ticks_cooldowns ∷ es) t v h = latest-cooldown_calls f es _ v h
  latest-cooldown_calls f (ticks_limiters ∷ es) t v h = latest-cooldown_calls f es _ v h
