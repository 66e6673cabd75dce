-- ===== src/Detector/Cooldowns.antt =====
-- The cooldowns of detector/tokenbucket_inmemory.go over a history of its calls and of the ticks of
-- its two maps.
use anicetus.Prelude.{ℕ, ◌+◌, ◌≡◌, refl, Bool, true, List, [], ◌∷◌, arith, ite}
use anicetus.Mapexp.Map
use anicetus.Mapexp.Map.{Map}
use anicetus.Mapexp.Calls.{Call, sets, gets, ticks, IsValid}
use anicetus.Mapexp.Calls
use anicetus.Mapexp.Lifetime.{IsTimely, latest, run-IsTimely, set-Holds}
use anicetus.Rate.Float.{Float64}
use anicetus.Detector.InMemory.{TokenBucketInMemory, cool_down, is_cool_down, is_thundering_herd}
use anicetus.Detector.Herds.{Check}

pub data Event (F : Type 0) : Type 0 where
  cools : ℕ → F → Event F
  polls : ℕ → F → Event F
  checks : Check F → Event F
  ticks_cooldowns : ℕ → Event F
  ticks_limiters : ℕ → Event F

module _ {F R : Type 0} (dec : Discrete F) ⦃fl : Float64 R⦄ where
  unfoldable pub step : TokenBucketInMemory F R → Event F → TokenBucketInMemory F R
  step t (cools now f) = cool_down dec now f t
  step t (polls now f) = (is_cool_down dec now f t).1
  step t (checks c) = (is_thundering_herd dec c.get_at c.set_at c.allow_at c.fingerprint t).1
  step t (ticks_cooldowns now) = record t { cooldowns = Map.tick dec now t.cooldowns }
  step t (ticks_limiters now) = record t { limiters = Map.tick dec now t.limiters }

  unfoldable pub run : TokenBucketInMemory F R → List (Event F) → TokenBucketInMemory F R
  run t [] = t
  run t (e ∷ es) = run (step t e) es

-- The calls that reach the map of the cooldowns.
abbrev pub cooldown_calls : {F : Type 0} → List (Event F) → List (Call F Bool)
cooldown_calls [] = []
cooldown_calls (cools now f ∷ es) = sets now f true ∷ cooldown_calls es
cooldown_calls (polls now f ∷ es) = gets now f ∷ cooldown_calls es
cooldown_calls (checks c ∷ es) = cooldown_calls es
cooldown_calls (ticks_cooldowns now ∷ es) = ticks now ∷ cooldown_calls es
cooldown_calls (ticks_limiters now ∷ es) = cooldown_calls es

latest-cooldown_calls :
    {F : Type 0} (dec : Discrete F) (f : F) (es : List (Event F)) (v : Bool)
    → v ≡ true
    → latest dec f v (cooldown_calls es) ≡ true
latest-cooldown_calls dec f [] v h = h
latest-cooldown_calls dec f (cools now g ∷ es) v h =
    latest-cooldown_calls dec f es (ite (dec g f) true v) (ground arith)
latest-cooldown_calls dec f (polls now g ∷ es) v h = latest-cooldown_calls dec f es v h
latest-cooldown_calls dec f (checks c ∷ es) v h = latest-cooldown_calls dec f es v h
latest-cooldown_calls dec f (ticks_cooldowns now ∷ es) v h = latest-cooldown_calls dec f es v h
latest-cooldown_calls dec f (ticks_limiters now ∷ es) v h = latest-cooldown_calls dec f es v h

module _ {F R : Type 0} (dec : Discrete F) ⦃fl : Float64 R⦄ where
  cooldowns-run :
      (es : List (Event F)) (t : TokenBucketInMemory F R)
      → (run dec t es).cooldowns ≡ Calls.run dec t.cooldowns (cooldown_calls es)
  unfolding run step Calls.run Calls.step cool_down is_cool_down is_thundering_herd
  cooldowns-run [] t = refl
  cooldowns-run (cools now f ∷ es) t = cooldowns-run es (step dec t (cools now f))
  cooldowns-run (polls now f ∷ es) t = cooldowns-run es (step dec t (polls now f))
  cooldowns-run (checks c ∷ es) t = cooldowns-run es (step dec t (checks c))
  cooldowns-run (ticks_cooldowns now ∷ es) t = cooldowns-run es (step dec t (ticks_cooldowns now))
  cooldowns-run (ticks_limiters now ∷ es) t = cooldowns-run es (step dec t (ticks_limiters now))

  -- A fingerprint that `CoolDown` has cooled down is in cooldown after every history in which each
  -- tick of the cooldowns comes before the expiration of the fingerprint by then, which is a ttl
  -- after the last `CoolDown` or `IsCoolDown` with it. So the cooldown goes on for as long as
  -- requests with the fingerprint keep asking in time.
  pub cooldown_lasts :
      (now later : ℕ) (f : F) (t : TokenBucketInMemory F R) (es : List (Event F))
      → IsValid dec t.cooldowns
      → let ttl = t.cooldowns.expiration_queue.ttl in
        IsTimely dec f ttl (now + ttl) (cooldown_calls es)
        → (is_cool_down dec later f (run dec (cool_down dec now f t) es)).0 ≡ true
  unfolding is_cool_down Map.get cool_down
  cooldown_lasts now later f t es valid timely =
      let ttl = t.cooldowns.expiration_queue.ttl in
      let stored =
        run-IsTimely dec f (cooldown_calls es) ttl (now + ttl) true
          (Map.set dec now f true t.cooldowns) (set-Holds dec f now true t.cooldowns valid)
          timely in
      ground (
        arith,
        stored,
        latest-cooldown_calls dec f es true refl,
        cooldowns-run es (cool_down dec now f t),
      )
