-- ===== src/Service/Handlers.antt =====
-- `anicetusHandler` of internal/http/handlers.go for many goroutines on the detector in memory,
-- from the fingerprint on: the parts of `Evaluate` as in Concurrent, the wait for the backend, the
-- two calls of `RequestDone`, and `Cleanup`, each a step between which others come in.
pub mod Covered
pub mod Ending
pub mod Released
pub mod Turns
pub mod Leader
pub mod Coded
pub mod Whole
mod Tests
mod WholeTests
use anicetus.Prelude.{ℕ, Bool, true, Option, none, some, List, [], ◌∷◌, ite, ℕ_discrete}
use anicetus.Errors.{check}
use anicetus.Status
use anicetus.Gatekeeper
use anicetus.Gatekeeper.{GatekeeperStorage, Verdict}
use anicetus.Mapexp.Map
use anicetus.Rate.Float.{Float64}
use anicetus.Service.Concurrent
use anicetus.Service.Concurrent.{State, advance_call}

-- What comes of a wait for the backend: of the call, or of the body of its response.
pub data Reply : Type 0 where
  fails : Reply
  replies : ℕ → Reply

-- How far a handler is: in `Evaluate`, before the response to the leader, before `Store` and
-- `CoolDown` of `RequestDone`, before the end of the body, before `Remove` of `Cleanup`, before the
-- response to one that passes, and at its end. The codes are those that the client gets.
pub data Phase (F : Type 0) : Type 0 where
  evaluates : Concurrent.Phase F → Phase F
  leads passes : Phase F
  stores cools relays cleans over : ℕ → Phase F

pub record Handler (F : Type 0) : Type 0 where
  pub fingerprint : F
  pub phase : Phase F

-- The `switch` over the status; without a status line the code is 200.
unfoldable pub decided : {F : Type 0} → Verdict → Phase F
decided (status, some e) = over 500
decided (Status.none, none) = over 200
decided (Status.failed, none) = over 500
decided (Status.process, none) = leads
decided (Status.wait, none) = over 503
decided (Status.open_gates, none) = passes

abbrev pub evaluated : {F : Type 0} → Concurrent.Phase F → Phase F
evaluated (Concurrent.ends verdict) = decided verdict
evaluated phase = evaluates phase

-- All handlers, by number.
pub record Server (F R S : Type 0) : Type 0 where
  pub handlers : ℕ → Handler F
  pub shared : State F R S

-- A handler goes on at a time, with what comes of its wait, or a ticker of one of the maps ticks.
pub data Event : Type 0 where
  goes_on : (handler now : ℕ) → Reply → Event
  ticks_cooldowns ticks_limiters : (now : ℕ) → Event

module _ {F R S : Type 0} (dec : Discrete F) ⦃fl : Float64 R⦄ (storage : GatekeeperStorage F S)
    (forwarded : F → F) where
  -- The next step of a handler of a request with the fingerprint, which is another one once the
  -- request has been sent to the backend.
  unfoldable pub handle : ℕ → Reply → F → Phase F → State F R S → Phase F × State F R S
  handle now reply f (evaluates phase) s =
      let (phase', s') = advance_call dec storage f now phase s in (evaluated phase', s')
  handle now fails f leads s = (cleans 500, s)
  handle now (replies code) f leads s = (stores code, s)
  handle now reply f (stores code) s =
      check (Gatekeeper.store storage (forwarded f) true s.storage)
        (λ _ t. (cleans 500, record s { storage = t }))
        λ _ t. (cools code, record s { storage = t })
  handle now reply f (cools code) s =
      (relays code, record s { cooldowns = Map.set dec now (forwarded f) true s.cooldowns })
  handle now fails f (relays code) s = (cleans code, s)
  handle now (replies _) f (relays code) s = (over code, s)
  handle now reply f (cleans code) s =
      (over code, record s { storage = (Gatekeeper.remove storage (forwarded f) s.storage).1 })
  handle now fails f passes s = (over 500, s)
  handle now (replies code) f passes s = (over code, s)
  handle now reply f (over code) s = (over code, s)

  unfoldable pub happen : Event → Server F R S → Server F R S
  happen (goes_on i now reply) c =
      let h = c.handlers i in
      let (phase, s) = handle now reply h.fingerprint h.phase c.shared in
      record {
        handlers = λ k. ite (ℕ_discrete k i) (record h { phase = phase }) (c.handlers k);
        shared = s;
      }
  happen (ticks_cooldowns now) c = record c {
    shared = record c.shared { cooldowns = Map.tick dec now c.shared.cooldowns };
  }
  happen (ticks_limiters now) c = record c {
    shared = record c.shared {
      limiters = record c.shared.limiters {
        limiters = Map.tick dec now c.shared.limiters.limiters;
      };
    };
  }

  unfoldable pub happen_all : List Event → Server F R S → Server F R S
  happen_all [] c = c
  happen_all (e ∷ es) c = happen_all es (happen e c)
