-- ===== src/Service/Handlers/Ending.antt =====
-- How many steps a handler of internal/http/handlers.go has left, whatever others do in between.
use anicetus.Prelude.{
  ℕ, suc, ◌-◌, ◌≤◌, ◌≡◌, refl, ap, true, false, none, some, List, [], ◌∷◌, ite, ℕ_discrete, arith,
}
use anicetus.Status
use anicetus.Gatekeeper
use anicetus.Gatekeeper.{GatekeeperStorage, Verdict}
use anicetus.Gatekeeper.Interleaving
use anicetus.Gatekeeper.Interleaving.{resume}
use anicetus.Mapexp.Map
use anicetus.Rate.Float.{Float64}
use anicetus.Detector.Shared
use anicetus.Detector.Shared.{Stage, go_on}
use anicetus.Service.Concurrent
use anicetus.Service.Concurrent.{State, advance_call}
use anicetus.Service.Handlers.{
  Phase, evaluates, leads, passes, stores, cools, relays, cleans, over, Reply, fails, replies,
  decided, Server, Handler, Event, goes_on, ticks_cooldowns, ticks_limiters, handle, happen,
  happen_all,
}

-- How many steps are left at most.
abbrev left_of_call : {F : Type 0} → Concurrent.Phase F → ℕ
left_of_call Concurrent.starts = 11
left_of_call (Concurrent.detects (Shared.asks f)) = 10
left_of_call (Concurrent.detects (Shared.creates f)) = 9
left_of_call (Concurrent.detects (Shared.holds p)) = 8
left_of_call (Concurrent.detects (Shared.answered herd)) = 8
left_of_call (Concurrent.analyzes Interleaving.idle) = 7
left_of_call (Concurrent.analyzes (Interleaving.checked exists)) = 6
left_of_call (Concurrent.analyzes (Interleaving.answered v)) = 6
left_of_call Concurrent.removes = 6
left_of_call (Concurrent.ends v) = 6

abbrev pub left : {F : Type 0} → Phase F → ℕ
left (evaluates phase) = left_of_call phase
left leads = 5
left (stores code) = 4
left (cools code) = 3
left (relays code) = 2
left (cleans code) = 1
left passes = 1
left (over code) = 0

left-decided : (F : Type 0) (v : Verdict) → left (decided {F = F} v) ≤ 5
unfolding decided
left-decided F (status, some e) = omega arith
left-decided F (Status.none, none) = omega arith
left-decided F (Status.failed, none) = omega arith
left-decided F (Status.process, none) = omega arith
left-decided F (Status.wait, none) = omega arith
left-decided F (Status.open_gates, none) = omega arith

call_goes_on :
    {F : Type 0} (phase : Concurrent.Phase F) → (1 ≤ left_of_call phase) × (left_of_call phase ≤ 11)
call_goes_on Concurrent.starts = omega arith
call_goes_on (Concurrent.detects (Shared.asks f)) = omega arith
call_goes_on (Concurrent.detects (Shared.creates f)) = omega arith
call_goes_on (Concurrent.detects (Shared.holds p)) = omega arith
call_goes_on (Concurrent.detects (Shared.answered herd)) = omega arith
call_goes_on (Concurrent.analyzes Interleaving.idle) = omega arith
call_goes_on (Concurrent.analyzes (Interleaving.checked exists)) = omega arith
call_goes_on (Concurrent.analyzes (Interleaving.answered v)) = omega arith
call_goes_on Concurrent.removes = omega arith
call_goes_on (Concurrent.ends v) = omega arith

left_at_end : {F : Type 0} (phase : Phase F) → left phase ≤ 0 → (code : ℕ) × (phase ≡ over code)
left_at_end (over code) h = (code, refl)
left_at_end (evaluates phase) h = absurd (omega (arith, h, call_goes_on phase))
left_at_end leads h = absurd (omega arith)
left_at_end (stores code) h = absurd (omega arith)
left_at_end (cools code) h = absurd (omega arith)
left_at_end (relays code) h = absurd (omega arith)
left_at_end (cleans code) h = absurd (omega arith)
left_at_end passes h = absurd (omega arith)

left_bound : {F : Type 0} (phase : Phase F) → left phase ≤ 11
left_bound (evaluates phase) = (call_goes_on phase).1
left_bound leads = omega arith
left_bound (stores code) = omega arith
left_bound (cools code) = omega arith
left_bound (relays code) = omega arith
left_bound (cleans code) = omega arith
left_bound passes = omega arith
left_bound (over code) = omega arith

-- How often the handler goes on.
unfoldable pub turns_of : ℕ → List Event → ℕ
turns_of i [] = 0
turns_of i (goes_on j now reply ∷ es) =
    let rest = turns_of i es in ite (ℕ_discrete i j) (suc rest) rest
turns_of i (ticks_cooldowns now ∷ es) = turns_of i es
turns_of i (ticks_limiters now ∷ es) = turns_of i es

module _ {F R S : Type 0} (dec : Discrete F) ⦃fl : Float64 R⦄ (storage : GatekeeperStorage F S)
    (forwarded : F → F) where
  left-resume :
      (now : ℕ) (reply : Reply) (f : F) (phase : Interleaving.Phase) (s : State F R S)
      → left (handle dec storage forwarded now reply f (evaluates (Concurrent.analyzes phase)) s).0
        ≤ left_of_call (let p : Concurrent.Phase F = Concurrent.analyzes phase in p) - 1
  unfolding handle advance_call resume decided
  left-resume now reply f Interleaving.idle s = ground arith
  left-resume now reply f (Interleaving.checked true) s = ground arith
  left-resume now reply f (Interleaving.checked false) s = ground arith
  left-resume now reply f (Interleaving.answered v) s = omega (arith, left-decided F v)

  left-evaluate :
      (now : ℕ) (reply : Reply) (f : F) (phase : Concurrent.Phase F) (s : State F R S)
      → left (handle dec storage forwarded now reply f (evaluates phase) s).0
        ≤ left_of_call phase - 1
  unfolding handle advance_call go_on Map.get Gatekeeper.remove decided
  left-evaluate now reply f Concurrent.starts s = ground arith
  left-evaluate now reply f (Concurrent.detects (Shared.asks g)) s = ground arith
  left-evaluate now reply f (Concurrent.detects (Shared.creates g)) s = omega arith
  left-evaluate now reply f (Concurrent.detects (Shared.holds p)) s = ground arith
  left-evaluate now reply f (Concurrent.detects (Shared.answered true)) s = omega arith
  left-evaluate now reply f (Concurrent.detects (Shared.answered false)) s = omega arith
  left-evaluate now reply f (Concurrent.analyzes phase) s = left-resume now reply f phase s
  left-evaluate now reply f Concurrent.removes s = ground arith
  left-evaluate now reply f (Concurrent.ends v) s = omega (arith, left-decided F v)

  left-handle :
      (now : ℕ) (reply : Reply) (f : F) (phase : Phase F) (s : State F R S)
      → left (handle dec storage forwarded now reply f phase s).0 ≤ left phase - 1
  unfolding handle Gatekeeper.store
  left-handle now reply f (evaluates phase) s = left-evaluate now reply f phase s
  left-handle now fails f leads s = omega arith
  left-handle now (replies code) f leads s = omega arith
  left-handle now reply f (stores code) s = ground arith
  left-handle now reply f (cools code) s = omega arith
  left-handle now fails f (relays code) s = omega arith
  left-handle now (replies _) f (relays code) s = omega arith
  left-handle now reply f (cleans code) s = omega arith
  left-handle now fails f passes s = omega arith
  left-handle now (replies code) f passes s = omega arith
  left-handle now reply f (over code) s = omega arith

  left-went_on :
      (i j now : ℕ) (reply : Reply) (c : Server F R S)
      → left ((happen dec storage forwarded (goes_on j now reply) c).handlers i).phase
        ≤ left (c.handlers i).phase - ite (ℕ_discrete i j) 1 0
  unfolding happen
  left-went_on i j now reply c =
      let h = c.handlers j in
      let phase' = (handle dec storage forwarded now reply h.fingerprint h.phase c.shared).0 in
      elim (ℕ_discrete i j)
        as (λ d.
          left (Handler.phase (ite d (record h { phase = phase' }) (c.handlers i)))
          ≤ left (c.handlers i).phase - ite d 1 0) [
            | yes e ↦ omega (
              arith,
              left-handle now reply h.fingerprint h.phase c.shared,
              ap (λ k. left (c.handlers k).phase) e,
            )
            | no _ ↦ omega arith
          ]

  left-happen_all :
      (es : List Event) (i : ℕ) (c : Server F R S)
      → left ((happen_all dec storage forwarded es c).handlers i).phase
        ≤ left (c.handlers i).phase - turns_of i es
  unfolding happen_all turns_of happen
  left-happen_all [] i c = omega arith
  left-happen_all (goes_on j now reply ∷ es) i c =
      let c' = happen dec storage forwarded (goes_on j now reply) c in
      let rest = left-happen_all es i c' in
      elim (ℕ_discrete i j)
          as (λ d.
            left (c'.handlers i).phase ≤ left (c.handlers i).phase - ite d 1 0
            → left ((happen_all dec storage forwarded es c').handlers i).phase
              ≤ left (c.handlers i).phase - ite d (suc (turns_of i es)) (turns_of i es)) [
                | yes _ ↦ λ h. omega (arith, h, rest)
                | no _ ↦ λ h. omega (arith, h, rest)
              ]
        (left-went_on i j now reply c)
  left-happen_all (ticks_cooldowns now ∷ es) i c =
      left-happen_all es i (happen dec storage forwarded (ticks_cooldowns now) c)
  left-happen_all (ticks_limiters now ∷ es) i c =
      left-happen_all es i (happen dec storage forwarded (ticks_limiters now) c)

  -- A handler that has gone on eleven times has ended with an answer, whatever the steps of other
  -- handlers and the ticks between its own, what the backend does, and which calls fail: no handler
  -- waits for another.
  pub handlers_end :
      (es : List Event) (i : ℕ) (c : Server F R S)
      → 11 ≤ turns_of i es
      → (code : ℕ) × (((happen_all dec storage forwarded es c).handlers i).phase ≡ over code)
  handlers_end es i c enough =
      left_at_end _ (omega (arith, enough, left-happen_all es i c, left_bound (c.handlers i).phase))
