-- ===== src/Service/Concurrent.antt =====
-- `Evaluate` of anicetus.go for many goroutines on the detector in memory. The parts of a call,
-- between which others come in, are the lookup of the cooldown, the steps of Detector.Shared and
-- those of Gatekeeper.Interleaving.
pub mod Whole
pub mod Unseen
pub mod Leaders
pub mod Sample
mod Tests
use anicetus.Prelude.{ℕ, Bool, true, false, if◌then◌else◌, none, some, List, [], ◌∷◌}
use anicetus.Errors.{check}
use anicetus.Status.{open_gates}
use anicetus.Gatekeeper
use anicetus.Gatekeeper.{GatekeeperStorage, Verdict, answer, fail}
use anicetus.Gatekeeper.Interleaving
use anicetus.Gatekeeper.Interleaving.{resume}
use anicetus.Mapexp.Map
use anicetus.Mapexp.Map.{Map}
use anicetus.Rate.Float.{Float64}
use anicetus.Detector.Shared
use anicetus.Detector.Shared.{Shared, Stage, go_on}

pub record State (F R S : Type 0) : Type 0 where
  pub cooldowns : Map F Bool
  pub limiters : Shared F R
  pub storage : S

-- How far a call is: before `IsCoolDown`, in `IsThunderingHerd`, before `Remove`, in `analyze`, and
-- at its end.
pub data Phase (F : Type 0) : Type 0 where
  starts removes : Phase F
  detects : Stage F → Phase F
  analyzes : Interleaving.Phase → Phase F
  ends : Verdict → Phase F

abbrev pub detected : {F : Type 0} → Stage F → Phase F
detected (Shared.answered true) = analyzes Interleaving.idle
detected (Shared.answered false) = removes
detected stage = detects stage

abbrev pub analyzed : {F : Type 0} → Interleaving.Phase → Phase F
analyzed (Interleaving.answered verdict) = ends verdict
analyzed phase = analyzes phase

module _ {F R S : Type 0} (dec : Discrete F) ⦃fl : Float64 R⦄ (storage : GatekeeperStorage F S)
    (fingerprint : F) where
  -- The next part of a call with the fingerprint.
  unfoldable pub advance_call : ℕ → Phase F → State F R S → Phase F × State F R S
  advance_call now starts s =
      let (found, cooldowns) = Map.get dec now fingerprint s.cooldowns in
      (
        elim found [ some true ↦ ends (open_gates, none) | _ ↦ detects (Shared.asks fingerprint) ],
        record s { cooldowns = cooldowns },
      )
  advance_call now (detects stage) s =
      let (stage', limiters) = go_on dec now stage s.limiters in
      (detected stage', record s { limiters = limiters })
  advance_call now removes s =
      let (verdict, storage') =
        check (Gatekeeper.remove storage fingerprint s.storage)
          (fail "failed to remove fingerprint") λ _ t. answer open_gates t in
      (ends verdict, record s { storage = storage' })
  advance_call now (analyzes phase) s =
      let (phase', storage') = resume storage fingerprint phase s.storage in
      (analyzed phase', record s { storage = storage' })
  advance_call now (ends verdict) s = (ends verdict, s)

  -- Each of the calls goes on by one part.
  unfoldable pub advance_each : ℕ → List (Phase F) → State F R S → List (Phase F) × State F R S
  advance_each now [] s = ([], s)
  advance_each now (phase ∷ phases) s =
      let (phase', s1) = advance_call now phase s in
      let (phases', s2) = advance_each now phases s1 in (phase' ∷ phases', s2)
