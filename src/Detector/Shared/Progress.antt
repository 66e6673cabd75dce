-- ===== src/Detector/Shared/Progress.antt =====
-- Calls of `IsThunderingHerd` come to an end, whatever others do in between.
use anicetus.Prelude.{ap, ℕ, suc, ◌-◌, ◌≤◌, ◌≡◌, refl, Bool, List, [], ◌∷◌, ite, ℕ_discrete, arith}
use anicetus.Mapexp.Map
use anicetus.Rate.Float.{Float64}
use anicetus.Detector.Shared.{Shared, Stage, asks, creates, holds, answered, go_on}

-- All calls, by number.
pub record Calls (F R : Type 0) : Type 0 where
  pub stages : ℕ → Stage F
  pub shared : Shared F R

-- A call goes on at a time, or something else changes the state, as the ticker does.
pub data Event (F R : Type 0) : Type 0 where
  goes_on : (call now : ℕ) → Event F R
  changes : Shared F R → Event F R

-- How many steps are left.
abbrev remaining : {F : Type 0} → Stage F → ℕ
remaining (asks f) = 3
remaining (creates f) = 2
remaining (holds p) = 1
remaining (answered herd) = 0

at_most_3 : {F : Type 0} (stage : Stage F) → remaining stage ≤ 3
at_most_3 (asks f) = omega arith
at_most_3 (creates f) = omega arith
at_most_3 (holds p) = omega arith
at_most_3 (answered herd) = omega arith

at_end :
    {F : Type 0} (stage : Stage F) → remaining stage ≤ 0 → (herd : Bool) × (stage ≡ answered herd)
at_end (asks f) h = absurd (omega arith)
at_end (creates f) h = absurd (omega arith)
at_end (holds p) h = absurd (omega arith)
at_end (answered herd) h = (herd, refl)

-- How often the call goes on.
unfoldable pub turns_of : {F R : Type 0} → ℕ → List (Event F R) → ℕ
turns_of i [] = 0
turns_of i (goes_on j now ∷ es) = let rest = turns_of i es in ite (ℕ_discrete i j) (suc rest) rest
turns_of i (changes s ∷ es) = turns_of i es

module _ {F R : Type 0} (dec : Discrete F) ⦃fl : Float64 R⦄ where
  unfoldable pub proceed : Event F R → Calls F R → Calls F R
  proceed (goes_on i now) c =
      let (stage, s) = go_on dec now (c.stages i) c.shared in
      record { stages = λ k. ite (ℕ_discrete k i) stage (c.stages k); shared = s }
  proceed (changes s) c = record c { shared = s }

  unfoldable pub proceed_all : List (Event F R) → Calls F R → Calls F R
  proceed_all [] c = c
  proceed_all (e ∷ es) c = proceed_all es (proceed e c)

  remaining-go_on :
      (now : ℕ) (stage : Stage F) (s : Shared F R)
      → remaining (go_on dec now stage s).0 ≤ remaining stage - 1
  unfolding go_on Map.get
  remaining-go_on now (asks f) s = ground arith
  remaining-go_on now (creates f) s = omega arith
  remaining-go_on now (holds p) s = omega arith
  remaining-go_on now (answered herd) s = omega arith

  remaining-proceed :
      (i j now : ℕ) (c : Calls F R)
      → remaining ((proceed (goes_on j now) c).stages i)
        ≤ remaining (c.stages i) - ite (ℕ_discrete i j) 1 0
  unfolding proceed
  remaining-proceed i j now c =
      elim (ℕ_discrete i j)
        as (λ d.
          remaining (ite d (go_on dec now (c.stages j) c.shared).0 (c.stages i))
          ≤ remaining (c.stages i) - ite d 1 0) [
            | yes e ↦ omega (
              arith,
              remaining-go_on now (c.stages j) c.shared,
              ap (λ k. remaining (c.stages k)) e,
            )
            | no _ ↦ omega arith
          ]

  remaining-proceed_all :
      (es : List (Event F R)) (i : ℕ) (c : Calls F R)
      → remaining ((proceed_all es c).stages i) ≤ remaining (c.stages i) - turns_of i es
  unfolding proceed_all turns_of proceed
  remaining-proceed_all [] i c = omega arith
  remaining-proceed_all (goes_on j now ∷ es) i c =
      let rest = remaining-proceed_all es i (proceed (goes_on j now) c) in
      elim (ℕ_discrete i j)
          as (λ d.
            remaining ((proceed (goes_on j now) c).stages i) ≤ remaining (c.stages i) - ite d 1 0
            → remaining ((proceed_all es (proceed (goes_on j now) c)).stages i)
              ≤ remaining (c.stages i) - ite d (suc (turns_of i es)) (turns_of i es)) [
                | yes _ ↦ λ h. omega (arith, h, rest)
                | no _ ↦ λ h. omega (arith, h, rest)
              ]
        (remaining-proceed i j now c)
  remaining-proceed_all (changes s ∷ es) i c = remaining-proceed_all es i (record c { shared = s })

  -- A call that has gone on three times has answered, however the steps of other calls and any
  -- other changes of the state come between its own: no call waits for another.
  pub calls_end :
      (es : List (Event F R)) (i : ℕ) (c : Calls F R)
      → 3 ≤ turns_of i es
      → (herd : Bool) × ((proceed_all es c).stages i ≡ answered herd)
  calls_end es i c h =
      at_end _ (omega (arith, h, remaining-proceed_all es i c, at_most_3 (c.stages i)))
