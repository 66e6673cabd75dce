-- ===== src/Detector/Shared.antt =====
-- `IsThunderingHerd` of detector/tokenbucket_inmemory.go for many goroutines: `Get`, `Set` and
-- `Allow` are steps of their own, and the map holds pointers to the limiters. What the
-- fingerprint's other methods change is not part of this state.
pub mod View
pub mod Alone
pub mod Race
pub mod Progress
use anicetus.Prelude.{ℕ, suc, Bool, not, Option, none, some, List, [], ◌∷◌, ite, ℕ_discrete}
use anicetus.Prelude.Int.{ℤ}
use anicetus.Mapexp.Map
use anicetus.Mapexp.Map.{Map}
use anicetus.Rate.Float.{Float64}
use anicetus.Rate.Limiter.{Limiter, every, new_limiter, allow}

-- The limiter behind each pointer, and the next pointer.
pub record Shared (F R : Type 0) : Type 0 where
  pub heap : ℕ → Limiter R
  pub next : ℕ
  pub limiters : Map F ℕ
  pub limiters_burst : ℤ
  pub limiters_interval : ℤ

-- How far a call is: before `Get`, before `NewLimiter` and `Set`, before `Allow`, and at its end.
pub data Stage (F : Type 0) : Type 0 where
  asks creates : F → Stage F
  holds : ℕ → Stage F
  answered : Bool → Stage F

abbrev pub put_limiter : {R : Type 0} → (ℕ → Limiter R) → ℕ → Limiter R → ℕ → Limiter R
put_limiter heap pointer limiter p = ite (ℕ_discrete p pointer) limiter (heap p)

module _ {F R : Type 0} (dec : Discrete F) ⦃fl : Float64 R⦄ where
  -- The next step of a call.
  unfoldable pub go_on : ℕ → Stage F → Shared F R → Stage F × Shared F R
  go_on now (asks f) s =
      let (found, limiters) = Map.get dec now f s.limiters in
      (
        elim found [ none ↦ creates f | some pointer ↦ holds pointer ],
        record s { limiters = limiters },
      )
  go_on now (creates f) s = (
    holds s.next,
    record s {
      heap = put_limiter s.heap s.next (new_limiter (every s.limiters_interval) s.limiters_burst);
      next = suc s.next;
      limiters = Map.set dec now f s.next s.limiters;
    },
  )
  go_on now (holds pointer) s =
      let (allowed, limiter) = allow now (s.heap pointer) in
      (answered (not allowed), record s { heap = put_limiter s.heap pointer limiter })
  go_on now (answered herd) s = (answered herd, s)

  -- Each of the calls goes on by one step.
  unfoldable pub go_round : ℕ → List (Stage F) → Shared F R → List (Stage F) × Shared F R
  go_round now [] s = ([], s)
  go_round now (stage ∷ stages) s =
      let (stage', s1) = go_on now stage s in
      let (stages', s2) = go_round now stages s1 in (stage' ∷ stages', s2)
