-- ===== src/Gatekeeper/Interleaving.antt =====
-- `analyze` of gatekeeper.go for many goroutines: each call to the storage is a step of its own,
-- and the steps of the calls with one fingerprint come in any order.
use anicetus.Prelude.{
  ℕ, List, [], ◌∷◌, Bool, true, false, Option, ◌≡◌, ◌≢◌, refl, arith, ite, ℕ_discrete,
  if◌then◌else◌,
}
use mathlib.Core.Path.{subst}
use anicetus.Errors.{Result, ok, err, check}
use anicetus.Status.{process, wait, open_gates}
use anicetus.Gatekeeper.{GatekeeperStorage, Verdict, answer, fail, analyze, store}
use anicetus.Gatekeeper.Contract.{IsStorage, is_some}

-- How far a call of `analyze` is: before `Exists`, after it, and at its end.
pub data Phase : Type 0 where
  idle : Phase
  checked : Bool → Phase
  answered : Verdict → Phase

abbrev ends : {S : Type 0} → Verdict × S → Phase × S
ends (v, s) = (answered v, s)

-- All calls of `analyze` with the fingerprint, by number, over the storage that they share.
pub record Calls (S : Type 0) : Type 0 where
  pub phases : ℕ → Phase
  pub shared : S

-- A call goes on, or a `RequestDone` stores the flag.
pub data Event : Type 0 where
  goes_on : ℕ → Event
  marks : Event

module _ {F S : Type 0} (storage : GatekeeperStorage F S) (fingerprint : F) where
  -- The next call to the storage.
  unfoldable pub resume : Phase → S → Phase × S
  resume idle s =
      check (storage.exists fingerprint s)
        (λ e s. ends (fail "failed to check if fingerprint exists" e s))
        λ exists s. (checked exists, s)
  resume (checked true) s = ends (
      check (storage.processed fingerprint s) (fail "failed to get fingerprint processed flag")
        λ processed s. answer (if processed then open_gates else wait) s)
  resume (checked false) s = ends (
      check (storage.store fingerprint false s) (fail "failed to store fingerprint")
        λ _ s. answer process s)
  resume (answered v) s = (answered v, s)

  unfoldable pub happen : Event → Calls S → Calls S
  happen (goes_on i) c =
      let (phase, s) = resume (c.phases i) c.shared in
      record { phases = λ k. ite (ℕ_discrete k i) phase (c.phases k); shared = s }
  happen marks c = record c { shared = (store storage fingerprint true c.shared).1 }

  unfoldable pub interleave : List Event → Calls S → Calls S
  interleave [] c = c
  interleave (e ∷ es) c = interleave es (happen e c)

  alone_at :
      (s : S) (r : Result Bool)
      → (storage.exists fingerprint s).0 ≡ r
      → let (phase, s1) = resume idle s in
        resume phase s1
        ≡ (answered (analyze storage fingerprint s).0, (analyze storage fingerprint s).1)
  unfolding resume analyze
  alone_at s (ok true) p = ground arith
  alone_at s (ok false) p = ground arith
  alone_at s (err e) p = ground arith

  -- Alone, the two steps of a call are `analyze`.
  pub analyze-resume :
      (s : S)
      → let (phase, s1) = resume idle s in
        resume phase s1
        ≡ (answered (analyze storage fingerprint s).0, (analyze storage fingerprint s).1)
  analyze-resume s = alone_at s _ refl

  module _ (flag : S → F → Option Bool) (laws : IsStorage storage flag)
      (stores : (b : Bool) (s : S) → (storage.store fingerprint b s).0 ≡ ok tt) where
    abbrev IsHeld : S → Type 0
    IsHeld s = is_some (flag s fingerprint) ≡ true

    abbrev pub IsLate : Phase → Type 0
    IsLate idle = Unit
    IsLate (checked exists) = exists ≡ true
    IsLate (answered v) = v.0 ≢ process

    resume-IsHeld : (p : Phase) (s : S) → IsHeld s → IsHeld (resume p s).1
    unfolding resume
    resume-IsHeld idle s h = ground (arith, laws.exists_same fingerprint s)
    resume-IsHeld (checked true) s h = ground (arith, laws.processed_same fingerprint s)
    resume-IsHeld (checked false) s h =
        ground (arith, laws.store_ok fingerprint false s (stores false s))
    resume-IsHeld (answered v) s h = h

    resume-IsLate : (p : Phase) (s : S) → IsHeld s → IsLate p → IsLate (resume p s).0
    unfolding resume
    resume-IsLate idle s h l =
        ground (arith, laws.exists_ok fingerprint s true, laws.exists_ok fingerprint s false)
    resume-IsLate (checked true) s h l = ground arith
    resume-IsLate (checked false) s h l = ground arith
    resume-IsLate (answered v) s h l = l

    happen-IsHeld : (e : Event) (c : Calls S) → IsHeld c.shared → IsHeld (happen e c).shared
    unfolding happen store
    happen-IsHeld (goes_on i) c h = resume-IsHeld (c.phases i) c.shared h
    happen-IsHeld marks c h =
        ground (arith, laws.store_ok fingerprint true c.shared (stores true c.shared))

    happen-IsLate :
        (e : Event) (c : Calls S) (i : ℕ)
        → IsHeld c.shared
        → IsLate (c.phases i)
        → IsLate ((happen e c).phases i)
    unfolding happen
    happen-IsLate (goes_on j) c i h l =
        elim (ℕ_discrete i j)
          as (λ d. IsLate (ite d (resume (c.phases j) c.shared).0 (c.phases i))) [
            | yes p ↦ resume-IsLate (c.phases j) c.shared h (subst (λ k. IsLate (c.phases k)) p l)
            | no _ ↦ l
          ]
    happen-IsLate marks c i h l = l

    -- A call that has not asked yet whether the fingerprint exists when it is stored, or has found
    -- that it does, is never answered process, however the steps of other calls and of
    -- `RequestDone` come between its own.
    pub interleave-IsLate :
        (es : List Event) (c : Calls S) (i : ℕ)
        → IsHeld c.shared
        → IsLate (c.phases i)
        → IsLate ((interleave es c).phases i)
    unfolding interleave
    interleave-IsLate [] c i h l = l
    interleave-IsLate (e ∷ es) c i h l =
        interleave-IsLate es (happen e c) i (happen-IsHeld e c h) (happen-IsLate e c i h l)
