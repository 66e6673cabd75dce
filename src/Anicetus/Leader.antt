-- ===== src/Anicetus/Leader.antt =====
-- Histories of calls of anicetus.go: one leader for each herd.
use anicetus.Anicetus.Verdicts.{evaluate-Means, Means}
use anicetus.Prelude.{
  refl, Bool, true, false, Option, some, ◌≡◌, ◌≢◌, ◌⊎◌, arith, ite, ℕ, ◌+◌, List, [], ◌∷◌, ◌≤◌, inl,
  if_pos, if_neg, inr, ◌∙◌, none, sym, ap,
}
use anicetus.Status.{Status, process, wait}
use anicetus.Gatekeeper
use anicetus.Gatekeeper.{GatekeeperStorage, Verdict, analyze}
use anicetus.Gatekeeper.Contract.{IsStorage, analyze_lem}
use anicetus.Anicetus.{Detector, Anicetus, evaluate, request_done, cleanup}

pub data Call (R : Type 0) : Type 0 where
  evaluates : R → Call R
  dones : R → Call R
  cleans : R → Call R

abbrev pub is_process : Status → ℕ
is_process process = 1
is_process _ = 0

is_process-le : (s : Status) → is_process s ≤ 1
is_process-le process = omega arith
is_process-le _ = omega arith

none-ne-some : {b : Bool} → ◌≢◌ {A = Option Bool} none (some b)
none-ne-some e = cc

module _ {R F D S : Type 0} (dec : Discrete F) (print : R → F) (detector : Detector F D)
    (storage : GatekeeperStorage F S) where
  unfoldable pub step : Anicetus D S → Call R → Anicetus D S
  step t (evaluates r) = (evaluate print detector storage r t).1
  step t (dones r) = (request_done print detector storage r t).1
  step t (cleans r) = (cleanup print detector storage r t).1

  abbrev pub status_of : Anicetus D S → R → Status
  status_of t r = (evaluate print detector storage r t).0.0

  -- How many calls of `Evaluate` with the fingerprint are answered `process`.
  unfoldable pub leaders : F → Anicetus D S → List (Call R) → ℕ
  leaders f t [] = 0
  leaders f t (evaluates r ∷ cs) =
      ite (dec (print r) f) (is_process (status_of t r)) 0 + leaders f (step t (evaluates r)) cs
  leaders f t (c ∷ cs) = leaders f (step t c) cs

  -- No call with the fingerprint ends its herd: each `Evaluate` says `process` or `wait`, and
  -- neither `RequestDone` nor `Cleanup` is called with it. Calls with other fingerprints are free.
  abbrev pub IsOneHerd : F → Anicetus D S → List (Call R) → Type 0
  IsOneHerd f t [] = Unit
  IsOneHerd f t (evaluates r ∷ cs) =
      (print r ≡ f → (status_of t r ≡ process) ⊎ (status_of t r ≡ wait))
      × IsOneHerd f (step t (evaluates r)) cs
  IsOneHerd f t (dones r ∷ cs) = (print r ≢ f) × IsOneHerd f (step t (dones r)) cs
  IsOneHerd f t (cleans r ∷ cs) = (print r ≢ f) × IsOneHerd f (step t (cleans r)) cs

  module _ (flag : S → F → Option Bool) (laws : IsStorage storage flag) where
    abbrev Herd : F → Anicetus D S → Type 0
    Herd f t = flag t.storage f ≡ some false

    pub evaluates_frame :
        (f : F) (r : R) (t : Anicetus D S)
        → print r ≢ f
        → flag (step t (evaluates r)).storage f ≡ flag t.storage f
    unfolding step evaluate Gatekeeper.remove
    evaluates_frame f r t ne = ground (
      arith,
      laws.remove_frame (print r) f t.storage ne,
      (analyze_lem storage flag laws (print r) t.storage).1 f ne,
    )

    pub dones_frame :
        (f : F) (r : R) (t : Anicetus D S)
        → print r ≢ f
        → flag (step t (dones r)).storage f ≡ flag t.storage f
    unfolding step request_done Gatekeeper.store
    dones_frame f r t ne = ground (arith, laws.store_frame (print r) f true t.storage ne)

    pub cleans_frame :
        (f : F) (r : R) (t : Anicetus D S)
        → print r ≢ f
        → flag (step t (cleans r)).storage f ≡ flag t.storage f
    unfolding step cleanup Gatekeeper.remove
    cleans_frame f r t ne = ground (arith, laws.remove_frame (print r) f t.storage ne)

    pub status_of-Means :
        (r : R) (t : Anicetus D S) {status : Status}
        → status_of t r ≡ status
        → Means print detector storage flag r t
            (step t (evaluates r))
            (evaluate print detector storage r t).0.1
            status
    unfolding step
    status_of-Means r t p = rw (← p) (evaluate-Means print detector storage flag laws r t)

    -- Within its herd a call of `Evaluate` leaves the fingerprint held, and leads only if it was
    -- not.
    evaluates-Herd :
        (f : F) (r : R) (t : Anicetus D S)
        → print r ≡ f
        → (status_of t r ≡ process) ⊎ (status_of t r ≡ wait)
        → Herd f (step t (evaluates r)) × (Herd f t → is_process (status_of t r) ≡ 0)
    unfolding step
    evaluates-Herd f r t e (inl p) =
        let before : flag t.storage (print r) ≡ none = (status_of-Means r t p).3 in
        let after : flag (step t (evaluates r)).storage (print r) ≡ some false =
          (status_of-Means r t p).4 in
        (
          rw (← e) after,
          λ h. absurd (none-ne-some {b = false} (sym before ∙ ap (flag t.storage) e ∙ h)),
        )
    evaluates-Herd f r t e (inr w) =
        let after : flag (step t (evaluates r)).storage (print r) ≡ some false =
          (status_of-Means r t w).4 in
        (rw (← e) after, λ h. rw w)

    leaders-Herd :
        (f : F) (t : Anicetus D S) (cs : List (Call R))
        → Herd f t
        → IsOneHerd f t cs
        → leaders f t cs ≡ 0
    unfolding leaders
    leaders-Herd f t [] h o = refl
    leaders-Herd f t (evaluates r ∷ cs) h (quiet, o) = elim (dec (print r) f) [
      | yes p ↦
          let (h', idle) = evaluates-Herd f r t p (quiet p) in
          rw (if_pos _ p) (omega (arith, idle h, leaders-Herd f (step t (evaluates r)) cs h' o))
      | no p ↦
          rw (if_neg _ p) (
            omega (arith, leaders-Herd f (step t (evaluates r)) cs (evaluates_frame f r t p ∙ h) o))
    ]
    leaders-Herd f t (dones r ∷ cs) h (ne, o) =
        leaders-Herd f (step t (dones r)) cs (dones_frame f r t ne ∙ h) o
    leaders-Herd f t (cleans r ∷ cs) h (ne, o) =
        leaders-Herd f (step t (cleans r)) cs (cleans_frame f r t ne ∙ h) o

    -- In any history in which no call ends the herd of a fingerprint, with any detector and any
    -- storage that keeps its contract, at most one call of `Evaluate` with it is answered
    -- `process`.
    pub one_leader :
        (f : F) (t : Anicetus D S) (cs : List (Call R)) → IsOneHerd f t cs → leaders f t cs ≤ 1
    unfolding leaders
    one_leader f t [] o = omega arith
    one_leader f t (evaluates r ∷ cs) (quiet, o) = elim (dec (print r) f) [
      | yes p ↦
          let (h', _) = evaluates-Herd f r t p (quiet p) in
          rw (if_pos _ p) (
            omega
              (arith, leaders-Herd f (step t (evaluates r)) cs h' o, is_process-le (status_of t r)))
      | no p ↦ rw (if_neg _ p) (omega (arith, one_leader f (step t (evaluates r)) cs o))
    ]
    one_leader f t (dones r ∷ cs) (ne, o) = one_leader f (step t (dones r)) cs o
    one_leader f t (cleans r ∷ cs) (ne, o) = one_leader f (step t (cleans r)) cs o
