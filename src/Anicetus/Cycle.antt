-- ===== src/Anicetus/Cycle.antt =====
-- What ends a herd in anicetus.go: `RequestDone` and `Cleanup`.
use anicetus.Prelude.{
  [], ◌∷◌, inl, inr, refl, ◌≡◌, List, Option, ◌∷◌, All, ◌≢◌, ◌∙◌, some, none, ◌⊎◌, false, arith,
  inr, inl,
}
use anicetus.Errors.{Error, ok}
use anicetus.Status.{Status, failed, process, wait, open_gates}
use anicetus.Gatekeeper
use anicetus.Gatekeeper.{GatekeeperStorage}
use anicetus.Gatekeeper.Contract.{IsStorage}
use anicetus.Anicetus.{Detector, Anicetus, request_done, cleanup, Bool, true}
use anicetus.Anicetus.Verdicts.{Means, held, cooling, herding}
use anicetus.Anicetus.Leader.{
  Call, evaluates, dones, cleans, step, status_of, evaluates_frame, dones_frame, cleans_frame,
  status_of-Means,
}

abbrev pub request_of : {R : Type 0} → Call R → R
request_of (evaluates r) = r
request_of (dones r) = r
request_of (cleans r) = r

module _ {R F D S : Type 0} (dec : Discrete F) (print : R → F) (detector : Detector F D)
    (storage : GatekeeperStorage F S) where
  unfoldable pub run : Anicetus D S → List (Call R) → Anicetus D S
  run t [] = t
  run t (c ∷ cs) = run (step dec print detector storage t c) cs

  -- Every call of the history has another fingerprint.
  abbrev pub AreOthers : F → List (Call R) → Type 0
  AreOthers f = All (λ c. print (request_of c) ≢ f)

  module _ (flag : S → F → Option Bool) (laws : IsStorage storage flag) where
    step_frame :
        (f : F) (t : Anicetus D S) (c : Call R)
        → print (request_of c) ≢ f
        → flag (step dec print detector storage t c).storage f ≡ flag t.storage f
    step_frame f t (evaluates r) ne = evaluates_frame dec print detector storage flag laws f r t ne
    step_frame f t (dones r) ne = dones_frame dec print detector storage flag laws f r t ne
    step_frame f t (cleans r) ne = cleans_frame dec print detector storage flag laws f r t ne

    run_frame :
        (f : F) (t : Anicetus D S) (cs : List (Call R))
        → AreOthers f cs
        → flag (run t cs).storage f ≡ flag t.storage f
    unfolding run
    run_frame f t [] o = refl
    run_frame f t (c ∷ cs) (ne, o) =
        run_frame f (step dec print detector storage t c) cs o ∙ step_frame f t c ne

    passes_held :
        (r : R) (t t' : Anicetus D S) (error : Option Error) (s : Status)
        → Means print detector storage flag r t t' error s
        → held print detector storage flag r t ≡ some true
        → (s ≡ open_gates) ⊎ (s ≡ failed)
    passes_held r t t' error Status.none m h = absurd m
    passes_held r t t' error failed m h = inr refl
    passes_held r t t' error process m h = ground arith
    passes_held r t t' error wait m h = ground arith
    passes_held r t t' error open_gates m h = inl refl

    leads_unheld :
        (r : R) (t t' : Anicetus D S) (error : Option Error) (s : Status)
        → Means print detector storage flag r t t' error s
        → held print detector storage flag r t ≡ none
        → cooling print detector storage flag r t ≡ ok false
        → herding print detector storage flag r t ≡ ok true
        → (s ≡ process) ⊎ (s ≡ failed)
    leads_unheld r t t' error Status.none m h c d = absurd m
    leads_unheld r t t' error failed m h c d = inr refl
    leads_unheld r t t' error process m h c d = inl refl
    leads_unheld r t t' error wait m h c d = ground arith
    leads_unheld r t t' error open_gates m h c d = ground arith

    pub held-request_done :
        (r : R) (t : Anicetus D S)
        → (request_done print detector storage r t).0 ≡ ok tt
        → held print detector storage flag r (request_done print detector storage r t).1 ≡ some true
    unfolding request_done Gatekeeper.store
    held-request_done r t h = ground (arith, laws.store_ok (print r) true t.storage)

    pub held-cleanup :
        (r : R) (t : Anicetus D S)
        → (cleanup print detector storage r t).0 ≡ ok tt
        → held print detector storage flag r (cleanup print detector storage r t).1 ≡ none
    unfolding cleanup Gatekeeper.remove
    held-cleanup r t h = ground (arith, laws.remove_ok (print r) t.storage)

    -- After a `RequestDone` that succeeds, and any calls with other fingerprints, the next
    -- `Evaluate` with the fingerprint lets its request pass or fails: nobody waits, and there is no
    -- new leader.
    pub done_releases :
        (r : R) (t : Anicetus D S) (cs : List (Call R))
        → (request_done print detector storage r t).0 ≡ ok tt
        → AreOthers (print r) cs
        → let last = run (request_done print detector storage r t).1 cs in
          let s = status_of dec print detector storage last r in (s ≡ open_gates) ⊎ (s ≡ failed)
    done_releases r t cs h o =
        let last = run (request_done print detector storage r t).1 cs in
        passes_held r last (step dec print detector storage last (evaluates r)) _
          (status_of dec print detector storage last r)
          (status_of-Means dec print detector storage flag laws r last refl)
          (run_frame (print r) _ cs o ∙ held-request_done r t h)

    -- After a `Cleanup` that succeeds, and any calls with other fingerprints, the next `Evaluate`
    -- with the fingerprint, if the detector sees a herd and no cooldown, makes its request the new
    -- leader or fails.
    pub cleanup_restarts :
        (r : R) (t : Anicetus D S) (cs : List (Call R))
        → (cleanup print detector storage r t).0 ≡ ok tt
        → AreOthers (print r) cs
        → let last = run (cleanup print detector storage r t).1 cs in
          cooling print detector storage flag r last ≡ ok false
          → herding print detector storage flag r last ≡ ok true
          → let s = status_of dec print detector storage last r in (s ≡ process) ⊎ (s ≡ failed)
    cleanup_restarts r t cs h o calm herd =
        let last = run (cleanup print detector storage r t).1 cs in
        leads_unheld r last (step dec print detector storage last (evaluates r)) _
          (status_of dec print detector storage last r)
          (status_of-Means dec print detector storage flag laws r last refl)
          (run_frame (print r) _ cs o ∙ held-cleanup r t h) calm herd

    held-passed :
        (r : R) (t t' : Anicetus D S) (error : Option Error) (s : Status)
        → Means print detector storage flag r t t' error s
        → s ≡ open_gates
        → cooling print detector storage flag r t ≡ ok false
        → herding print detector storage flag r t ≡ ok false
        → held print detector storage flag r t' ≡ none
    held-passed r t t' error Status.none m p c d = absurd m
    held-passed r t t' error failed m p c d = cc p
    held-passed r t t' error process m p c d = cc p
    held-passed r t t' error wait m p c d = cc p
    held-passed r t t' error open_gates m p c d = ground arith

    -- After an `Evaluate` that passes where the detector sees neither a cooldown nor a herd, and
    -- any calls with other fingerprints, the next `Evaluate` with the fingerprint, if the detector
    -- sees a herd and no cooldown, makes its request the leader or fails, also where an earlier
    -- leader has not finished yet: the herd gets a second one.
    pub pass_restarts :
        (r : R) (t : Anicetus D S) (cs : List (Call R))
        → status_of dec print detector storage t r ≡ open_gates
        → cooling print detector storage flag r t ≡ ok false
        → herding print detector storage flag r t ≡ ok false
        → AreOthers (print r) cs
        → let last = run (step dec print detector storage t (evaluates r)) cs in
          cooling print detector storage flag r last ≡ ok false
          → herding print detector storage flag r last ≡ ok true
          → let s = status_of dec print detector storage last r in (s ≡ process) ⊎ (s ≡ failed)
    pass_restarts r t cs passes no_cooldown no_herd o calm herd =
        let t' = step dec print detector storage t (evaluates r) in
        let last = run t' cs in
        let removed =
          held-passed r t t' _ (status_of dec print detector storage t r)
            (status_of-Means dec print detector storage flag laws r t refl) passes no_cooldown
            no_herd in
        leads_unheld r last (step dec print detector storage last (evaluates r)) _
          (status_of dec print detector storage last r)
          (status_of-Means dec print detector storage flag laws r last refl)
          (run_frame (print r) _ cs o ∙ removed) calm herd
