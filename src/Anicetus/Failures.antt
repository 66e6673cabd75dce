-- ===== src/Anicetus/Failures.antt =====
-- Where the errors of `Evaluate` in anicetus.go come from.
use anicetus.Prelude.{◌↔◌, ◌≢◌, false, none, some, ◌≡◌, ◌⊎◌, arith}
use anicetus.Errors.{Error, root, Result, err}
use anicetus.Status.{failed}
use anicetus.Gatekeeper
use anicetus.Gatekeeper.{GatekeeperStorage, Verdict, analyze}
use anicetus.Anicetus.{Detector, Anicetus, evaluate}

-- The call returned an error with the same root.
abbrev pub Raised : {A S : Type 0} → Error → Result A × S → Type 0
Raised e r = (cause : Error) × (r.0 ≡ err cause) × (root e ≡ root cause)

module _ {R F D S : Type 0} (print : R → F) (detector : Detector F D)
    (storage : GatekeeperStorage F S) (r : R) (t : Anicetus D S) where
  abbrev f : F
  f = print r

  abbrev pub HasCause : Error → Type 0
  HasCause e =
      Raised e (detector.is_cool_down f t.detector)
      ⊎ Raised e (detector.is_thundering_herd f (detector.is_cool_down f t.detector).1)
      ⊎ Raised e (storage.remove f t.storage)
      ⊎ Raised e (storage.exists f t.storage)
      ⊎ Raised e (storage.processed f (storage.exists f t.storage).1)
      ⊎ Raised e (storage.store f false (storage.exists f t.storage).1)

  -- An error of `Evaluate` wraps the error that a call of its detector or of its storage returned,
  -- and the status is `failed` exactly when there is an error.
  pub evaluate_error :
      let ((status, error), _) = evaluate print detector storage r t in
      ((e : Error) → error ≡ some e → HasCause e) × ((status ≡ failed) ↔ (error ≢ none))
  unfolding evaluate analyze Gatekeeper.remove root
  evaluate_error = (λ e h. ground arith, (λ p. ground arith, λ p. ground arith))
