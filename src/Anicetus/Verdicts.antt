-- ===== src/Anicetus/Verdicts.antt =====
-- What an answer of `Evaluate` in anicetus.go says of the detector and the storage.
use anicetus.Prelude.{Bool, true, false, Option, none, some, ◌≡◌, ◌⊎◌, refl, arith}
use mathlib.Core.Path.{subst}
use anicetus.Errors.{Error, Result, ok, err, check}
use anicetus.Status.{Status, failed, process, wait, open_gates}
use anicetus.Gatekeeper
use anicetus.Gatekeeper.{GatekeeperStorage, Verdict, analyze}
use anicetus.Gatekeeper.Contract.{IsStorage, analyze_lem}
use anicetus.Anicetus.{Detector, Anicetus, evaluate}

module _ {R F D S : Type 0} (print : R → F) (detector : Detector F D)
    (storage : GatekeeperStorage F S) (flag : S → F → Option Bool) where
  abbrev pub cooling : R → Anicetus D S → Result Bool
  cooling r t = (detector.is_cool_down (print r) t.detector).0

  abbrev pub herding : R → Anicetus D S → Result Bool
  herding r t =
      (detector.is_thundering_herd (print r) (detector.is_cool_down (print r) t.detector).1).0

  abbrev pub held : R → Anicetus D S → Option Bool
  held r t = flag t.storage (print r)

  -- What has to hold for `Evaluate` on `t` to leave `t'` with the status and the error.
  abbrev pub Means : R → Anicetus D S → Anicetus D S → Option Error → Status → Type 0
  Means r t t' error Status.none = ⊥
  Means r t t' error failed = (e : Error) × (error ≡ some e)
  Means r t t' error process =
      (error ≡ none)
      × (cooling r t ≡ ok false)
      × (herding r t ≡ ok true)
      × (held r t ≡ none)
      × (held r t' ≡ some false)
  Means r t t' error wait =
      (error ≡ none)
      × (cooling r t ≡ ok false)
      × (herding r t ≡ ok true)
      × (held r t ≡ some false)
      × (held r t' ≡ some false)
  Means r t t' error open_gates =
      (error ≡ none)
      × ((cooling r t ≡ ok true) × (t'.storage ≡ t.storage)
          ⊎ (cooling r t ≡ ok false) × (herding r t ≡ ok false) × (held r t' ≡ none)
          ⊎ (cooling r t ≡ ok false)
            × (herding r t ≡ ok true)
            × (held r t ≡ some true)
            × (held r t' ≡ some true))

  module _ (laws : IsStorage storage flag) (r : R) (t : Anicetus D S) where
    abbrev MeansAll : Type 0
    MeansAll =
        let ((status, error), t') = evaluate print detector storage r t in Means r t t' error status

    evaluate-Means_calm :
        (m : Result (Unit {0}))
        → cooling r t ≡ ok false
        → herding r t ≡ ok false
        → (storage.remove (print r) t.storage).0 ≡ m
        → MeansAll
    unfolding evaluate Gatekeeper.remove
    evaluate-Means_calm (ok _) p q e = ground (arith, laws.remove_ok (print r) t.storage)
    evaluate-Means_calm (err e') p q e = rw (p, evaluate) (rw (q, check) (rw (e, check) (_, refl)))

    evaluate-Means_at : (c h : Result Bool) → cooling r t ≡ c → herding r t ≡ h → MeansAll
    unfolding evaluate Gatekeeper.remove
    evaluate-Means_at (err e) h p q = rw (p, evaluate) (_, refl)
    evaluate-Means_at (ok true) h p q = ground arith
    evaluate-Means_at (ok false) (err e) p q = rw (p, evaluate) (rw (q, check) (_, refl))
    evaluate-Means_at (ok false) (ok false) p q = evaluate-Means_calm _ p q refl
    evaluate-Means_at (ok false) (ok true) p q =
        ground (arith, analyze_lem storage flag laws (print r) t.storage)

    -- `Evaluate` answers `process` only in a herd whose fingerprint is not held, and then holds it
    -- as not processed; `wait` only in a herd whose fingerprint is held as not processed; and
    -- `open_gates` in a cooldown, with the storage untouched, outside a herd, with the fingerprint
    -- removed, or in a herd whose fingerprint is held as processed. Otherwise it fails with an
    -- error.
    pub evaluate-Means :
        let ((status, error), t') = evaluate print detector storage r t in Means r t t' error status
    evaluate-Means = evaluate-Means_at (cooling r t) (herding r t) refl refl

    pub process_holds :
        (evaluate print detector storage r t).0 ≡ (process, none)
        → held r (evaluate print detector storage r t).1 ≡ some false
    process_holds v =
        (subst (λ v. Means r t (evaluate print detector storage r t).1 v.1 v.0) v evaluate-Means).4
