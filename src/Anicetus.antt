-- ===== src/Anicetus.antt =====
-- anicetus.go: the detector's interface and `Anicetus`. Its state is that of its detector and that
-- of the storage of its gatekeeper, which share nothing. `print` is the method of a
-- `Fingerprinter`.
pub mod Verdicts
pub mod Leader
pub mod Cycle
pub mod Failures
pub mod Storages
mod Tests
use Prim.Native.String.{String}
use anicetus.Prelude.{Bool, true, if◌then◌else◌}
use anicetus.Errors.{wrap, Result, ok, err, check}
use anicetus.Status.{open_gates}
use anicetus.Gatekeeper
use anicetus.Gatekeeper.{GatekeeperStorage, Verdict, answer, fail, analyze}

pub record Detector (F D : Type 0) : Type 0 where
  pub cool_down : F → D → Result (Unit {0}) × D
  pub is_cool_down : F → D → Result Bool × D
  pub is_thundering_herd : F → D → Result Bool × D

pub record Anicetus (D S : Type 0) : Type 0 where
  pub detector : D
  pub storage : S

-- `NewAnicetus`; the gatekeeper of `NewGatekeeper` is its storage.
unfoldable pub new_anicetus : {D S : Type 0} → D → S → Anicetus D S
new_anicetus detector storage = record { detector = detector; storage = storage }

abbrev pub at : {D S A : Type 0} → D → A × S → A × Anicetus D S
at d (a, s) = (a, record { detector = d; storage = s })

-- `return fmt.Errorf(text, err)` or `nil`
abbrev pub wrapping : {S : Type 0} → String → Result (Unit {0}) × S → Result (Unit {0}) × S
wrapping text (ok _, s) = (ok tt, s)
wrapping text (err e, s) = (err (wrap text e), s)

module _ {R F D S : Type 0} (print : R → F) (detector : Detector F D)
    (storage : GatekeeperStorage F S) where
  unfoldable pub evaluate : R → Anicetus D S → Verdict × Anicetus D S
  evaluate f t =
      let fingerprint = print f in
      check (detector.is_cool_down fingerprint t.detector)
        (λ e d. at d (fail "failed to check if fingerprint is in cooldown" e t.storage))
        λ cooldown d1.
          if cooldown
          then at d1 (answer open_gates t.storage)
          else (check (detector.is_thundering_herd fingerprint d1)
              (λ e d. at d (fail "failed to check if fingerprint is a thundering herd" e t.storage))
              λ thundering_herd d2.
                if thundering_herd
                then at d2 (analyze storage fingerprint t.storage)
                else at d2 (
                    check (Gatekeeper.remove storage fingerprint t.storage)
                      (fail "failed to remove fingerprint") λ _ s. answer open_gates s))

  unfoldable pub request_done : R → Anicetus D S → Result (Unit {0}) × Anicetus D S
  request_done f t =
      check (Gatekeeper.store storage (print f) true t.storage)
        (λ e s. (err (wrap "failed to store fingerprint" e), record t { storage = s }))
        λ _ s.
          let (done, d) =
            wrapping "failed to cooldown fingerprint" (detector.cool_down (print f) t.detector) in
          (done, record { detector = d; storage = s })

  unfoldable pub cleanup : R → Anicetus D S → Result (Unit {0}) × Anicetus D S
  cleanup f t =
      at t.detector
        (wrapping "failed to remove fingerprint" (Gatekeeper.remove storage (print f) t.storage))
