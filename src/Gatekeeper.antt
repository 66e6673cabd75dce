-- ===== src/Gatekeeper.antt =====
-- gatekeeper.go: the storage that a gatekeeper works on, and the gatekeeper. A method of the
-- storage takes its state and returns the next one; what a storage reads from its context is part
-- of the state.
pub mod Contract
pub mod Interleaving
pub mod Morphism
use anicetus.Prelude.{Bool, true, false, if◌then◌else◌, Option, none, some}
use anicetus.Errors.{Error, wrap, Result, check}
use anicetus.Status.{Status, failed, process, wait, open_gates}
use Prim.Native.String.{String}

pub record GatekeeperStorage (F S : Type 0) : Type 0 where
  pub exists : F → S → Result Bool × S
  pub processed : F → S → Result Bool × S
  pub store : F → Bool → S → Result (Unit {0}) × S
  pub remove : F → S → Result (Unit {0}) × S

-- `(Status, error)`
abbrev pub Verdict : Type 0
Verdict = Status × Option Error

module _ {S : Type 0} where
  abbrev pub answer : Status → S → Verdict × S
  answer status s = ((status, none), s)

  abbrev pub fail : String → Error → S → Verdict × S
  fail text e s = ((failed, some (wrap text e)), s)

module _ {F S : Type 0} (storage : GatekeeperStorage F S) where
  unfoldable pub analyze : F → S → Verdict × S
  analyze fingerprint s =
      check (storage.exists fingerprint s) (fail "failed to check if fingerprint exists")
        λ exists s1.
          if exists
          then (check (storage.processed fingerprint s1)
              (fail "failed to get fingerprint processed flag")
              λ processed s2. answer (if processed then open_gates else wait) s2)
          else (check (storage.store fingerprint false s1) (fail "failed to store fingerprint")
              λ _ s2. answer process s2)

  unfoldable pub store : F → Bool → S → Result (Unit {0}) × S
  store fingerprint processed s = storage.store fingerprint processed s

  unfoldable pub remove : F → S → Result (Unit {0}) × S
  remove fingerprint s = storage.remove fingerprint s
