-- ===== src/Gatekeeper/Contract.antt =====
-- What gatekeeper.go asks of a `GatekeeperStorage`, and what `analyze` then does.
use anicetus.Prelude.{◌⊎◌, Bool, true, false, Option, none, some, ◌≡◌, ◌≢◌, arith}
use anicetus.Errors.{ok, Error}
use anicetus.Status.{Status, process, wait, open_gates}
use anicetus.Gatekeeper.{GatekeeperStorage, Verdict, analyze, failed}

abbrev pub is_some : {A : Type 0} → Option A → Bool
is_some none = false
is_some (some a) = true

abbrev pub is_true : Option Bool → Bool
is_true none = false
is_true (some b) = b

-- `flag s f` is what the state holds for the fingerprint. A call that returns an error may leave
-- the flag of its own fingerprint changed or not, and no call changes the flag of another one.
pub record IsStorage {F S : Type 0} (storage : GatekeeperStorage F S) (flag : S → F → Option Bool)
    : Type 0 where
  pub exists_ok :
      (f : F) (s : S) (b : Bool) → (storage.exists f s).0 ≡ ok b → b ≡ is_some (flag s f)
  pub exists_same : (f : F) (s : S) → flag (storage.exists f s).1 ≡ flag s
  pub processed_ok :
      (f : F) (s : S) (b : Bool) → (storage.processed f s).0 ≡ ok b → b ≡ is_true (flag s f)
  pub processed_same : (f : F) (s : S) → flag (storage.processed f s).1 ≡ flag s
  pub store_ok :
      (f : F) (b : Bool) (s : S)
      → (storage.store f b s).0 ≡ ok tt
      → flag (storage.store f b s).1 f ≡ some b
  pub store_frame : (f g : F) (b : Bool) (s : S) → f ≢ g → flag (storage.store f b s).1 g ≡ flag s g
  pub remove_ok :
      (f : F) (s : S) → (storage.remove f s).0 ≡ ok tt → flag (storage.remove f s).1 f ≡ none
  pub remove_frame : (f g : F) (s : S) → f ≢ g → flag (storage.remove f s).1 g ≡ flag s g

-- The answer for a fingerprint in a thundering herd: the first request is processed, the next ones
-- wait, and after the first is done all pass.
abbrev pub herd_answer : Option Bool → Status
herd_answer none = process
herd_answer (some false) = wait
herd_answer (some true) = open_gates

abbrev pub herd_flag : Option Bool → Option Bool
herd_flag none = some false
herd_flag (some b) = some b

abbrev pub Decided : {F S : Type 0} → (S → F → Option Bool) → F → S → Verdict × S → Type 0
Decided flag f s ((status, error), s') =
    ((error ≡ none) × (status ≡ herd_answer (flag s f)) × (flag s' f ≡ herd_flag (flag s f)))
    ⊎ ((status ≡ failed) × (e : Error) × (error ≡ some e))

module _ {F S : Type 0} (storage : GatekeeperStorage F S) (flag : S → F → Option Bool)
    (laws : IsStorage storage flag) where
  open laws use {
    exists_ok, exists_same, processed_ok, processed_same, store_ok, store_frame, remove_ok,
    remove_frame,
  }

  analyze_decides : (f : F) (s : S) → Decided flag f s (analyze storage f s)
  unfolding analyze
  analyze_decides f s = ground (
    arith,
    exists_ok f s true,
    exists_ok f s false,
    exists_same f s,
    processed_ok f (storage.exists f s).1 true,
    processed_ok f (storage.exists f s).1 false,
    processed_same f (storage.exists f s).1,
    store_ok f false (storage.exists f s).1,
  )

  analyze_frame : (f g : F) (s : S) → f ≢ g → flag (analyze storage f s).1 g ≡ flag s g
  unfolding analyze
  analyze_frame f g s ne = ground (
    arith,
    exists_same f s,
    processed_same f (storage.exists f s).1,
    store_frame f g false (storage.exists f s).1 ne,
  )

  -- On every storage that keeps the contract `analyze` either answers by the flag that the storage
  -- holds for the fingerprint, and records the first request, or fails with an error. The flags of
  -- the other fingerprints stay.
  pub analyze_lem :
      (f : F) (s : S)
      → Decided flag f s (analyze storage f s)
        × ((g : F) → f ≢ g → flag (analyze storage f s).1 g ≡ flag s g)
  analyze_lem f s = (analyze_decides f s, λ g. analyze_frame f g s)
