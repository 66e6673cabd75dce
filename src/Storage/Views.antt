-- ===== src/Storage/Views.antt =====
-- What a storage that does not fail is to anicetus.go: the storage in memory with its flags.
use anicetus.Prelude.{Bool, Option, ◌≡◌, sym, fun_ext, List, arith}
use anicetus.Errors.{Result, ok}
use anicetus.Gatekeeper.{GatekeeperStorage}
use anicetus.Gatekeeper.Contract.{IsStorage}
use anicetus.Gatekeeper.Morphism.{IsView}
use anicetus.Anicetus.{Detector, Anicetus}
use anicetus.Anicetus.Leader.{Call}
use anicetus.Anicetus.Storages.{outcomes, outcomes_same, on_view}
use anicetus.Storage.{InMemory, in_memory, exists, processed, store, remove}
use mathlib.Core.Path.{ap₂}

-- No call returns an error.
pub record IsReliable {F S : Type 0} (storage : GatekeeperStorage F S) : Type 0 where
  pub exists_works : (f : F) (s : S) → (b : Bool) × ((storage.exists f s).0 ≡ ok b)
  pub processed_works : (f : F) (s : S) → (b : Bool) × ((storage.processed f s).0 ≡ ok b)
  pub store_works : (f : F) (b : Bool) (s : S) → (storage.store f b s).0 ≡ ok tt
  pub remove_works : (f : F) (s : S) → (storage.remove f s).0 ≡ ok tt

module _ {F S : Type 0} (dec : Discrete F) (storage : GatekeeperStorage F S)
    (flag : S → F → Option Bool) (laws : IsStorage storage flag) (works : IsReliable storage) where
  abbrev pub flags_of : S → InMemory F
  flags_of s = record { flags = flag s }

  exists_same : (f : F) (s : S) → (storage.exists f s).0 ≡ (exists dec f (flags_of s)).0
  unfolding exists
  exists_same f s = let (b, e) = works.exists_works f s in ground (arith, e, laws.exists_ok f s b e)

  processed_same : (f : F) (s : S) → (storage.processed f s).0 ≡ (processed dec f (flags_of s)).0
  unfolding processed
  processed_same f s =
      let (b, e) = works.processed_works f s in ground (arith, e, laws.processed_ok f s b e)

  stored_same :
      (f : F) (b : Bool) (s : S) (g : F)
      → flag (storage.store f b s).1 g ≡ (store dec f b (flags_of s)).1.flags g
  unfolding store
  stored_same f b s g = elim (dec g f) [
    | yes e ↦ ground (arith, e, laws.store_ok f b s (works.store_works f b s))
    | no ne ↦ ground (arith, ne, laws.store_frame f g b s (λ e. ne (sym e)))
  ]

  removed_same :
      (f : F) (s : S) (g : F)
      → flag (storage.remove f s).1 g ≡ (remove dec f (flags_of s)).1.flags g
  unfolding remove
  removed_same f s g = elim (dec g f) [
    | yes e ↦ ground (arith, e, laws.remove_ok f s (works.remove_works f s))
    | no ne ↦ ground (arith, ne, laws.remove_frame f g s (λ e. ne (sym e)))
  ]

  abbrev answered : {A : Type 0} → Result A → (F → Option Bool) → Result A × InMemory F
  answered r flags = (r, record { flags = flags })

  in_memory-IsView : IsView storage (in_memory dec) flags_of
  unfolding exists processed store remove
  in_memory-IsView = record {
    exists_seen = λ f s. ap₂ answered (exists_same f s) (laws.exists_same f s);
    processed_seen = λ f s. ap₂ answered (processed_same f s) (laws.processed_same f s);
    store_seen = λ f b s. ap₂ answered (works.store_works f b s) (fun_ext (stored_same f b s));
    remove_seen = λ f s. ap₂ answered (works.remove_works f s) (fun_ext (removed_same f s));
  }

  -- On a storage that keeps its contract and does not fail, with any detector, all calls of a
  -- history return what they return on the storage in memory with the same flags.
  pub outcomes_as_in_memory :
      {R D : Type 0} (print : R → F) (detector : Detector F D) (cs : List (Call R))
      (t : Anicetus D S)
      → outcomes print detector storage t cs
        ≡ outcomes print detector (in_memory dec) (on_view flags_of t) cs
  outcomes_as_in_memory print detector cs t =
      outcomes_same print detector storage (in_memory dec) flags_of in_memory-IsView cs t
