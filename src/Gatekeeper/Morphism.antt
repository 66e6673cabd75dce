-- ===== src/Gatekeeper/Morphism.antt =====
-- What the gatekeeper does on two storages where one is a view of the other.
use anicetus.Prelude.{Bool, false, ◌≡◌, arith}
use anicetus.Gatekeeper.{GatekeeperStorage, analyze}

-- An answer with a view of the state.
abbrev pub seen : {A S T : Type 0} → (S → T) → A × S → A × T
seen view (a, s) = (a, view s)

-- Each call answers the same on the view, and leaves a view of what it leaves.
pub record IsView {F S T : Type 0} (storage : GatekeeperStorage F S)
    (viewed : GatekeeperStorage F T) (view : S → T) : Type 0 where
  pub exists_seen : (f : F) (s : S) → seen view (storage.exists f s) ≡ viewed.exists f (view s)
  pub processed_seen :
      (f : F) (s : S) → seen view (storage.processed f s) ≡ viewed.processed f (view s)
  pub store_seen :
      (f : F) (b : Bool) (s : S) → seen view (storage.store f b s) ≡ viewed.store f b (view s)
  pub remove_seen : (f : F) (s : S) → seen view (storage.remove f s) ≡ viewed.remove f (view s)

module _ {F S T : Type 0} (storage : GatekeeperStorage F S) (viewed : GatekeeperStorage F T)
    (view : S → T) (laws : IsView storage viewed view) where
  pub seen-analyze : (f : F) (s : S) → seen view (analyze storage f s) ≡ analyze viewed f (view s)
  unfolding analyze
  seen-analyze f s = ground (
    arith,
    laws.exists_seen f s,
    laws.processed_seen f (storage.exists f s).1,
    laws.store_seen f false (storage.exists f s).1,
  )
