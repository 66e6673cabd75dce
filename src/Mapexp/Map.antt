-- ===== src/Mapexp/Map.antt =====
-- internal/mapexp/map.go. The methods take what the one `time.Now()` below them returns. `tick` is
-- one round of the loop in `start`. Each is one step here; Sections has a step for each critical
-- section.
use anicetus.Prelude.{
  ℕ, zero, suc, List, [], ◌∷◌, Option, none, some, Table, no_entries, write, erase,
}
use anicetus.Prelude.Int.{ℤ, pos, negsuc}
use anicetus.Mapexp.Queue.{ExpirationQueue, new_expiration_queue, add, renew, purge}

pub record Map (K V : Type 0) : Type 0 where
  pub items : Table K V
  pub expiration_queue : ExpirationQueue K

module _ {K V : Type 0} where
  -- `none` is the panic of `time.NewTicker` at a duration that is not positive.
  unfoldable pub new : ℤ → Option (Map K V)
  new (pos (suc n)) =
      some (record { items = no_entries; expiration_queue = new_expiration_queue (suc n) })
  new (pos zero) = none
  new (negsuc n) = none

  module _ (dec : Discrete K) where
    unfoldable pub set : ℕ → K → V → Map K V → Map K V
    set now key value m = record {
      items = write dec m.items key value;
      expiration_queue = add dec now key m.expiration_queue;
    }

    -- The value and `ok` as an option.
    unfoldable pub get : ℕ → K → Map K V → Option V × Map K V
    get now key m =
        (m.items key, record m { expiration_queue = renew dec now key m.expiration_queue })

    unfoldable pub delete : K → Map K V → Map K V
    delete key m = record m { items = erase dec m.items key }

    unfoldable pub delete_all : List K → Table K V → Table K V
    delete_all [] items = items
    delete_all (key ∷ keys) items = delete_all keys (erase dec items key)

    unfoldable pub tick : ℕ → Map K V → Map K V
    unfolding delete_all purge
    tick now m =
        let (expired, queue) = purge now m.expiration_queue in
        record { items = delete_all expired m.items; expiration_queue = queue }
