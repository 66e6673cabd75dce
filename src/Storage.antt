-- ===== src/Storage.antt =====
-- storage/inmemory.go: the `sync.Map` of the in-memory storage is a table of the processed flags.
pub mod Laws
pub mod Views
pub mod Redis
pub mod RedisLaws
pub mod RedisViews
pub mod Options
mod RedisTests
mod Tests
use anicetus.Prelude.{Bool, true, false, Option, none, some, Table, no_entries, write, erase}
use anicetus.Errors.{Result, ok}
use anicetus.Gatekeeper.{GatekeeperStorage}

pub record InMemory (F : Type 0) : Type 0 where
  pub flags : Table F Bool

unfoldable pub new_in_memory : {F : Type 0} → InMemory F
new_in_memory = record { flags = no_entries }

module _ {F : Type 0} (dec : Discrete F) where
  unfoldable pub exists : F → InMemory F → Result Bool × InMemory F
  exists fingerprint s = (ok (elim (s.flags fingerprint) [ none ↦ false | some _ ↦ true ]), s)

  unfoldable pub processed : F → InMemory F → Result Bool × InMemory F
  processed fingerprint s =
      (elim (s.flags fingerprint) [ none ↦ ok false | some flag ↦ ok flag ], s)

  unfoldable pub store : F → Bool → InMemory F → Result (Unit {0}) × InMemory F
  store fingerprint processed s =
      (ok tt, record s { flags = write dec s.flags fingerprint processed })

  unfoldable pub remove : F → InMemory F → Result (Unit {0}) × InMemory F
  remove fingerprint s = (ok tt, record s { flags = erase dec s.flags fingerprint })

  abbrev pub in_memory : GatekeeperStorage F (InMemory F)
  in_memory = record { exists = exists; processed = processed; store = store; remove = remove }
