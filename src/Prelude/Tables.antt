-- ===== src/Prelude/Tables.antt =====
-- Go maps as functions into `Option`, over keys with a decidable equality.
use mathlib.Core.Logic.{ite}
use mathlib.Core.Option.{Option, none, some}

abbrev pub Table : Type 0 → Type 0 → Type 0
Table K V = K → Option V

module _ {K V : Type 0} where
  abbrev pub no_entries : Table K V
  no_entries k = none

  module _ (dec : Discrete K) where
    -- `m[key] = value`
    abbrev pub write : Table K V → K → V → Table K V
    write m key v k = ite (dec k key) (some v) (m k)

    -- `delete(m, key)`
    abbrev pub erase : Table K V → K → Table K V
    erase m key k = ite (dec k key) none (m k)
