-- ===== src/Mapexp/Stopping.antt =====
-- `Stop` of internal/mapexp/map.go, and the loop of `start`, which it is meant to end.
use anicetus.Prelude.{
  Option-cases, inl, inr, ℕ, Bool, Option, none, some, List, ◌≡◌, arith, if◌then◌else◌,
}
use anicetus.Prelude.Int.{ℤ}
use anicetus.Mapexp.Map
use anicetus.Mapexp.Map.{Map, tick}
use anicetus.Mapexp.Calls.{Call, run}

-- A channel that nothing is sent on.
pub data Channel : Type 0 where
  nil_channel opened closed : Channel

-- `close`, with `none` for its panic.
abbrev pub close : Channel → Option Channel
close nil_channel = none
close opened = some closed
close closed = none

-- A map with its channel.
pub record Stoppable (K V : Type 0) : Type 0 where
  pub map : Map K V
  pub stop : Channel

module _ {K V : Type 0} where
  unfoldable pub new_stoppable : ℤ → Option (Stoppable K V)
  new_stoppable ttl = elim (Map.new {K = K} {V = V} ttl) [
    | none ↦ none
    | some m ↦ some (record { map = m; stop = nil_channel })
  ]

  unfoldable pub stop : Stoppable K V → Option (Stoppable K V)
  stop m = elim (close m.stop) [ none ↦ none | some channel ↦ some (record m { stop = channel }) ]

  -- A turn of the loop when the ticker has ticked, with `none` for the end of the goroutine. Where
  -- the channel is closed as well, `select` takes either.
  unfoldable pub loop_turn :
      Discrete K → (takes_stop : Bool) → ℕ → Stoppable K V → Option (Stoppable K V)
  loop_turn dec takes_stop now m = elim m.stop [
    | closed ↦ if takes_stop then none else some (record m { map = tick dec now m.map })
    | _ ↦ some (record m { map = tick dec now m.map })
  ]

  new_unmade : (ttl : ℤ) (m : Stoppable K V) → new_stoppable ttl ≡ some m → m.stop ≡ nil_channel
  unfolding new_stoppable
  new_unmade ttl m e = elim (Option-cases (Map.new {K = K} {V = V} ttl)) [
    | inl n ↦ ground (arith, n, e)
    | inr (p, n) ↦ ground (arith, n, e)
  ]

  -- After any calls of the other methods on a new map `Stop` panics, and the loop goes on at every
  -- tick.
  stop_panics :
      (dec : Discrete K) (ttl : ℤ) (m : Stoppable K V) (calls : List (Call K V)) (b : Bool)
      (now : ℕ)
      → new_stoppable ttl ≡ some m
      → let m' = record m { map = run dec m.map calls } in
        (stop m' ≡ none) × (loop_turn dec b now m' ≡ some (record m' { map = tick dec now m'.map }))
  unfolding stop loop_turn
  stop_panics dec ttl m calls b now e = ground (arith, new_unmade ttl m e)
