-- ===== src/Mapexp/Calls.antt =====
-- Histories of calls of the methods of internal/mapexp/map.go, and the invariant that they keep.
use anicetus.Prelude.{ℕ, ◌+◌, ◌≡◌, List, [], ◌∷◌, Option, none, arith}
use anicetus.Mapexp.Queue.{add, renew, purge, purge_items}
use anicetus.Mapexp.Map.{Map, set, get, delete, tick}
use anicetus.Mapexp.Entries.{
  deadline, IsDistinct, add-IsDistinct, deadline-add, deadline-renew_key, renew_key-IsDistinct,
  purge_items-unlisted, purge_items-IsDistinct, delete_all_lem,
}

-- A call, with what its `time.Now()` returns.
pub data Call (K V : Type 0) : Type 0 where
  sets : ℕ → K → V → Call K V
  gets : ℕ → K → Call K V
  deletes : K → Call K V
  ticks : ℕ → Call K V

module _ {K V : Type 0} (dec : Discrete K) where
  unfoldable pub step : Map K V → Call K V → Map K V
  step m (sets now key value) = set dec now key value m
  step m (gets now key) = (get dec now key m).1
  step m (deletes key) = delete dec key m
  step m (ticks now) = tick dec now m

  unfoldable pub run : Map K V → List (Call K V) → Map K V
  run m [] = m
  run m (c ∷ cs) = run (step m c) cs

  abbrev pub expires : K → Map K V → Option ℕ
  expires key m = deadline dec key m.expiration_queue.items

  -- No key is queued twice, and every stored key is queued: so each entry has one expiration.
  pub record IsValid (m : Map K V) : Type 0 where
    pub distinct : IsDistinct dec m.expiration_queue.items
    pub queued : (key : K) → expires key m ≡ none → m.items key ≡ none

  pub step-IsValid : (m : Map K V) (c : Call K V) → IsValid m → IsValid (step m c)
  unfolding step set get delete tick add renew purge
  step-IsValid m (sets now key value) v = record {
    distinct = add-IsDistinct dec now key m.expiration_queue v.distinct;
    queued = λ j h. ground (arith, deadline-add dec now key j m.expiration_queue, v.queued j);
  }
  step-IsValid m (gets now key) v = record {
    distinct = renew_key-IsDistinct dec key _ m.expiration_queue.items v.distinct;
    queued = λ j h. ground (
      arith,
      deadline-renew_key dec j key (now + m.expiration_queue.ttl) m.expiration_queue.items,
      v.queued j,
    );
  }
  step-IsValid m (deletes key) v = record {
    distinct = v.distinct;
    queued = λ j h. ground (arith, v.queued j);
  }
  step-IsValid m (ticks now) v = record {
    distinct = purge_items-IsDistinct dec now m.expiration_queue.items v.distinct;
    queued = λ j h. ground (
      arith,
      delete_all_lem dec (purge_items now m.expiration_queue.items).0 m.items j,
      purge_items-unlisted dec now j m.expiration_queue.items,
      v.queued j,
    );
  }

  -- After any history on a new map no key is queued twice, and every stored key is queued.
  pub run-IsValid : (m : Map K V) (cs : List (Call K V)) → IsValid m → IsValid (run m cs)
  unfolding run
  run-IsValid m [] v = v
  run-IsValid m (c ∷ cs) v = run-IsValid (step m c) cs (step-IsValid m c v)
