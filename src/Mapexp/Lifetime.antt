-- ===== src/Mapexp/Lifetime.antt =====
-- How long an entry of internal/mapexp/map.go lives.
use anicetus.Prelude.{ℕ, ◌+◌, ◌<◌, ◌≡◌, ◌≢◌, refl, ite, List, [], ◌∷◌, some, arith}
use anicetus.Mapexp.Queue.{add, renew, purge, purge_items}
use anicetus.Mapexp.Map.{Map, set, get, delete, tick}
use anicetus.Mapexp.Entries.{deadline-add, deadline-renew_key, purge_items-keeps, delete_all_lem}
use anicetus.Mapexp.Calls.{
  Call, sets, gets, deletes, ticks, step, run, expires, IsValid, step-IsValid,
}

module _ {K V : Type 0} (dec : Discrete K) (key : K) where
  -- A history in which every tick comes before the expiration that the key has by then, where each
  -- `Get` and `Set` of the key moves it to a ttl after the call, and in which the key is not
  -- deleted.
  abbrev pub IsTimely : ℕ → ℕ → List (Call K V) → Type 0
  IsTimely ttl d [] = Unit
  IsTimely ttl d (sets now j value ∷ cs) = IsTimely ttl (ite (dec j key) (now + ttl) d) cs
  IsTimely ttl d (gets now j ∷ cs) = IsTimely ttl (ite (dec j key) (now + ttl) d) cs
  IsTimely ttl d (deletes j ∷ cs) = (j ≢ key) × IsTimely ttl d cs
  IsTimely ttl d (ticks now ∷ cs) = (now < d) × IsTimely ttl d cs

  -- The value that the last `Set` of the key gave it.
  abbrev pub latest : V → List (Call K V) → V
  latest v [] = v
  latest v (sets now j value ∷ cs) = latest (ite (dec j key) value v) cs
  latest v (_ ∷ cs) = latest v cs

  -- The key is stored with the value `v` and expires at `d`.
  pub record Holds (ttl d : ℕ) (v : V) (m : Map K V) : Type 0 where
    pub valid : IsValid dec m
    pub same : m.expiration_queue.ttl ≡ ttl
    pub due : expires dec key m ≡ some d
    pub stored : m.items key ≡ some v

  module _ {ttl d : ℕ} {v : V} (m : Map K V) (h : Holds ttl d v m) where
    sets-Holds :
        (now : ℕ) (j : K) (value : V)
        → Holds ttl
            (ite (dec j key) (now + ttl) d)
            (ite (dec j key) value v)
            (step dec m (sets now j value))
    unfolding step set add
    sets-Holds now j value = record {
      valid = step-IsValid dec m (sets now j value) h.valid;
      same = h.same;
      due = ground (arith, deadline-add dec now j key m.expiration_queue h.valid.distinct);
      stored = ground arith;
    }

    gets-Holds :
        (now : ℕ) (j : K) → Holds ttl (ite (dec j key) (now + ttl) d) v (step dec m (gets now j))
    unfolding step get renew
    gets-Holds now j = record {
      valid = step-IsValid dec m (gets now j) h.valid;
      same = h.same;
      due = ground (
        arith,
        deadline-renew_key dec key j (now + m.expiration_queue.ttl) m.expiration_queue.items,
      );
      stored = h.stored;
    }

    deletes-Holds : (j : K) → j ≢ key → Holds ttl d v (step dec m (deletes j))
    unfolding step delete
    deletes-Holds j ne = record {
      valid = step-IsValid dec m (deletes j) h.valid;
      same = h.same;
      due = h.due;
      stored = ground arith;
    }

    ticks-Holds : (now : ℕ) → now < d → Holds ttl d v (step dec m (ticks now))
    unfolding step tick purge
    ticks-Holds now lt = record {
      valid = step-IsValid dec m (ticks now) h.valid;
      same = h.same;
      due = (purge_items-keeps dec now key m.expiration_queue.items d h.valid.distinct h.due lt).0;
      stored = ground (
        arith,
        purge_items-keeps dec now key m.expiration_queue.items d h.valid.distinct h.due lt,
        delete_all_lem dec (purge_items now m.expiration_queue.items).0 m.items key,
      );
    }

  -- An entry that is stored stays in the map, with the value last set for it, through every history
  -- in which the key is not deleted and each tick comes before the expiration that the key has by
  -- then: a ttl after the last `Set` or `Get` of the key, however long ago it was first set.
  pub run-IsTimely :
      (cs : List (Call K V)) (ttl d : ℕ) (v : V) (m : Map K V)
      → Holds ttl d v m
      → IsTimely ttl d cs
      → (run dec m cs).items key ≡ some (latest v cs)
  unfolding run
  run-IsTimely [] ttl d v m h t = h.stored
  run-IsTimely (sets now j value ∷ cs) ttl d v m h t =
      run-IsTimely cs ttl _ _ _ (sets-Holds m h now j value) t
  run-IsTimely (gets now j ∷ cs) ttl d v m h t = run-IsTimely cs ttl _ _ _ (gets-Holds m h now j) t
  run-IsTimely (deletes j ∷ cs) ttl d v m h (ne, t) =
      run-IsTimely cs ttl _ _ _ (deletes-Holds m h j ne) t
  run-IsTimely (ticks now ∷ cs) ttl d v m h (lt, t) =
      run-IsTimely cs ttl _ _ _ (ticks-Holds m h now lt) t

  -- `Set` stores the entry until a ttl after the call.
  pub set-Holds :
      (now : ℕ) (v : V) (m : Map K V)
      → IsValid dec m
      → Holds m.expiration_queue.ttl (now + m.expiration_queue.ttl) v (set dec now key v m)
  unfolding set step add
  set-Holds now v m valid = record {
    valid = step-IsValid dec m (sets now key v) valid;
    same = refl;
    due = ground (arith, deadline-add dec now key key m.expiration_queue valid.distinct);
    stored = ground arith;
  }
