-- ===== src/Mapexp/Unread.antt =====
-- internal/mapexp/map.go as long as no key is read: what a tick deletes, by the history.
use anicetus.Prelude.{
  ◌∙◌, ite, Option, none, ℕ, zero, suc, some, ◌+◌, ◌≡◌, refl, List, [], ◌∷◌, arith,
}
use anicetus.Mapexp.Entries.{purge_items-left, deadline-add, deadline}
use anicetus.Prelude.Int.{pos}
use anicetus.Mapexp.Queue.{add, purge}
use anicetus.Mapexp.Map.{Map, new, set, delete, tick}
use anicetus.Mapexp.Calls.{
  Call, sets, gets, deletes, ticks, step, run, expires, IsValid, step-IsValid,
}
use mathlib.Core.Path.{subst}
use mathlib.Core.Option.{some-injective}
use anicetus.Mapexp.Purging.{unless_over, tick_exact}
use anicetus.Mapexp.Tidy.{IsUnread, run-IsOrdered, new-IsTidy}

module _ {K V : Type 0} (dec : Discrete K) where
  -- A ttl after the last `Set` of the key, by the history alone.
  abbrev pub set_until : K → ℕ → Option ℕ → List (Call K V) → Option ℕ
  set_until key ttl until [] = until
  set_until key ttl until (sets now j value ∷ cs) =
      set_until key ttl (ite (dec j key) (some (now + ttl)) until) cs
  set_until key ttl until (c ∷ cs) = set_until key ttl until cs

  -- Where the key is queued, its expiration is the given one.
  abbrev IsDue : K → Option ℕ → Map K V → Type 0
  IsDue key until m = (e : ℕ) → expires dec key m ≡ some e → until ≡ some e

  sets-IsDue :
      (key j : K) (now ttl : ℕ) (value : V) (until : Option ℕ) (m : Map K V)
      → IsValid dec m
      → m.expiration_queue.ttl ≡ ttl
      → IsDue key until m
      → IsDue key (ite (dec j key) (some (now + ttl)) until) (step dec m (sets now j value))
  unfolding step set add
  sets-IsDue key j now ttl value until m v same h e q =
      ground (arith, same, deadline-add dec now j key m.expiration_queue v.distinct, h e, q)

  ticks-IsDue :
      (key : K) (now : ℕ) (until : Option ℕ) (m : Map K V)
      → IsValid dec m
      → IsDue key until m
      → IsDue key until (step dec m (ticks now))
  unfolding step tick purge
  ticks-IsDue key now until m v h e q =
      h e (purge_items-left dec now key m.expiration_queue.items e v.distinct q)

  run-IsDue :
      (cs : List (Call K V)) (key : K) (t ttl : ℕ) (until : Option ℕ) (m : Map K V)
      → IsValid dec m
      → m.expiration_queue.ttl ≡ ttl
      → IsDue key until m
      → IsUnread dec t cs
      → IsDue key (set_until key ttl until cs) (run dec m cs)
  unfolding run step set add delete tick purge
  run-IsDue [] key t ttl until m v same h u = h
  run-IsDue (sets now j value ∷ cs) key t ttl until m v same h (le, u) =
      run-IsDue cs key now ttl _ _ (step-IsValid dec m (sets now j value) v) same
        (sets-IsDue key j now ttl value until m v same h) u
  run-IsDue (gets now j ∷ cs) key t ttl until m v same h u = absurd u
  run-IsDue (deletes j ∷ cs) key t ttl until m v same h u =
      run-IsDue cs key t ttl until _ (step-IsValid dec m (deletes j) v) same h u
  run-IsDue (ticks now ∷ cs) key t ttl until m v same h u =
      run-IsDue cs key t ttl until _ (step-IsValid dec m (ticks now) v) same
        (ticks-IsDue key now until m v h) u

  new-IsDue :
      (n : ℕ) (key : K) {m : Map K V}
      → new (pos n) ≡ some m
      → IsDue key none m × (m.expiration_queue.ttl ≡ n)
  unfolding new deadline
  new-IsDue zero key e = cc
  new-IsDue (suc n) key {m} e =
      subst (λ k. IsDue key none k × (k.expiration_queue.ttl ≡ suc n)) (some-injective _ _ e)
        (λ d h. cc, refl)

  -- Only what is queued is stored, so that what is stored goes by its `Set`.
  due_lem :
      (now : ℕ) (due until : Option ℕ) (value : Option V)
      → (due ≡ none → value ≡ none)
      → ((e : ℕ) → due ≡ some e → until ≡ some e)
      → unless_over now due value ≡ unless_over now until value
  due_lem now none none value stored same = refl
  due_lem now none (some d) value stored same = ground (arith, stored refl)
  due_lem now (some e) until value stored same = rw (same e refl) refl

  -- Without readings the map is exact: after any history of `Set`, `Delete` and ticks on a new map
  -- with a ttl of `n`, with times of `Set` that do not fall, a tick at `now` deletes the entry of a
  -- key if `n` has passed by then since the last `Set` of the key in the history, and leaves it as
  -- it is if not.
  pub unread_exact :
      (n : ℕ) (m : Map K V) (cs : List (Call K V)) (now : ℕ) (key : K)
      → new (pos n) ≡ some m
      → IsUnread dec 0 cs
      → let last = run dec m cs in
        (tick dec now last).items key ≡ unless_over now (set_until key n none cs) (last.items key)
  unread_exact n m cs now key e u =
      let tidy = new-IsTidy dec (pos n) e in
      let (due, same) = new-IsDue n key e in
      let (valid, ordered) = run-IsOrdered dec cs 0 m tidy u in
      tick_exact dec now 0 (run dec m cs) key valid ordered
      ∙ due_lem now (expires dec key (run dec m cs)) (set_until key n none cs)
          ((run dec m cs).items key) (valid.queued key)
          (run-IsDue cs key 0 n none m tidy.valid same due u)
