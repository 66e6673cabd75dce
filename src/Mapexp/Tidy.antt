-- ===== src/Mapexp/Tidy.antt =====
-- internal/mapexp/map.go as long as no key is read: the queue stays in order of expiration.
use anicetus.Prelude.{ℕ, zero, suc, some, All, ◌+◌, ◌≤◌, ◌≡◌, refl, List, [], ◌∷◌, ◌++◌, arith}
use anicetus.Mapexp.Entries.{deadline}
use anicetus.Prelude.Int.{ℤ, pos, negsuc}
use anicetus.Mapexp.Queue.{Item, add, cut_key, purge, purge_items}
use anicetus.Mapexp.Map.{Map, new, set, delete, tick}
use anicetus.Mapexp.Calls.{Call, sets, gets, deletes, ticks, step, run, IsValid, step-IsValid}
use mathlib.Core.Path.{subst}
use mathlib.Core.Option.{some-injective}
use anicetus.Mapexp.Purging.{IsOrdered}

-- Each expiration is at most `hi`.
abbrev pub IsUpTo : {K : Type 0} → ℕ → List (Item K) → Type 0
IsUpTo hi xs = All (λ x. x.expiration ≤ hi) xs

module _ {K : Type 0} (dec : Discrete K) where
  IsOrdered-weaken :
      (lo lo' : ℕ) (xs : List (Item K)) → lo' ≤ lo → IsOrdered lo xs → IsOrdered lo' xs
  IsOrdered-weaken lo lo' [] h o = tt
  IsOrdered-weaken lo lo' (x ∷ xs) h o = (omega arith, o.1)

  cut_key-IsOrdered :
      (lo : ℕ) (key : K) (xs : List (Item K)) → IsOrdered lo xs → IsOrdered lo (cut_key dec key xs)
  unfolding cut_key
  cut_key-IsOrdered lo key [] o = tt
  cut_key-IsOrdered lo key (x ∷ xs) o =
      ground (arith, cut_key-IsOrdered x.expiration key xs, IsOrdered-weaken x.expiration lo xs)

  cut_key-IsUpTo :
      (hi : ℕ) (key : K) (xs : List (Item K)) → IsUpTo hi xs → IsUpTo hi (cut_key dec key xs)
  unfolding cut_key
  cut_key-IsUpTo hi key [] u = tt
  cut_key-IsUpTo hi key (x ∷ xs) u = ground (arith, cut_key-IsUpTo hi key xs)

  append-IsOrdered :
      (lo hi : ℕ) (xs : List (Item K)) (x : Item K)
      → IsOrdered lo xs
      → IsUpTo hi xs
      → lo ≤ hi
      → hi ≤ x.expiration
      → IsOrdered lo (xs ++ (x ∷ [])) × IsUpTo x.expiration (xs ++ (x ∷ []))
  append-IsOrdered lo hi [] x o u h k = omega arith
  append-IsOrdered lo hi (y ∷ xs) x o u h k =
      let (a, b) = append-IsOrdered y.expiration hi xs x o.1 u.1 u.0 k in
      ((o.0, a), (omega arith, b))

  purge_items-IsOrdered :
      (now lo hi : ℕ) (xs : List (Item K))
      → IsOrdered lo xs
      → IsUpTo hi xs
      → IsOrdered lo (purge_items now xs).1 × IsUpTo hi (purge_items now xs).1
  unfolding purge_items
  purge_items-IsOrdered now lo hi [] o u = (tt, tt)
  purge_items-IsOrdered now lo hi (x ∷ xs) o u = ground (
    arith,
    purge_items-IsOrdered now x.expiration hi xs,
    IsOrdered-weaken x.expiration lo (purge_items now xs).1,
  )

module _ {K V : Type 0} (dec : Discrete K) where
  -- No call reads, and the times of the `Set`s do not fall.
  abbrev pub IsUnread : ℕ → List (Call K V) → Type 0
  IsUnread t [] = Unit
  IsUnread t (sets now j value ∷ cs) = (t ≤ now) × IsUnread now cs
  IsUnread t (gets now j ∷ cs) = ⊥
  IsUnread t (deletes j ∷ cs) = IsUnread t cs
  IsUnread t (ticks now ∷ cs) = IsUnread t cs

  pub record IsTidy (t : ℕ) (m : Map K V) : Type 0 where
    pub valid : IsValid dec m
    pub ordered : IsOrdered 0 m.expiration_queue.items
    pub recent : IsUpTo (t + m.expiration_queue.ttl) m.expiration_queue.items

  sets-IsTidy :
      (t now : ℕ) (j : K) (value : V) (m : Map K V)
      → IsTidy t m
      → t ≤ now
      → IsTidy now (step dec m (sets now j value))
  unfolding step set add
  sets-IsTidy t now j value m h le =
      let (o, u) =
        append-IsOrdered dec 0 (t + m.expiration_queue.ttl) (cut_key dec j m.expiration_queue.items)
          (record { key = j; expiration = now + m.expiration_queue.ttl })
          (cut_key-IsOrdered dec 0 j m.expiration_queue.items h.ordered)
          (cut_key-IsUpTo dec (t + m.expiration_queue.ttl) j m.expiration_queue.items h.recent)
          (omega arith) (omega arith) in
      record { valid = step-IsValid dec m (sets now j value) h.valid; ordered = o; recent = u }

  ticks-IsTidy : (t now : ℕ) (m : Map K V) → IsTidy t m → IsTidy t (step dec m (ticks now))
  unfolding step tick purge
  ticks-IsTidy t now m h =
      let (o, u) =
        purge_items-IsOrdered dec now 0 (t + m.expiration_queue.ttl) m.expiration_queue.items
          h.ordered h.recent in
      record { valid = step-IsValid dec m (ticks now) h.valid; ordered = o; recent = u }

  deletes-IsTidy : (t : ℕ) (j : K) (m : Map K V) → IsTidy t m → IsTidy t (step dec m (deletes j))
  unfolding step delete
  deletes-IsTidy t j m h = record {
    valid = step-IsValid dec m (deletes j) h.valid;
    ordered = h.ordered;
    recent = h.recent;
  }

  pub run-IsOrdered :
      (cs : List (Call K V)) (t : ℕ) (m : Map K V)
      → IsTidy t m
      → IsUnread t cs
      → IsValid dec (run dec m cs) × IsOrdered 0 (run dec m cs).expiration_queue.items
  unfolding run
  run-IsOrdered [] t m h u = (h.valid, h.ordered)
  run-IsOrdered (sets now j value ∷ cs) t m h (le, u) =
      run-IsOrdered cs now _ (sets-IsTidy t now j value m h le) u
  run-IsOrdered (gets now j ∷ cs) t m h u = absurd u
  run-IsOrdered (deletes j ∷ cs) t m h u =
      run-IsOrdered cs t (step dec m (deletes j)) (deletes-IsTidy t j m h) u
  run-IsOrdered (ticks now ∷ cs) t m h u =
      run-IsOrdered cs t (step dec m (ticks now)) (ticks-IsTidy t now m h) u

  pub new-IsTidy : (ttl : ℤ) {m : Map K V} → new ttl ≡ some m → IsTidy 0 m
  unfolding new deadline
  new-IsTidy (pos zero) e = cc
  new-IsTidy (pos (suc n)) {m} e = subst (IsTidy 0) (some-injective _ _ e) (record {
    valid = record { distinct = tt; queued = λ key h. refl };
    ordered = tt;
    recent = tt;
  })
  new-IsTidy (negsuc n) e = cc
