-- ===== src/Mapexp/Purging.antt =====
-- What one tick of internal/mapexp/map.go removes, and what it leaves.
use anicetus.Prelude.{
  ℕ, ◌≤◌, ◌<◌, ◌≡◌, refl, List, [], ◌∷◌, ◌++◌, map, arith, All, ltb, if◌then◌else◌, Option, some,
  Bool, none, false, true, ◌+◌, no_entries, fun_ext, Option-cases, inl, inr,
}
use anicetus.Mapexp.Entries.{deadline, IsDistinct, listed, delete_all_lem}
use anicetus.Mapexp.Map.{Map, get, tick, delete_all}
use anicetus.Mapexp.Calls.{expires, IsValid}
use anicetus.Mapexp.Queue.{renew, renew_key, Item, ExpirationQueue, purge, purge_items}

-- Expirations that do not fall along the queue.
abbrev pub IsOrdered : {K : Type 0} → ℕ → List (Item K) → Type 0
IsOrdered lo [] = Unit
IsOrdered lo (x ∷ xs) = (lo ≤ x.expiration) × IsOrdered x.expiration xs

module _ {K : Type 0} (now : ℕ) where
  abbrev pub IsOver : Item K → Type 0
  IsOver x = x.expiration ≤ now

  abbrev pub IsLive : Item K → Type 0
  IsLive x = now < x.expiration

  -- The first item, if there is one, is not over.
  abbrev pub StartsLive : List (Item K) → Type 0
  StartsLive [] = Unit
  StartsLive (x ∷ xs) = IsLive x

  -- The items at the front that are over.
  pub over_front : List (Item K) → List (Item K)
  over_front [] = []
  over_front (x ∷ xs) = if ltb now x.expiration then [] else x ∷ over_front xs

  purge_items_split :
      (xs : List (Item K))
      → (xs ≡ over_front xs ++ (purge_items now xs).1)
        × ((purge_items now xs).0 ≡ map (λ x. x.key) (over_front xs))
        × All IsOver (over_front xs)
        × StartsLive (purge_items now xs).1
  unfolding purge_items over_front
  purge_items_split [] = (refl, refl, tt, tt)
  purge_items_split (x ∷ xs) = ground (arith, purge_items_split xs)

  -- `purge` cuts the queue in two: it reports the keys of the longest run of items at the front
  -- that are over, and keeps the rest of the queue as it is.
  pub purge_split :
      (q : ExpirationQueue K)
      → (q.items ≡ over_front q.items ++ (purge now q).1.items)
        × ((purge now q).0 ≡ map (λ x. x.key) (over_front q.items))
        × All IsOver (over_front q.items)
        × StartsLive (purge now q).1.items
        × ((purge now q).1.ttl ≡ q.ttl)
  unfolding purge
  purge_split q =
      let (whole, keys, over, live) = purge_items_split q.items in (whole, keys, over, live, refl)

-- What a tick at `now` should leave of a value whose entry expires at the given time.
abbrev pub unless_over : {V : Type 0} → ℕ → Option ℕ → Option V → Option V
unless_over now none value = none
unless_over now (some d) value = if ltb now d then value else none

abbrev over_at : ℕ → Option ℕ → Bool
over_at now none = false
over_at now (some d) = if ltb now d then false else true

module _ {K : Type 0} (dec : Discrete K) where
  listed-ordered_live :
      (now : ℕ) (key : K) (lo : ℕ) (xs : List (Item K))
      → IsOrdered lo xs
      → now < lo
      → over_at now (deadline dec key xs) ≡ false
  unfolding deadline
  listed-ordered_live now key lo [] o h = refl
  listed-ordered_live now key lo (x ∷ xs) o h =
      ground (arith, listed-ordered_live now key x.expiration xs)

  listed-ordered :
      (now : ℕ) (key : K) (lo : ℕ) (xs : List (Item K))
      → IsOrdered lo xs
      → IsDistinct dec xs
      → listed dec key (purge_items now xs).0 ≡ over_at now (deadline dec key xs)
  unfolding deadline purge_items listed
  listed-ordered now key lo [] o d = refl
  listed-ordered now key lo (x ∷ xs) o d =
      ground
        (arith, listed-ordered now key x.expiration xs, listed-ordered_live now key x.expiration xs)

  over_items-listed :
      (now : ℕ) (key : K) (xs : List (Item K)) (d : ℕ)
      → All (IsOver now) xs
      → deadline dec key xs ≡ some d
      → listed dec key (purge_items now xs).0 ≡ true
  unfolding deadline purge_items listed
  over_items-listed now key [] d o h = cc
  over_items-listed now key (x ∷ xs) d o h = ground (arith, over_items-listed now key xs d)

module _ {K V : Type 0} (dec : Discrete K) where
  -- On a queue in order of expiration a tick deletes exactly the entries that are over.
  pub tick_exact :
      (now lo : ℕ) (m : Map K V) (key : K)
      → IsValid dec m
      → IsOrdered lo m.expiration_queue.items
      → (tick dec now m).items key ≡ unless_over now (expires dec key m) (m.items key)
  unfolding tick purge
  tick_exact now lo m key v o = ground (
    arith,
    listed-ordered dec now key lo m.expiration_queue.items o v.distinct,
    delete_all_lem dec (purge_items now m.expiration_queue.items).0 m.items key,
    v.queued key,
  )

  -- A reading that renews the first item of the queue stops every tick of the next ttl: it deletes
  -- nothing, however many entries behind that item are over.
  pub get_blocks_tick :
      (t now : ℕ) (m : Map K V) (x : Item K) (xs : List (Item K))
      → m.expiration_queue.items ≡ x ∷ xs
      → now < t + m.expiration_queue.ttl
      → tick dec now (get dec t x.key m).1 ≡ (get dec t x.key m).1
  unfolding tick get renew renew_key purge purge_items delete_all
  get_blocks_tick t now m x xs e h = rw e (ground arith)

  -- Once every queued item is over, one tick empties the map.
  pub tick_clears :
      (now : ℕ) (m : Map K V)
      → IsValid dec m
      → All (IsOver now) m.expiration_queue.items
      → (tick dec now m).items ≡ no_entries
  unfolding tick purge
  tick_clears now m v o = fun_ext λ key. elim (Option-cases (expires dec key m)) [
    | inl e ↦ ground (
      arith,
      delete_all_lem dec (purge_items now m.expiration_queue.items).0 m.items key,
      v.queued key,
    )
    | inr (d, e) ↦ ground (
      arith,
      delete_all_lem dec (purge_items now m.expiration_queue.items).0 m.items key,
      over_items-listed dec now key m.expiration_queue.items d o e,
    )
  ]
