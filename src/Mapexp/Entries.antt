-- ===== src/Mapexp/Entries.antt =====
-- What the methods of internal/mapexp/expiration_queue.go do to the expiration of one key.
use anicetus.Prelude.{
  ℕ, ◌+◌, ◌<◌, ◌≡◌, refl, ite, Bool, true, false, if◌then◌else◌, List, [], ◌∷◌, ◌++◌, Option, none,
  some, arith, Table, erase,
}
use anicetus.Mapexp.Queue.{Item, ExpirationQueue, add, cut_key, renew_key, purge_items}
use anicetus.Mapexp.Map.{delete_all}

-- The second where the first is missing.
abbrev first_of_two : Option ℕ → Option ℕ → Option ℕ
first_of_two none o = o
first_of_two (some e) o = some e

abbrev pub if_present : ℕ → Option ℕ → Option ℕ
if_present e none = none
if_present e (some _) = some e

module _ {K : Type 0} (dec : Discrete K) where
  -- The expiration of the first item with the key.
  unfoldable pub deadline : K → List (Item K) → Option ℕ
  deadline key [] = none
  deadline key (x ∷ xs) = ite (dec x.key key) (some x.expiration) (deadline key xs)

  abbrev pub IsDistinct : List (Item K) → Type 0
  IsDistinct [] = Unit
  IsDistinct (x ∷ xs) = (deadline x.key xs ≡ none) × IsDistinct xs

  unfoldable pub listed : K → List K → Bool
  listed key [] = false
  listed key (k ∷ ks) = ite (dec k key) true (listed key ks)

  deadline-append :
      (key : K) (xs : List (Item K)) (x : Item K)
      → deadline key (xs ++ (x ∷ []))
        ≡ first_of_two (deadline key xs) (ite (dec x.key key) (some x.expiration) none)
  unfolding deadline
  deadline-append key [] x = refl
  deadline-append key (y ∷ xs) x = ground (arith, deadline-append key xs x)

  deadline-cut_key_none :
      (key j : K) (xs : List (Item K))
      → deadline key xs ≡ none
      → deadline key (cut_key dec j xs) ≡ none
  unfolding deadline cut_key
  deadline-cut_key_none key j [] h = refl
  deadline-cut_key_none key j (x ∷ xs) h = ground (arith, deadline-cut_key_none key j xs)

  deadline-cut_key_self :
      (key : K) (xs : List (Item K)) → IsDistinct xs → deadline key (cut_key dec key xs) ≡ none
  unfolding deadline cut_key
  deadline-cut_key_self key [] h = refl
  deadline-cut_key_self key (x ∷ xs) h = ground (arith, deadline-cut_key_self key xs)

  deadline-cut_key_append :
      (key j : K) (e : ℕ) (xs : List (Item K))
      → IsDistinct xs
      → deadline j (cut_key dec key xs ++ (record { key = key; expiration = e } ∷ []))
        ≡ ite (dec key j) (some e) (deadline j xs)
  unfolding deadline cut_key
  deadline-cut_key_append key j e [] h = refl
  deadline-cut_key_append key j e (x ∷ xs) h = ground (
    arith,
    deadline-cut_key_append key j e xs,
    deadline-append j xs (record { key = key; expiration = e }),
  )

  -- `add` gives its key a new expiration and leaves the other keys theirs.
  pub deadline-add :
      (now : ℕ) (key j : K) (q : ExpirationQueue K)
      → IsDistinct q.items
      → deadline j (add dec now key q).items
        ≡ ite (dec key j) (some (now + q.ttl)) (deadline j q.items)
  unfolding add
  deadline-add now key j q = deadline-cut_key_append key j (now + q.ttl) q.items

  pub deadline-renew_key :
      (key j : K) (e : ℕ) (xs : List (Item K))
      → deadline key (renew_key dec e j xs)
        ≡ ite (dec j key) (if_present e (deadline key xs)) (deadline key xs)
  unfolding deadline renew_key
  deadline-renew_key key j e [] = ground arith
  deadline-renew_key key j e (x ∷ xs) = ground (arith, deadline-renew_key key j e xs)

  pub renew_key-IsDistinct :
      (key : K) (e : ℕ) (xs : List (Item K)) → IsDistinct xs → IsDistinct (renew_key dec e key xs)
  unfolding renew_key
  renew_key-IsDistinct key e [] h = tt
  renew_key-IsDistinct key e (x ∷ xs) h =
      ground (arith, renew_key-IsDistinct key e xs, deadline-renew_key x.key key e xs)

  cut_key-IsDistinct :
      (key : K) (xs : List (Item K)) → IsDistinct xs → IsDistinct (cut_key dec key xs)
  unfolding cut_key
  cut_key-IsDistinct key [] h = tt
  cut_key-IsDistinct key (x ∷ xs) h =
      ground (arith, cut_key-IsDistinct key xs, deadline-cut_key_none x.key key xs)

  append-IsDistinct :
      (xs : List (Item K)) (x : Item K)
      → deadline x.key xs ≡ none
      → IsDistinct xs
      → IsDistinct (xs ++ (x ∷ []))
  unfolding deadline
  append-IsDistinct [] x h d = (refl, tt)
  append-IsDistinct (y ∷ xs) x h d =
      ground (arith, append-IsDistinct xs x, deadline-append y.key xs x)

  pub add-IsDistinct :
      (now : ℕ) (key : K) (q : ExpirationQueue K)
      → IsDistinct q.items
      → IsDistinct (add dec now key q).items
  unfolding add
  add-IsDistinct now key q d =
      append-IsDistinct (cut_key dec key q.items) _ (deadline-cut_key_self key q.items d)
        (cut_key-IsDistinct key q.items d)

  -- `purge` on a queue with distinct keys: an item that is not over keeps its expiration and is not
  -- reported, and a reported key has left the queue.
  pub purge_items-keeps :
      (now : ℕ) (key : K) (xs : List (Item K)) (d : ℕ)
      → IsDistinct xs
      → deadline key xs ≡ some d
      → now < d
      → (deadline key (purge_items now xs).1 ≡ some d) × (listed key (purge_items now xs).0 ≡ false)
  unfolding deadline purge_items listed
  purge_items-keeps now key [] d p h lt = cc
  purge_items-keeps now key (x ∷ xs) d p h lt = ground (arith, purge_items-keeps now key xs d p.1)

  pub purge_items-absent :
      (now : ℕ) (key : K) (xs : List (Item K))
      → deadline key xs ≡ none
      → (deadline key (purge_items now xs).1 ≡ none) × (listed key (purge_items now xs).0 ≡ false)
  unfolding deadline purge_items listed
  purge_items-absent now key [] h = (refl, refl)
  purge_items-absent now key (x ∷ xs) h = ground (arith, purge_items-absent now key xs)

  -- What is not reported stays.
  pub purge_items-unlisted :
      (now : ℕ) (key : K) (xs : List (Item K))
      → listed key (purge_items now xs).0 ≡ false
      → deadline key (purge_items now xs).1 ≡ deadline key xs
  unfolding deadline purge_items listed
  purge_items-unlisted now key [] h = refl
  purge_items-unlisted now key (x ∷ xs) h = ground (arith, purge_items-unlisted now key xs)

  -- What is left in the queue is due when it was.
  pub purge_items-left :
      (now : ℕ) (key : K) (xs : List (Item K)) (e : ℕ)
      → IsDistinct xs
      → deadline key (purge_items now xs).1 ≡ some e
      → deadline key xs ≡ some e
  unfolding deadline purge_items
  purge_items-left now key [] e d h = h
  purge_items-left now key (x ∷ xs) e d h = ground (arith, purge_items-left now key xs e d.1)

  pub purge_items-IsDistinct :
      (now : ℕ) (xs : List (Item K)) → IsDistinct xs → IsDistinct (purge_items now xs).1
  unfolding purge_items
  purge_items-IsDistinct now [] h = tt
  purge_items-IsDistinct now (x ∷ xs) h = ground (arith, purge_items-IsDistinct now xs)

  -- The loop of `tick` deletes the reported keys and no other.
  pub delete_all_lem :
      {V : Type 0} (keys : List K) (items : Table K V) (key : K)
      → delete_all dec keys items key ≡ (if listed key keys then none else items key)
  unfolding delete_all listed
  delete_all_lem [] items key = refl
  delete_all_lem (k ∷ keys) items key = ground (arith, delete_all_lem keys (erase dec items k) key)
