-- ===== src/Mapexp/Queue.antt =====
-- internal/mapexp/expiration_queue.go. Each method takes what its `time.Now()` returns, in
-- nanoseconds; the mutex makes each of them one step.
use anicetus.Prelude.{ℕ, ◌+◌, List, [], ◌∷◌, ◌++◌, ite, ltb, if◌then◌else◌}

pub record Item (K : Type 0) : Type 0 where
  pub key : K
  pub expiration : ℕ

pub record ExpirationQueue (K : Type 0) : Type 0 where
  pub items : List (Item K)
  pub ttl : ℕ

module _ {K : Type 0} where
  abbrev pub new_expiration_queue : ℕ → ExpirationQueue K
  new_expiration_queue ttl = record { items = []; ttl = ttl }

  -- The loop of `purge`: the keys that it collects, and `e.items[i:]` where it stops.
  unfoldable pub purge_items : ℕ → List (Item K) → List K × List (Item K)
  purge_items now [] = ([], [])
  purge_items now (x ∷ xs) =
      let (expired, rest) = purge_items now xs in
      if ltb now x.expiration then ([], x ∷ xs) else (x.key ∷ expired, rest)

  unfoldable pub purge : ℕ → ExpirationQueue K → List K × ExpirationQueue K
  purge now q =
      let (expired, rest) = purge_items now q.items in (expired, record q { items = rest })

module _ {K : Type 0} (dec : Discrete K) where
  -- The loop of `add`: cut out the first item with the key.
  unfoldable pub cut_key : K → List (Item K) → List (Item K)
  cut_key key [] = []
  cut_key key (x ∷ xs) = ite (dec x.key key) xs (x ∷ cut_key key xs)

  unfoldable pub add : ℕ → K → ExpirationQueue K → ExpirationQueue K
  add now key q = record q {
    items = cut_key key q.items ++ (record { key = key; expiration = now + q.ttl } ∷ []);
  }

  -- The loop of `renew`: the first item with the key gets the expiration, where it stands.
  unfoldable pub renew_key : ℕ → K → List (Item K) → List (Item K)
  renew_key expiration key [] = []
  renew_key expiration key (x ∷ xs) =
      ite (dec x.key key) (record x { expiration = expiration } ∷ xs)
        (x ∷ renew_key expiration key xs)

  unfoldable pub renew : ℕ → K → ExpirationQueue K → ExpirationQueue K
  renew now key q = record q { items = renew_key (now + q.ttl) key q.items }
