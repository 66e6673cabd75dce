-- ===== src/Mapexp/Sections.antt =====
-- The critical sections of the methods of internal/mapexp/map.go as steps of their own, for many
-- goroutines and the one that `start` runs.
use anicetus.Prelude.{ℕ, suc, ◌-◌, ◌<◌, ◌≡◌, List, [], ite, write, erase}
use anicetus.Mapexp.Queue.{add, renew, purge}
use anicetus.Mapexp.Map.{Map, delete_all}

-- The map, how many calls of `Set` with a key have written it and not yet queued it, and the keys
-- that the ticker has purged and not yet deleted.
pub record Sections (K V : Type 0) : Type 0 where
  pub map : Map K V
  pub unqueued : K → ℕ
  pub expired : List K

abbrev count_at : {K : Type 0} → Discrete K → (K → ℕ) → K → ℕ → K → ℕ
count_at dec counts key n k = ite (dec k key) n (counts k)

module _ {K V : Type 0} (dec : Discrete K) where
  -- The two sections of `Set`.
  unfoldable pub write_entry : K → V → Sections K V → Sections K V
  write_entry key value s = record s {
    map = record s.map { items = write dec s.map.items key value };
    unqueued = count_at dec s.unqueued key (suc (s.unqueued key));
  }

  unfoldable pub queue_entry : ℕ → K → Sections K V → Sections K V
  queue_entry now key s = record s {
    map = record s.map { expiration_queue = add dec now key s.map.expiration_queue };
    unqueued = count_at dec s.unqueued key (s.unqueued key - 1);
  }

  -- The second section of `Get`; the first changes nothing.
  unfoldable pub renew_entry : ℕ → K → Sections K V → Sections K V
  renew_entry now key s = record s {
    map = record s.map { expiration_queue = renew dec now key s.map.expiration_queue };
  }

  -- The section of `Delete`.
  unfoldable pub erase_entry : K → Sections K V → Sections K V
  erase_entry key s = record s { map = record s.map { items = erase dec s.map.items key } }

  -- The two sections of a round of the loop in `start`.
  unfoldable pub purge_keys : ℕ → Sections K V → Sections K V
  purge_keys now s =
      let (keys, queue) = purge now s.map.expiration_queue in
      record s { map = record s.map { expiration_queue = queue }; expired = keys }

  unfoldable pub delete_keys : Sections K V → Sections K V
  delete_keys s = record s {
    map = record s.map { items = delete_all dec s.expired s.map.items };
    expired = [];
  }

  pub data Step (s : Sections K V) : Sections K V → Type 0 where
    writes : (key : K) (value : V) → Step s (write_entry key value s)
    queues : (now : ℕ) (key : K) → 0 < s.unqueued key → Step s (queue_entry now key s)
    renews : (now : ℕ) (key : K) → Step s (renew_entry now key s)
    erases : (key : K) → Step s (erase_entry key s)
    purges : (now : ℕ) → s.expired ≡ [] → Step s (purge_keys now s)
    deletes : Step s (delete_keys s)

  pub data Reach (s : Sections K V) : Sections K V → Type 0 where
    here : Reach s s
    later : {t u : Sections K V} → Reach s t → Step t u → Reach s u
