-- ===== src/Mapexp/Interleaved.antt =====
-- What holds of the map of internal/mapexp/map.go however the critical sections of its methods are
-- interleaved.
use anicetus.Prelude.{ℕ, ◌+◌, ◌<◌, ◌≡◌, ◌⊎◌, true, none, some, arith}
use anicetus.Mapexp.Queue.{purge, renew}
use anicetus.Mapexp.Entries.{
  IsDistinct, listed, add-IsDistinct, deadline-add, deadline-renew_key, renew_key-IsDistinct,
  purge_items-unlisted, purge_items-IsDistinct, delete_all_lem,
}
use anicetus.Mapexp.Calls.{expires}
use anicetus.Mapexp.Sections.{
  Sections, write_entry, queue_entry, renew_entry, erase_entry, purge_keys, delete_keys, Step,
  writes, queues, renews, erases, purges, deletes, Reach, here, later,
}

module _ {K V : Type 0} (dec : Discrete K) where
  -- A key that is not queued is not stored, or a `Set` is about to queue it, or the ticker to
  -- delete it.
  abbrev IsSeen : Sections K V → K → Type 0
  IsSeen s key = (s.map.items key ≡ none) ⊎ (0 < s.unqueued key) ⊎ (listed dec key s.expired ≡ true)

  pub record IsTracked (s : Sections K V) : Type 0 where
    pub distinct : IsDistinct dec s.map.expiration_queue.items
    pub seen : (key : K) → expires dec key s.map ≡ none → IsSeen s key

  Step-IsTracked : {s t : Sections K V} → Step dec s t → IsTracked s → IsTracked t
  unfolding write_entry queue_entry renew_entry erase_entry purge_keys delete_keys renew purge
      listed
  Step-IsTracked {s} (writes key value) v = record {
    distinct = v.distinct;
    seen = λ j h. ground (arith, v.seen j);
  }
  Step-IsTracked {s} (queues now key u) v = record {
    distinct = add-IsDistinct dec now key s.map.expiration_queue v.distinct;
    seen = λ j h.
        ground (arith, deadline-add dec now key j s.map.expiration_queue, v.distinct, v.seen j);
  }
  Step-IsTracked {s} (renews now key) v = record {
    distinct = renew_key-IsDistinct dec key _ s.map.expiration_queue.items v.distinct;
    seen = λ j h. ground (
      arith,
      deadline-renew_key dec j key (now + s.map.expiration_queue.ttl) s.map.expiration_queue.items,
      v.seen j,
    );
  }
  Step-IsTracked {s} (erases key) v = record {
    distinct = v.distinct;
    seen = λ j h. ground (arith, v.seen j);
  }
  Step-IsTracked {s} (purges now e) v = record {
    distinct = purge_items-IsDistinct dec now s.map.expiration_queue.items v.distinct;
    seen = λ j h.
        ground (arith, purge_items-unlisted dec now j s.map.expiration_queue.items, v.seen j, e);
  }
  Step-IsTracked {s} deletes v = record {
    distinct = v.distinct;
    seen = λ j h. ground (arith, delete_all_lem dec s.expired s.map.items j, v.seen j);
  }

  -- In every interleaving of the critical sections no key is queued twice, and each stored key is
  -- queued, or a `Set` that has written it is about to queue it, or the ticker is about to delete
  -- it: no entry is left behind for good.
  pub Reach-IsTracked : {s t : Sections K V} → IsTracked s → Reach dec s t → IsTracked t
  Reach-IsTracked v here = v
  Reach-IsTracked v (later r step) = Step-IsTracked step (Reach-IsTracked v r)

  set_deleted :
      (now : ℕ) (key : K) (value : V) (s : Sections K V)
      → listed dec key s.expired ≡ true
      → IsDistinct dec s.map.expiration_queue.items
      → let t = delete_keys dec (queue_entry dec now key (write_entry dec key value s)) in
        (t.map.items key ≡ none) × (expires dec key t.map ≡ some (now + s.map.expiration_queue.ttl))
  unfolding write_entry queue_entry delete_keys
  set_deleted now key value s l d = ground (
    arith,
    delete_all_lem dec s.expired (write_entry dec key value s).map.items key,
    deadline-add dec now key key s.map.expiration_queue d,
  )

  -- A `Set` that falls between the purge and the deletion of a round of the ticker that has purged
  -- its key is lost: it has returned and the key is queued for a whole ttl, but the value is gone.
  pub set_lost :
      (purged_at set_at : ℕ) (key : K) (value : V) (s : Sections K V)
      → IsTracked s
      → listed dec key (purge_keys dec purged_at s).expired ≡ true
      → let t =
          delete_keys dec
            (queue_entry dec set_at key (write_entry dec key value (purge_keys dec purged_at s))) in
        (t.map.items key ≡ none)
        × (expires dec key t.map ≡ some (set_at + s.map.expiration_queue.ttl))
  unfolding purge_keys purge
  set_lost purged_at set_at key value s v l =
      set_deleted set_at key value (purge_keys dec purged_at s) l
        (purge_items-IsDistinct dec purged_at s.map.expiration_queue.items v.distinct)
