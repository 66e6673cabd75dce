-- ===== src/Mapexp/Tests.antt =====
-- The maps of internal/mapexp at concrete histories.
use anicetus.Mapexp.Entries.{deadline, listed}
use anicetus.Prelude.{
  ℕ, ◌≡◌, refl, [], ◌∷◌, none, some, arith, ℕ_discrete, no_entries, if◌then◌else◌, ◌==◌, inl,
}
use anicetus.Mapexp.Queue.{Item, purge, purge_items}
use anicetus.Mapexp.Map.{Map, new, get, tick}
use anicetus.Mapexp.Calls.{sets, run, expires, IsValid}
use anicetus.Mapexp.Purging.{get_blocks_tick, unless_over}
use anicetus.Mapexp.Sections.{
  Sections, write_entry, queue_entry, purge_keys, delete_keys, here, later, purges, writes, queues,
}
use anicetus.Mapexp.Interleaved.{IsTracked, Reach-IsTracked, set_lost}
use anicetus.Mapexp.Unread.{unread_exact}

abbrev item : ℕ → ℕ → Item ℕ
item k e = record { key = k; expiration = e }

-- Keys 1 and 2, stored at times 0 and 4 with a ttl of 10.
abbrev two_entries : Map ℕ ℕ
two_entries = record {
  items = λ k. if k == 1 then some 11 else if k == 2 then some 22 else none;
  expiration_queue = record { items = item 1 10 ∷ item 2 14 ∷ []; ttl = 10 };
}

abbrev fresh : Map ℕ ℕ
fresh = record { items = no_entries; expiration_queue = record { items = []; ttl = 10 } }

fresh-IsValid : IsValid ℕ_discrete fresh
fresh-IsValid = record { distinct = tt; queued = λ key h. refl }

two_entries-IsValid : IsValid ℕ_discrete two_entries
unfolding deadline
two_entries-IsValid = record { distinct = (ground arith); queued = λ key h. ground arith }

-- Key 2 is over at 14, and the tick at 18 leaves it, since key 1 was read at 9.
get_blocks_tick_example :
    tick ℕ_discrete 18 (get ℕ_discrete 9 1 two_entries).1 ≡ (get ℕ_discrete 9 1 two_entries).1
get_blocks_tick_example =
    get_blocks_tick ℕ_discrete 9 18 two_entries (item 1 10) (item 2 14 ∷ []) refl (omega arith)

unread_exact_example :
    let last = run ℕ_discrete fresh (sets 0 1 11 ∷ sets 4 2 22 ∷ []) in
    (tick ℕ_discrete 12 last).items 1 ≡ unless_over 12 (some 10) (last.items 1)
unfolding new ℕ_discrete
unread_exact_example =
    unread_exact ℕ_discrete 10 fresh (sets 0 1 11 ∷ sets 4 2 22 ∷ []) 12 1 refl (omega arith)

-- Key 1 is over at 12; it is set at 13, before the ticker has deleted it.
abbrev at_rest : Sections ℕ ℕ
at_rest = record { map = two_entries; unqueued = λ k. 0; expired = [] }

at_rest-IsTracked : IsTracked ℕ_discrete at_rest
unfolding deadline
at_rest-IsTracked = record {
  distinct = two_entries-IsValid.distinct;
  seen = λ key h. inl (two_entries-IsValid.queued key h);
}

abbrev set_between : Sections ℕ ℕ
set_between =
    queue_entry ℕ_discrete 13 1 (write_entry ℕ_discrete 1 33 (purge_keys ℕ_discrete 12 at_rest))

Reach-IsTracked_example : IsTracked ℕ_discrete set_between
unfolding write_entry purge_keys ℕ_discrete
Reach-IsTracked_example =
    Reach-IsTracked ℕ_discrete at_rest-IsTracked
      (later (later (later here (purges 12 refl)) (writes 1 33)) (queues 13 1 (omega arith)))

set_lost_example :
    let last = delete_keys ℕ_discrete set_between in
    (last.map.items 1 ≡ none) × (expires ℕ_discrete 1 last.map ≡ some 23)
unfolding purge_keys purge purge_items listed ℕ_discrete
set_lost_example = set_lost ℕ_discrete 12 13 1 33 at_rest at_rest-IsTracked refl
