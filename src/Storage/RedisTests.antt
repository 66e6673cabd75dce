-- ===== src/Storage/RedisTests.antt =====
-- A Redis server in memory, and the contract of storage/redigo/redis.go over it.
use anicetus.Storage.RedisViews.{redis_as_in_memory}
use anicetus.Storage.Views.{IsReliable}
use anicetus.Anicetus.{Detector}
use anicetus.Anicetus.Leader.{Call, evaluates, dones, cleans}
use anicetus.Anicetus.Storages.{outcomes}
use anicetus.Storage.{in_memory}
use anicetus.Prelude.{
  List, [], ◌∷◌, ◌≡◌, Option-cases, inl, inr, no_entries, true, false, ℕ, Bool, not, ◌==◌, Option,
  none, some, refl, sym, arith, Table, write, erase, ℕ_discrete, if_pos, if_neg, false, List,
  no_entries, true, ◌≡◌,
}
use anicetus.Errors.{plain, Result, ok, err}
use anicetus.Storage.Redis.{
  Redigo, IsRedis, Command, exists, get, set, del, redis_storage, redis_exists, redis_processed,
  redis_store, redis_remove,
}
use Prim.Native.String.{String}

data Reply : Type 0 where
  number : ℕ → Reply
  value : Option ℕ → Reply
  status : String → Reply

abbrev as_int : Reply → Result ℕ
as_int (number n) = ok n
as_int _ = err (plain "unexpected type")

abbrev as_bool : Reply → Result (Option Bool)
as_bool (value none) = ok none
as_bool (value (some v)) = ok (some (not (v == 0)))
as_bool _ = err (plain "unexpected type")

abbrev as_string : Reply → Result String
as_string (status s) = ok s
as_string _ = err (plain "unexpected type")

abbrev presence : Option ℕ → ℕ
presence none = 0
presence (some v) = 1

abbrev serve : Command ℕ → Table ℕ ℕ → Reply × Table ℕ ℕ
serve (exists f) w = (number (presence (w f)), w)
serve (get f) w = (value (w f), w)
serve (del f) w = (number (presence (w f)), erase ℕ_discrete w f)
serve (set f v) w = (status "OK", write ℕ_discrete w f v)

abbrev server : Redigo ℕ (Table ℕ ℕ) Reply
server = record {
  get_context = λ w. (ok tt, w);
  run = serve;
  to_int = as_int;
  to_bool = as_bool;
  to_string = as_string;
}

abbrev all_keys : Table ℕ ℕ → ℕ → Option ℕ
all_keys w = w

server-IsRedis : IsRedis server all_keys
server-IsRedis = record {
  connect_same = λ w. refl;
  exists_same = λ f w. refl;
  exists_none = λ f w n p q. ground arith;
  exists_some = λ f w n v p q. ground arith;
  get_same = λ f w. refl;
  get_none = λ f w b p q. ground arith;
  get_some = λ f w b v p q. ground arith;
  set_ok = λ f v w s p q. if_pos (ℕ_discrete f f) refl _ _;
  set_frame = λ f g v w ne. if_neg (ℕ_discrete g f) (λ e. ne (sym e)) _ _;
  del_ok = λ f w n p. if_pos (ℕ_discrete f f) refl _ _;
  del_frame = λ f g w ne. if_neg (ℕ_discrete g f) (λ e. ne (sym e)) _ _;
}

server_works : IsReliable (redis_storage server)
unfolding redis_exists redis_processed redis_store redis_remove
server_works = record {
  exists_works = λ f w. (_, refl);
  processed_works = λ f w. elim (Option-cases (w f)) [
    | inl e ↦ (false, ground (arith, e))
    | inr (v, e) ↦ (not (v == 0), ground (arith, e))
  ];
  store_works = λ f b w. refl;
  remove_works = λ f w. refl;
}

-- A detector that always sees a herd.
abbrev herds : Detector ℕ ℕ
herds = record {
  cool_down = λ f d. (ok tt, d);
  is_cool_down = λ f d. (ok false, d);
  is_thundering_herd = λ f d. (ok true, d);
}

abbrev herd : List (Call ℕ)
herd = evaluates 3 ∷ evaluates 4 ∷ evaluates 3 ∷ dones 3 ∷ evaluates 3 ∷ cleans 4 ∷ evaluates 4 ∷ []

redis_as_in_memory_example :
    outcomes
      (λ (r : ℕ). r)
      herds
      (redis_storage server)
      (record { detector = 0; storage = no_entries })
      herd
    ≡ outcomes
        (λ (r : ℕ). r)
        herds
        (in_memory ℕ_discrete)
        (record { detector = 0; storage = record { flags = λ f. none } })
        herd
redis_as_in_memory_example =
    redis_as_in_memory ℕ_discrete server all_keys server-IsRedis server_works (λ r. r) herds herd
      (record { detector = 0; storage = no_entries })
