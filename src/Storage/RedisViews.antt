-- ===== src/Storage/RedisViews.antt =====
-- anicetus.go on storage/redigo/redis.go, where the Redis server does not fail.
use anicetus.Prelude.{ℕ, Option, ◌≡◌, List}
use anicetus.Anicetus.{Detector, Anicetus}
use anicetus.Anicetus.Leader.{Call}
use anicetus.Anicetus.Storages.{outcomes, on_view}
use anicetus.Storage.{in_memory}
use anicetus.Storage.Redis.{Redigo, IsRedis, redis_storage}
use anicetus.Storage.RedisLaws.{redis_storage-IsStorage, redis_flag}
use anicetus.Storage.Views.{IsReliable, outcomes_as_in_memory}

-- With any detector, all calls of a history return on the Redis storage what they return on the
-- storage in memory with the flags that the keys of the server hold, if the commands do what Redis
-- documents and none of them fails.
pub redis_as_in_memory :
    {Q F D W Reply : Type 0} (dec : Discrete F) (redis : Redigo F W Reply) (keys : W → F → Option ℕ)
    (laws : IsRedis redis keys) (works : IsReliable (redis_storage redis)) (print : Q → F)
    (detector : Detector F D) (cs : List (Call Q)) (t : Anicetus D W)
    → outcomes print detector (redis_storage redis) t cs
      ≡ outcomes print detector
          (in_memory dec)
          (on_view (λ w. record { flags = redis_flag redis keys laws w }) t)
          cs
redis_as_in_memory dec redis keys laws works print detector cs t =
    outcomes_as_in_memory dec (redis_storage redis) (redis_flag redis keys laws)
      (redis_storage-IsStorage redis keys laws) works print detector cs t
