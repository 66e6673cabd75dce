-- ===== src/Storage/RedisLaws.antt =====
-- storage/redigo/redis.go keeps the contract of a storage, on what Redis documents.
use anicetus.Prelude.{
  ℕ, Bool, true, false, not, ◌==◌, Option, none, some, ◌≡◌, ◌≢◌, ◌∙◌, refl, ap, arith,
}
use anicetus.Errors.{Result, ok, err}
use anicetus.Gatekeeper.Contract.{IsStorage, is_some, is_true}
use anicetus.Storage.Redis.{
  Redigo, IsRedis, redis_storage, redis_exists, redis_processed, redis_store, redis_remove, exists,
  get, set, del, bool_to_int,
}
use Prim.Native.String.{String}

abbrev pub truth : Option ℕ → Option Bool
truth none = none
truth (some v) = some (not (v == 0))

module _ {F W Reply : Type 0} (redis : Redigo F W Reply) (keys : W → F → Option ℕ)
    (laws : IsRedis redis keys) where
  -- The processed flag of a fingerprint is the number at its key.
  abbrev pub redis_flag : W → F → Option Bool
  redis_flag w f = truth (keys w f)

  abbrev connected : W → W
  connected w = (redis.get_context w).1

  connected_flag : (w : W) (f : F) → redis_flag (connected w) f ≡ redis_flag w f
  connected_flag w f = ap (λ k. truth (k f)) (laws.connect_same w)

  exists_at :
      (f : F) (w : W) (b : Bool) (v : Option ℕ) (reply : Result ℕ)
      → keys (connected w) f ≡ v
      → redis.to_int (redis.run (exists f) (connected w)).0 ≡ reply
      → (redis_exists redis f w).0 ≡ ok b
      → b ≡ is_some (truth v)
  unfolding redis_exists
  exists_at f w b none (ok n) p q h = ground (arith, laws.exists_none f (connected w) n q p)
  exists_at f w b (some v) (ok n) p q h = ground (arith, laws.exists_some f (connected w) n v q p)
  exists_at f w b v (err e) p q h = ground arith

  exists_keeps : (f : F) (w : W) → keys (redis_exists redis f w).1 ≡ keys w
  unfolding redis_exists
  exists_keeps f w = ground (arith, laws.connect_same w, laws.exists_same f (connected w))

  processed_at :
      (f : F) (w : W) (b : Bool) (v : Option ℕ) (reply : Result (Option Bool))
      → keys (connected w) f ≡ v
      → redis.to_bool (redis.run (get f) (connected w)).0 ≡ reply
      → (redis_processed redis f w).0 ≡ ok b
      → b ≡ is_true (truth v)
  unfolding redis_processed
  processed_at f w b none (ok o) p q h = ground (arith, laws.get_none f (connected w) o q p)
  processed_at f w b (some v) (ok o) p q h = ground (arith, laws.get_some f (connected w) o v q p)
  processed_at f w b v (err e) p q h = ground arith

  processed_keeps : (f : F) (w : W) → keys (redis_processed redis f w).1 ≡ keys w
  unfolding redis_processed
  processed_keeps f w = ground (arith, laws.connect_same w, laws.get_same f (connected w))

  store_writes :
      (f : F) (b : Bool) (w : W) (reply : Result String)
      → redis.to_string (redis.run (set f (bool_to_int b)) (connected w)).0 ≡ reply
      → (redis_store redis f b w).0 ≡ ok tt
      → redis_flag (redis_store redis f b w).1 f ≡ some b
  unfolding redis_store
  store_writes f true w (ok s) q h = ground (arith, laws.set_ok f 1 (connected w) s q)
  store_writes f false w (ok s) q h = ground (arith, laws.set_ok f 0 (connected w) s q)
  store_writes f b w (err e) q h = ground arith

  store_keeps : (f g : F) (b : Bool) (w : W) → f ≢ g → keys (redis_store redis f b w).1 g ≡ keys w g
  unfolding redis_store
  store_keeps f g b w ne =
      ground (arith, laws.connect_same w, laws.set_frame f g (bool_to_int b) (connected w) ne)

  remove_erases :
      (f : F) (w : W) (reply : Result ℕ)
      → redis.to_int (redis.run (del f) (connected w)).0 ≡ reply
      → (redis_remove redis f w).0 ≡ ok tt
      → keys (redis_remove redis f w).1 f ≡ none
  unfolding redis_remove
  remove_erases f w (ok n) q h = ground (arith, laws.del_ok f (connected w) n q)
  remove_erases f w (err e) q h = ground arith

  remove_keeps : (f g : F) (w : W) → f ≢ g → keys (redis_remove redis f w).1 g ≡ keys w g
  unfolding redis_remove
  remove_keeps f g w ne = ground (arith, laws.connect_same w, laws.del_frame f g (connected w) ne)

  -- The Redis storage keeps the contract of GatekeeperStorage, if the commands do what Redis
  -- documents.
  pub redis_storage-IsStorage : IsStorage (redis_storage redis) redis_flag
  redis_storage-IsStorage = record {
    exists_ok = λ f w b h. exists_at f w b _ _ refl refl h ∙ ap is_some (connected_flag w f);
    exists_same = λ f w. ap (λ k g. truth (k g)) (exists_keeps f w);
    processed_ok = λ f w b h. processed_at f w b _ _ refl refl h ∙ ap is_true (connected_flag w f);
    processed_same = λ f w. ap (λ k g. truth (k g)) (processed_keeps f w);
    store_ok = λ f b w h. store_writes f b w _ refl h;
    store_frame = λ f g b w ne. ap truth (store_keeps f g b w ne);
    remove_ok = λ f w h. ap truth (remove_erases f w _ refl h);
    remove_frame = λ f g w ne. ap truth (remove_keeps f g w ne);
  }
