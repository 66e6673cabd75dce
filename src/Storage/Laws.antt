-- ===== src/Storage/Laws.antt =====
-- storage/inmemory.go keeps the contract of a storage, and never fails.
use anicetus.Prelude.{refl, arith}
use anicetus.Gatekeeper.Contract.{IsStorage}
use anicetus.Storage.{exists, processed, store, remove, in_memory}

-- The in-memory storage keeps the contract of `GatekeeperStorage`, with its table as the flags.
pub in_memory-IsStorage : {F : Type 0} (dec : Discrete F) → IsStorage (in_memory dec) (λ s. s.flags)
unfolding exists processed store remove
in_memory-IsStorage dec = record {
  exists_ok = λ f s b h. ground arith;
  exists_same = λ f s. refl;
  processed_ok = λ f s b h. ground arith;
  processed_same = λ f s. refl;
  store_ok = λ f b s h. ground arith;
  store_frame = λ f g b s ne. ground arith;
  remove_ok = λ f s h. ground arith;
  remove_frame = λ f g s ne. ground arith;
}
