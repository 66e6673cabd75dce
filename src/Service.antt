-- ===== src/Service.antt =====
-- The parts in memory put together as internal/http/resources.go does: anicetus.go over the token
-- bucket of detector/tokenbucket_inmemory.go and the storage of storage/inmemory.go.
pub mod Ticking
pub mod Cycle
pub mod Herd
pub mod Resources
pub mod Starting
pub mod Concurrent
pub mod Handlers
mod Tests
use anicetus.Prelude.{List, [], ◌∷◌}
use anicetus.Anicetus.{Anicetus}
use anicetus.Anicetus.Leader.{Call}
use anicetus.Anicetus.Leader
use anicetus.Detector.Timed.{Timed, timed_detector}
use anicetus.Rate.Float.{Float64}
use anicetus.Storage.{InMemory, in_memory}

abbrev pub Service : Type 0 → Type 0 → Type 0
Service F R = Anicetus (Timed F R) (InMemory F)

module _ {Q F R : Type 0} (dec : Discrete F) ⦃fl : Float64 R⦄ (print : Q → F) where
  abbrev pub serve : Service F R → Call Q → Service F R
  serve = Leader.step dec print (timed_detector dec) (in_memory dec)
