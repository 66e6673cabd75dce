-- ===== src/Service/Handlers/Tests.antt =====
-- Handlers of many goroutines at concrete requests.
use anicetus.Prelude.{
  ◌≤◌, ◌⊎◌, ℕ, inl, inr, some, false, ◌≡◌, ◌≢◌, refl, List, [], ◌∷◌, arith, ℕ_discrete, ◌≤◌, ◌⊎◌,
}
use anicetus.Prelude.Int.{ℤ}
use anicetus.Rate.Fixed.{fixed}
use anicetus.Storage
use anicetus.Storage.{InMemory, in_memory}
use anicetus.Storage.Laws.{in_memory-IsStorage}
use anicetus.Service.Concurrent
use anicetus.Service.Concurrent.Sample.{spent_service}
use anicetus.Service.Handlers.{
  evaluates, replies, fails, Server, Event, goes_on, ticks_cooldowns, happen_all,
}
use anicetus.Service.Handlers.Covered.{IsCovered}
use anicetus.Service.Handlers.Ending.{turns_of}
use anicetus.Service.Handlers.Released.{everyone_released}

abbrev herd : Server ℕ ℤ (InMemory ℕ)
herd = record {
  handlers = λ i. record { fingerprint = 3; phase = evaluates Concurrent.starts };
  shared = spent_service;
}

-- Two handlers take turns; the backend fails the first of them.
abbrev both : List Event → List Event
both es = goes_on 0 7 fails ∷ goes_on 1 7 (replies 200) ∷ es

abbrev turns : List Event
turns =
    both
      (both (both (both (ticks_cooldowns 8 ∷ both (both (both (both (both (both (both []))))))))))

herd-IsCovered : IsCovered (λ t. t.flags) herd
herd-IsCovered f e = cc e

turns_taken : (i : ℕ) → (11 ≤ turns_of i turns) ⊎ ((turns_of i turns ≡ 0) × (false ≡ false))
unfolding turns_of
turns_taken i = elim (ℕ_discrete i 0) [
  | yes e ↦ inl (ground (arith, e))
  | no first ↦ elim (ℕ_discrete i 1) [
    | yes e ↦ inl (ground (arith, e))
    | no second ↦ inr (ground (arith, first, second), refl)
  ]
]

everyone_released_example :
    (happen_all ℕ_discrete (in_memory ℕ_discrete) (λ f. f) turns herd).shared.storage.flags 3
    ≢ some false
unfolding Storage.remove Storage.store
everyone_released_example =
    everyone_released ℕ_discrete (in_memory ℕ_discrete) (λ f. f) (λ t. t.flags)
      (in_memory-IsStorage ℕ_discrete) (λ f t. refl) (λ f t. refl) (λ f. refl) turns herd
      herd-IsCovered turns_taken 3
