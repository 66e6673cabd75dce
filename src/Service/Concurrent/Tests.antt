-- ===== src/Service/Concurrent/Tests.antt =====
-- Calls of `Evaluate` of many goroutines, at concrete requests.
use anicetus.Prelude.{none, ◌≡◌, refl, [], ◌∷◌, replicate, ℕ_discrete}
use anicetus.Status.{process}
use anicetus.Rate.Float.{seconds}
use anicetus.Rate.Fixed.{fixed, fixed-IsFloat}
use anicetus.Rate.Limiter
use anicetus.Rate.Limiter.{every, new_limiter, allow, tokens_from_duration}
use anicetus.Storage
use anicetus.Storage.{InMemory, in_memory}
use anicetus.Service.Concurrent.Sample.{spent_service}
use anicetus.Service.Concurrent.{starts, ends}
use anicetus.Service.Concurrent.Unseen.{each_at}
use anicetus.Service.Concurrent.Leaders.{all_lead}

all_lead_example :
    each_at ℕ_discrete
      (in_memory ℕ_discrete)
      3
      (5 ∷ 6 ∷ 7 ∷ 8 ∷ 9 ∷ [])
      (replicate 4 starts)
      spent_service
    ≡ replicate 4 (ends (process, none))
unfolding allow every seconds tokens_from_duration new_limiter Limiter.advance Limiter.sub_time
    Limiter.duration_from_tokens
all_lead_example =
    all_lead ℕ_discrete 3 fixed-IsFloat 5 6 7 8 9 4 0 1 spent_service refl refl refl refl
      (refl, refl, refl) refl
