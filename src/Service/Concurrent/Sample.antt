-- ===== src/Service/Concurrent/Sample.antt =====
-- A service in memory before and after its first requests, for the runs of many goroutines.
use anicetus.Prelude.{some, ℕ, [], no_entries}
use anicetus.Prelude.Int.{ℤ, pos}
use anicetus.Rate.Fixed.{fixed}
use anicetus.Rate.Limiter.{every, new_limiter, allow}
use anicetus.Storage.{InMemory}
use anicetus.Service.Concurrent.{State}

-- Neither a cooldown nor a limiter yet, a burst of 1 and a token each second.
abbrev pub idle_service : {F : Type 0} → State F ℤ (InMemory F)
idle_service = record {
  cooldowns = record { items = no_entries; expiration_queue = record { items = []; ttl = 10 } };
  limiters = record {
    heap = λ p. new_limiter (pos 0) (pos 0);
    next = 0;
    limiters = record {
      items = no_entries;
      expiration_queue = record { items = []; ttl = 1_000_000_000 };
    };
    limiters_burst = pos 1;
    limiters_interval = pos 1_000_000_000;
  };
  storage = record { flags = no_entries };
}

-- The limiter of every fingerprint has just spent its one token.
abbrev pub spent_service : State ℕ ℤ (InMemory ℕ)
spent_service = record idle_service {
  limiters = record idle_service.limiters {
    heap = λ p. (allow 7 (new_limiter (every (pos 1_000_000_000)) (pos 1))).1;
    limiters = record idle_service.limiters.limiters { items = λ f. some 0 };
  };
}
