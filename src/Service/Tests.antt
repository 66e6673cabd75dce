-- ===== src/Service/Tests.antt =====
-- The service in memory at a concrete herd, over the decimal arithmetic.
use anicetus.Envs.{Settings}
use anicetus.Service.Resources.{Resources, new_resources}
use anicetus.Service.Starting.{starts_with_one_leader}
use anicetus.Prelude.{some, ℕ, ◌≡◌, refl, [], ◌∷◌, arith, ℕ_discrete, no_entries, none}
use anicetus.Storage.{in_memory}
use anicetus.Detector.Timed.{timed_detector, read_clock, timed_cool_down, timed_is_cool_down}
use anicetus.Anicetus.{request_done, evaluate}
use anicetus.Errors.{ok}
use anicetus.Anicetus.Leader.{evaluates, cleans}
use anicetus.Prelude.Int.{ℤ, pos}
use anicetus.Status.{process, wait, open_gates}
use anicetus.Rate.Float.{seconds}
use anicetus.Rate.Fixed.{fixed, fixed-IsFloat}
use anicetus.Rate.Limiter.{every, tokens_from_duration}
use anicetus.Service.{Service}
use anicetus.Service.Ticking.{calls, ticks_cooldowns, ticks_limiters, run, step}
use anicetus.Detector.InMemory.{cool_down, is_cool_down}
use anicetus.Mapexp.Map
use anicetus.Gatekeeper
use anicetus.Storage
use anicetus.Anicetus.Leader
use anicetus.Mapexp.Calls.{IsValid}
use anicetus.Service.Cycle.{done_opens_gates}
use anicetus.Service.Herd.{statuses, herd_has_one_leader}

abbrev print : ℕ → ℕ
print r = r

abbrev service : Service ℕ ℤ
service = record {
  detector = record {
    buckets = record {
      cooldowns = record { items = no_entries; expiration_queue = record { items = []; ttl = 10 } };
      limiters = record {
        items = no_entries;
        expiration_queue = record { items = []; ttl = 2_000_000_000 };
      };
      limiters_burst = pos 2;
      limiters_interval = pos 1_000_000_000;
    };
    clock = record { now = 5; delays = [] };
  };
  storage = record { flags = no_entries };
}

herd_has_one_leader_example :
    statuses ℕ_discrete print 6 3 service
    ≡ open_gates ∷ open_gates ∷ process ∷ wait ∷ wait ∷ wait ∷ []
unfolding every seconds tokens_from_duration
herd_has_one_leader_example =
    herd_has_one_leader ℕ_discrete print fixed-IsFloat 3 2 3 5 service refl refl refl refl
      (omega arith) (omega arith) refl refl (refl, refl, refl)

service-IsValid : IsValid ℕ_discrete service.detector.buckets.cooldowns
service-IsValid = record { distinct = tt; queued = λ key h. refl }

-- `RequestDone` comes at 6, and what follows at 15, 20 and 21.
abbrev timed_service : Service ℕ ℤ
timed_service = record service {
  detector = record service.detector {
    clock = record { now = 5; delays = 1 ∷ 9 ∷ 5 ∷ 1 ∷ 2 ∷ [] };
  };
}

-- Asked at 15, a cooldown of 10 is not over at 20.
done_opens_gates_example :
    let done =
      request_done print (timed_detector ℕ_discrete) (in_memory ℕ_discrete) 3 timed_service in
    (done.0 ≡ ok tt)
    × ((evaluate print (timed_detector ℕ_discrete) (in_memory ℕ_discrete) 3 (
          run ℕ_discrete print done.1
            (calls (evaluates 3) ∷ ticks_cooldowns ∷ ticks_limiters ∷ calls (cleans 3) ∷ []))).0
        ≡ (open_gates, none))
unfolding step run read_clock Leader.step evaluate request_done timed_cool_down timed_is_cool_down
    is_cool_down cool_down Map.get Map.set Gatekeeper.store Storage.store ℕ_discrete
done_opens_gates_example =
    done_opens_gates ℕ_discrete print 3 3 timed_service
      (calls (evaluates 3) ∷ ticks_cooldowns ∷ ticks_limiters ∷ calls (cleans 3) ∷ []) refl
      service-IsValid (omega arith, tt)

-- One request a minute.
abbrev once_a_minute : Settings ℕ ℤ ℕ
once_a_minute = record {
  port = pos 8080;
  logger_level = 0;
  fields = [];
  headers = [];
  cookies = [];
  requests_per_minute = pos 1;
  cool_down = pos 10;
  timeout = pos 10;
  address = none;
}

starts_with_one_leader_example :
    (r : Resources ℕ ℤ ℕ) × (new_resources (record { now = 5; delays = [] }) once_a_minute ≡ some r)
    × (statuses ℕ_discrete print 4 3 r.anicetus ≡ open_gates ∷ process ∷ wait ∷ wait ∷ [])
unfolding every seconds tokens_from_duration
starts_with_one_leader_example =
    starts_with_one_leader ℕ_discrete print fixed-IsFloat once_a_minute 1 10 2 5 3 refl refl
      (omega arith) (omega arith) (omega arith) refl refl (refl, refl, refl)
