-- ===== src/Anicetus/Tests.antt =====
-- anicetus.go at concrete requests: numbers for fingerprints, the in-memory storage, and a detector
-- that sees a herd in every request but those with fingerprint 9.
use anicetus.Prelude.{
  if◌then◌else◌, ℕ, ℕ_discrete, suc, false, none, some, ◌≡◌, refl, [], ◌∷◌, arith, not, no_entries,
  List, ◌==◌, ◌⊎◌, ◌≤◌, inl, inr,
}
use anicetus.Errors.{ok}
use anicetus.Status.{process, wait, open_gates, failed}
use anicetus.Storage
use anicetus.Gatekeeper
use anicetus.Gatekeeper.{GatekeeperStorage, analyze}
use anicetus.Storage.{InMemory, in_memory, new_in_memory}
use anicetus.Storage.Laws.{in_memory-IsStorage}
use anicetus.Anicetus.{Detector, Anicetus, evaluate, request_done}
use anicetus.Anicetus.Verdicts.{Means, evaluate-Means}
use anicetus.Anicetus.Leader.{Call, evaluates, dones, leaders, one_leader, step, status_of}
use anicetus.Anicetus.Cycle.{done_releases, pass_restarts, run}

abbrev herds : Detector ℕ (Unit {0})
herds = record {
  cool_down = λ f d. (ok tt, d);
  is_cool_down = λ f d. (ok false, d);
  is_thundering_herd = λ f d. (ok (not (f == 9)), d);
}

abbrev print : ℕ → ℕ
print r = r

abbrev start : Anicetus (Unit {0}) (InMemory ℕ)
start = record { detector = tt; storage = record { flags = no_entries } }

abbrev led : Anicetus (Unit {0}) (InMemory ℕ)
led = record {
  detector = tt;
  storage = record { flags = λ k. if k == 3 then some false else none };
}

abbrev storage : GatekeeperStorage ℕ (InMemory ℕ)
storage = in_memory ℕ_discrete

evaluate-Means_example :
    Means print herds storage (λ s. s.flags) 3 led (evaluate print herds storage 3 led).1 none wait
unfolding evaluate analyze Storage.exists Storage.processed
evaluate-Means_example =
    evaluate-Means print herds storage (λ s. s.flags) (in_memory-IsStorage ℕ_discrete) 3 led

abbrev herd_of_three : List (Call ℕ)
herd_of_three = evaluates 3 ∷ evaluates 4 ∷ evaluates 3 ∷ dones 4 ∷ evaluates 3 ∷ []

one_leader_example : leaders ℕ_discrete print herds storage 3 start herd_of_three ≤ 1
unfolding step evaluate request_done analyze Storage.exists Storage.processed Storage.store
    ℕ_discrete Gatekeeper.store
one_leader_example =
    one_leader ℕ_discrete print herds storage (λ s. s.flags) (in_memory-IsStorage ℕ_discrete) 3
      start herd_of_three
      (
        λ _. inl refl,
        (λ _. inl refl, (λ _. inr refl, (λ e. absurd (omega arith), (λ _. inr refl, tt)))),
      )

one_leader_runs : leaders ℕ_discrete print herds storage 3 start herd_of_three ≡ 1
unfolding leaders step evaluate request_done analyze Storage.exists Storage.processed Storage.store
    ℕ_discrete Gatekeeper.store
one_leader_runs = refl

done_releases_example :
    let s =
      status_of ℕ_discrete print herds storage
        (run ℕ_discrete print herds storage
          (request_done print herds storage 3 led).1
          (evaluates 4 ∷ []))
        3 in
    (s ≡ open_gates) ⊎ (s ≡ failed)
unfolding request_done Gatekeeper.store Storage.store
done_releases_example =
    done_releases ℕ_discrete print herds storage (λ s. s.flags) (in_memory-IsStorage ℕ_discrete) 3
      led (evaluates 4 ∷ []) refl (λ e. absurd (omega arith), tt)

-- A detector that sees a herd in all requests but the first.
abbrev later_herds : Detector ℕ ℕ
later_herds = record {
  cool_down = λ f d. (ok tt, d);
  is_cool_down = λ f d. (ok false, d);
  is_thundering_herd = λ f d. (ok (not (d == 0)), suc d);
}

-- The leader of fingerprint 3 is at work.
abbrev at_work : Anicetus ℕ (InMemory ℕ)
at_work = record {
  detector = 0;
  storage = record { flags = λ k. if k == 3 then some false else none };
}

pass_restarts_example :
    let s =
      status_of ℕ_discrete print later_herds storage
        (run ℕ_discrete print later_herds storage
          (step ℕ_discrete print later_herds storage at_work (evaluates 3))
          (evaluates 4 ∷ []))
        3 in
    (s ≡ process) ⊎ (s ≡ failed)
unfolding run step evaluate analyze Gatekeeper.remove Storage.remove Storage.exists Storage.store
pass_restarts_example =
    pass_restarts ℕ_discrete print later_herds storage (λ s. s.flags)
      (in_memory-IsStorage ℕ_discrete) 3 at_work (evaluates 4 ∷ []) refl refl refl
      (λ e. absurd (omega arith), tt) refl refl
