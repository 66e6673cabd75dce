-- ===== src/Example/Tests.antt =====
-- The demonstration's backend at a concrete herd.
use anicetus.Example.Busy.{answer, busy_times_out}
use anicetus.Example.{
  arrives, new_backend, Event, comes, goes_on, timer, gone, second, service_unavailable, handle,
  handle_at, happen, happen_all, Host, missing_port, main, main_body,
}
use anicetus.Prelude.{some, ◌*◌, ◌≡◌, refl, none, List, [], ◌∷◌, false, true, arith}
use anicetus.Command.{exits}
use anicetus.Command
use anicetus.Prelude.Int.{wrap_int64}

-- Five requests come, and each looks into the cache.
abbrev herd : List Event
herd =
    comes false none
    ∷ comes false none
    ∷ comes false none
    ∷ comes false none
    ∷ comes false none
    ∷ goes_on 1 0 timer
    ∷ goes_on 1 1 timer
    ∷ goes_on 1 2 timer
    ∷ goes_on 1 3 timer
    ∷ goes_on 1 4 timer
    ∷ goes_on 2 0 timer
    ∷ goes_on 2 1 timer
    ∷ goes_on 2 2 timer
    ∷ goes_on 2 3 timer
    ∷ goes_on 2 4 timer
    ∷ []

busy_times_out_example :
    let b = (happen_all herd ([], new_backend)).1 in
    let gathering =
      (handle 2 timer (handle 1 timer (arrives false none) new_backend).0 new_backend).0 in
    answer (handle (6 * second) timer (handle (2 * second) timer gathering b).0 new_backend).0
    ≡ some service_unavailable
unfolding happen_all happen handle_at handle wrap_int64
busy_times_out_example =
    busy_times_out herd none new_backend new_backend new_backend 1 2 (2 * second) (6 * second) timer
      timer timer timer refl (omega arith) (omega arith) (omega arith) (omega arith) (omega arith)
      (λ e. cc e)

-- A leader is answered at once, and so is the request that comes after it.
released :
    (happen_all
      (comes true none
        ∷ goes_on 0 0 timer
        ∷ goes_on 1 0 timer
        ∷ goes_on 2 0 timer
        ∷ comes false none
        ∷ goes_on 3 0 timer
        ∷ goes_on 4 0 timer
        ∷ goes_on 5 0 timer
        ∷ [])
      ([], new_backend)).0
    ≡ gone 204 ∷ gone 204 ∷ []
unfolding happen_all happen handle_at handle
released = refl

abbrev silent : Host
silent = record { listen = λ port. none; serve = none; shutdown = none }

no_port : main silent [] ≡ (missing_port ∷ [], exits 1)
unfolding main main_body Command.exit Command.handle_exit
no_port = refl
