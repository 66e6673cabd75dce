-- ===== src/Example.antt =====
-- example/backend/main.go: the backend that the demonstrations run behind anicetus. The handlers of
-- its requests are goroutines that share atomic counters. A step is what a handler does at a time
-- up to its next test or wait, with the counters that it changes there, or all of what the ticker
-- does at one report. A handler that starts a timer looks at its `select` at that time.
pub mod Busy
mod Tests
use anicetus.Prelude.{
  ℕ, zero, suc, ◌+◌, ◌*◌, ◌-◌, ltb, ◌&&◌, Bool, true, false, if◌then◌else◌, Option, none, some,
  List, [], ◌∷◌, ◌++◌, map,
}
use anicetus.Prelude.Int.{ℤ, pos, negsuc, wrap_int64, pos_part}
use anicetus.Errors.{Error}
use anicetus.Message.{Text}
use anicetus.Command
use anicetus.Command.{
  ExitCode, invalid_input, setup_failure, Outcome, finished, Ending, exit, handle_exit,
  listen_failure, serve_failure, shutdown_failure, starting, stopped, entry_of,
}

pub record Stats : Type 0 where
  pub requests : ℕ
  pub timeouts : ℕ
  pub success : ℕ
  pub cached : ℕ

abbrev pub no_stats : Stats
no_stats = record { requests = 0; timeouts = 0; success = 0; cached = 0 }

-- What the calls share.
pub record Backend : Type 0 where
  pub number_of_requests : ℕ
  pub cache_enabled : Bool
  pub stats : Stats

abbrev pub new_backend : Backend
new_backend = record { number_of_requests = 0; cache_enabled = false; stats = no_stats }

-- How far a call is: before it is counted, by whether its status is `process` and when its client
-- leaves; then with the end of its context; in the first and in the second `select`, with the times
-- at which the context and the timer become ready for it; in `time.Sleep`, with its end; before the
-- deferred decrement; and at its end. The codes are those of the answer.
pub data Phase : Type 0 where
  arrives : Bool → Option ℕ → Phase
  entered : Bool → (context_end : ℕ) → Phase
  gathers works : (context_end timer_end : ℕ) → Phase
  sleeps : (code until : ℕ) → Phase
  leaves gone : ℕ → Phase

-- What ends a `select`: the end of the context, or the timer.
pub data Fired : Type 0 where
  context_done timer : Fired

abbrev pub second : ℕ
second = 1_000_000_000

abbrev no_content : ℕ
no_content = 204

abbrev pub service_unavailable : ℕ
service_unavailable = 503

-- `context.WithTimeout(r.Context(), 5*time.Second)`
abbrev pub with_timeout : (now : ℕ) → Option ℕ → ℕ
with_timeout now none = now + 5 * second
with_timeout now (some quits) = if ltb quits (now + 5 * second) then quits else now + 5 * second

-- When a `select` that is looked at now sees what is ready at a time.
abbrev pub seen_from : (now time : ℕ) → ℕ
seen_from now time = if ltb time now then now else time

-- The case of a `select` that is ready first; of two that are ready together the runtime chooses
-- one.
abbrev pub first_ready : Fired → (context_end timer_end : ℕ) → Fired
first_ready choice c t = if ltb c t then context_done else (if ltb t c then timer else choice)

abbrev pub timed_out : (now : ℕ) → Backend → Phase × Backend
timed_out now b = (
  sleeps service_unavailable (now + second),
  record b { stats = record b.stats { timeouts = suc b.stats.timeouts } },
)

-- The timers of the two `select`s, started now.
abbrev pub gather_from : (now context_end : ℕ) → Phase
gather_from now c = gathers (seen_from now c) (now + second)

abbrev pub work_from : (now context_end : ℕ) → Backend → Phase
work_from now c b =
    works (seen_from now c) (now + pos_part (wrap_int64 (pos (b.number_of_requests * second))))

-- The step of a call at a time, with the choice of the runtime; nothing happens before it can go
-- on.
unfoldable pub handle : (now : ℕ) → Fired → Phase → Backend → Phase × Backend
handle now choice (arrives process quits) b = (
  entered process (with_timeout now quits),
  record b {
    number_of_requests = suc b.number_of_requests;
    stats = record b.stats { requests = suc b.stats.requests };
  },
)
handle now choice (entered true c) b = (
  leaves no_content,
  record b { cache_enabled = true; stats = record b.stats { success = suc b.stats.success } },
)
handle now choice (entered false c) b =
    if b.cache_enabled
    then (leaves no_content, record b { stats = record b.stats { cached = suc b.stats.cached } })
    else (gather_from now c, b)
handle now choice (gathers c t) b =
    if ltb now c && ltb now t then (gathers c t, b) else elim (first_ready choice c t) [
      | context_done ↦ timed_out now b
      | timer ↦ (work_from now c b, b)
    ]
handle now choice (works c t) b =
    if ltb now c && ltb now t then (works c t, b) else elim (first_ready choice c t) [
      | context_done ↦ timed_out now b
      | timer ↦ (
        sleeps no_content (now + second),
        record b { stats = record b.stats { success = suc b.stats.success } },
      )
    ]
handle now choice (sleeps code until) b =
    if ltb now until then (sleeps code until, b) else (leaves code, b)
handle now choice (leaves code) b =
    (gone code, record b { number_of_requests = b.number_of_requests - 1 })
handle now choice (gone code) b = (gone code, b)

-- The call goes on by one step.
unfoldable pub handle_at : (now : ℕ) → ℕ → Fired → List Phase → Backend → List Phase × Backend
handle_at now i choice [] b = ([], b)
handle_at now zero choice (phase ∷ phases) b =
    let (phase', b') = handle now choice phase b in (phase' ∷ phases, b')
handle_at now (suc i) choice (phase ∷ phases) b =
    let (phases', b') = handle_at now i choice phases b in (phase ∷ phases', b')

-- A request comes, whose status is `process` or not and whose client may leave at a time, a call
-- goes on at a time, or the ticker reports.
pub data Event : Type 0 where
  comes : Bool → Option ℕ → Event
  goes_on : (now call : ℕ) → Fired → Event
  reports : Event

unfoldable pub happen : Event → List Phase × Backend → List Phase × Backend
happen (comes process quits) (phases, b) = (arrives process quits ∷ phases, b)
happen (goes_on now i choice) (phases, b) = handle_at now i choice phases b
happen reports (phases, b) = (phases, record b { stats = no_stats })

unfoldable pub happen_all : List Event → List Phase × Backend → List Phase × Backend
happen_all [] s = s
happen_all (e ∷ es) s = happen_all es (happen e s)

-- The network and the signals, as in Command, with a port that is a text.
pub record Host : Type 0 where
  pub listen : Text → Option Error
  pub serve : Option Error
  pub shutdown : Option Error

-- A log entry but for those with the stats.
pub data Entry : Type 0 where
  missing_port : Entry
  says : Command.Entry → Entry

-- The log of `main` from `Serve` to its end, after a signal has come.
abbrev served : Host → List Command.Entry
served host =
    entry_of serve_failure host.serve ++ (entry_of shutdown_failure host.shutdown ++ stopped ∷ [])

-- The body of `main` at the value of ANICETUS_EXAMPLE_BACKEND_PORT.
unfoldable pub main_body : Host → Text → List Entry × Outcome
main_body host [] = (missing_port ∷ [], exit invalid_input)
main_body host (c ∷ cs) = elim (host.listen (c ∷ cs)) [
  | some e ↦ (says (listen_failure e) ∷ [], exit setup_failure)
  | none ↦ (map says (starting ∷ served host), finished)
]

-- The log, and the ending.
unfoldable pub main : Host → Text → List Entry × Ending
main host port = let (log, outcome) = main_body host port in (log, handle_exit outcome)
