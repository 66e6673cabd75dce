-- ===== src/Command.antt =====
-- cmd/anicetus-http/main.go. The network, the server of net/http and the signals are the record
-- Host; `main` ends after a signal has come. A log entry is what it says, without its text.
pub mod Endings
mod Tests
use anicetus.Prelude.{
  ℕ, zero, suc, leb, length, if◌then◌else◌, Option, none, some, List, [], ◌∷◌, ◌++◌, ◌⊎◌, inl, inr,
  map,
}
use anicetus.Prelude.Int.{ℤ}
use anicetus.Errors.{Error}
use anicetus.Message.{Text}
use anicetus.Detector.Timed.{Clock}
use anicetus.Envs.{Errors, Parsers, Settings, parse_from_envs, multierr}
use anicetus.Service.Resources.{Resources, new_resources}
use Prim.Native.String.{String}

pub data ExitCode : Type 0 where
  exit_ok invalid_input setup_failure : ExitCode

-- `iota`
abbrev pub number : ExitCode → ℕ
number exit_ok = 0
number invalid_input = 1
number setup_failure = 2

pub record ExitData : Type 0 where
  pub code : ExitCode

-- How the body of `main` ends: at its end, by a panic with a value of `exit`, or because another
-- goroutine has panicked in the meantime, which no `recover` of its own sees.
pub data Outcome : Type 0 where
  finished : Outcome
  panicked : ExitData → Outcome
  killed : Outcome

-- How the process ends: `main` returns, `os.Exit` is called, or a panic is not recovered.
pub data Ending : Type 0 where
  returned : Ending
  exits : ℕ → Ending
  crashes : Ending

-- The exit status that Go gives the process.
abbrev pub exit_status : Ending → ℕ
exit_status returned = 0
exit_status (exits code) = code
exit_status crashes = 2

unfoldable pub exit : ExitCode → Outcome
exit code = panicked (record { code = code })

unfoldable pub handle_exit : Outcome → Ending
handle_exit finished = returned
handle_exit (panicked e) = exits (number e.code)
handle_exit killed = crashes

-- The errors of `net.Listen` on a port, of `Serve` but for `ErrServerClosed`, and of `Shutdown`.
pub record Host : Type 0 where
  pub listen : ℤ → Option Error
  pub serve : Option Error
  pub shutdown : Option Error

pub data Entry : Type 0 where
  parse_failure : Errors ⊎ Error → Entry
  listen_failure serve_failure shutdown_failure : Error → Entry
  starting stopped : Entry

abbrev pub entry_of : (Error → Entry) → Option Error → List Entry
entry_of entry none = []
entry_of entry (some e) = entry e ∷ []

-- The first entries of a log.
abbrev pub first_entries : ℕ → List Entry → List Entry
first_entries zero log = []
first_entries (suc n) [] = []
first_entries (suc n) (e ∷ log) = e ∷ first_entries n log

-- A run of which another goroutine lets only so many steps happen: each log entry is one, and so is
-- the end.
abbrev pub cut_off : ℕ → List Entry × Outcome → List Entry × Outcome
cut_off steps (log, outcome) =
    if leb steps (length log) then (first_entries steps log, killed) else (log, outcome)

-- `main` from `net.Listen` on.
unfoldable pub listen_and_serve : {L U : Type 0} → Host → Settings L ℤ U → List Entry × Outcome
listen_and_serve host config = elim (host.listen config.port) [
  | some e ↦ (listen_failure e ∷ [], exit setup_failure)
  | none ↦ (
    starting
        ∷ (entry_of serve_failure host.serve
            ++ (entry_of shutdown_failure host.shutdown ++ stopped ∷ [])),
    finished,
  )
]

-- Where a ticker cannot be made, its goroutine panics, and `steps` says how far `main` gets before
-- that.
module _ (F R : Type 0) {L U : Type 0} (p : Parsers L ℤ U) (host : Host) (steps : ℕ) where
  -- `main` from `NewResources` on.
  unfoldable pub run_server : Clock → Settings L ℤ U → List Entry × Outcome
  run_server clock config = elim (new_resources {F = F} {R = R} clock config) [
    | none ↦ cut_off steps (listen_and_serve host config)
    | some resources ↦ listen_and_serve host config
  ]

  unfoldable pub main_body : Clock → (String → Text) → List Entry × Outcome
  main_body clock getenv = elim (parse_from_envs p getenv) [
    | inr errs ↦ (map parse_failure (multierr errs), exit invalid_input)
    | inl config ↦ run_server clock config
  ]

  -- The log, and the ending.
  unfoldable pub main : Clock → (String → Text) → List Entry × Ending
  main clock getenv = let (log, outcome) = main_body clock getenv in (log, handle_exit outcome)
