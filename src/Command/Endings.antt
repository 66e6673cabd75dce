-- ===== src/Command/Endings.antt =====
-- How the process of cmd/anicetus-http/main.go ends.
use anicetus.Prelude.{
  Bool, true, false, leb, if◌then◌else◌, ◌∙◌, ap, [], ◌≤◌, arith, ◌++◌, ℕ, ◌*◌, ◌^◌, ◌<◌, ◌≡◌, ◌≢◌,
  ◌⊎◌, inl, inr, refl, Option, none, some, List, ◌∷◌, length, map,
}
use anicetus.Command.{
  cut_off, first_entries, listen_and_serve, exit_status, invalid_input, Outcome, killed, panicked,
  finished, listen_failure, serve_failure, shutdown_failure, starting, stopped, entry_of,
  setup_failure, main_body, Host, Entry, Ending, returned, exits, crashes, parse_failure,
  run_server, main, exit, handle_exit,
}
use anicetus.Service.Starting.{new_resources_panics}
use anicetus.Envs.Faults.{parse_from_envs-Reports, Reports, faults, multierr_at_most_two}
use mathlib.Core.Path.{subst⁻¹}
use anicetus.Prelude.Int.{ℤ, pos, ◌≤ℤ◌}
use anicetus.Errors.{Error}
use anicetus.Message.{Text}
use anicetus.Detector.Options.{minute}
use anicetus.Detector.Timed.{Clock}
use anicetus.Envs.{Errors, Parsers, Settings, parse_from_envs, multierr}
use anicetus.Service.Resources.{Resources, new_resources}
use Prim.Native.String.{String}

length-map : {A B : Type 0} (f : A → B) (xs : List A) → length (map f xs) ≡ length xs
length-map f [] = refl
length-map f (x ∷ xs) = ground (arith, length-map f xs)

-- What `main` logs and how it ends from `net.Listen` on, by what that returns.
abbrev pub served_by : Host → Option Error → List Entry × Outcome
served_by host (some e) = (listen_failure e ∷ [], panicked (record { code = setup_failure }))
served_by host none = (
  starting
      ∷ (entry_of serve_failure host.serve
          ++ (entry_of shutdown_failure host.shutdown ++ stopped ∷ [])),
  finished,
)

listen_and_serve_lem :
    {L U : Type 0} (host : Host) (config : Settings L ℤ U)
    → listen_and_serve host config ≡ served_by host (host.listen config.port)
unfolding listen_and_serve exit
listen_and_serve_lem host config =
    elim (host.listen config.port)
      as (λ l.
        ◌≡◌ {A = List Entry × Outcome}
          (elim l [
            | some e ↦ (listen_failure e ∷ [], panicked (record { code = setup_failure }))
            | none ↦ served_by host none
          ])
          (served_by host l)) [ none ↦ refl | some e ↦ refl ]

module _ (F R : Type 0) {L U : Type 0} (p : Parsers L ℤ U) (host : Host) (steps : ℕ) (clock : Clock)
    (getenv : String → Text) where
  -- What an ending says of the configuration, and of the network.
  abbrev pub Explains : Settings L ℤ U → Ending → Type 0
  Explains config returned = host.listen config.port ≡ none
  Explains config (exits code) = (e : Error) × (code ≡ 2) × (host.listen config.port ≡ some e)
  Explains config crashes = new_resources {F = F} {R = R} clock config ≡ none

  abbrev pub Ends : Settings L ℤ U ⊎ Errors → List Entry × Ending → Type 0
  Ends (inl config) (log, ending) =
      (faults p getenv ≡ []) × (exit_status ending ≢ 1) × Explains config ending
  Ends (inr errs) (log, ending) =
      (faults p getenv ≢ []) × (exit_status ending ≡ 1) × (length log ≤ 2)

  abbrev IsExplained : Settings L ℤ U → Outcome → Type 0
  IsExplained config outcome =
      (exit_status (handle_exit outcome) ≢ 1) × Explains config (handle_exit outcome)

  served_by-IsExplained :
      (config : Settings L ℤ U) (refused : Option Error)
      → host.listen config.port ≡ refused
      → IsExplained config (served_by host refused).1
  unfolding handle_exit
  served_by-IsExplained config none l = (λ e. absurd (omega (arith, e)), l)
  served_by-IsExplained config (some e) l = (λ e. absurd (omega (arith, e)), (e, refl, l))

  killed-IsExplained :
      (config : Settings L ℤ U)
      → new_resources {F = F} {R = R} clock config ≡ none
      → IsExplained config killed
  unfolding handle_exit
  killed-IsExplained config q = (λ e. absurd (omega (arith, e)), q)

  if-IsExplained :
      (config : Settings L ℤ U) (b : Bool) (early late : List Entry × Outcome)
      → IsExplained config early.1
      → IsExplained config late.1
      → IsExplained config (if b then early else late).1
  if-IsExplained config true early late x y = x
  if-IsExplained config false early late x y = y

  -- `main` from `NewResources` on, by whether the resources could be made.
  abbrev body_of : Settings L ℤ U → Option (Resources F R L) → List Entry × Outcome
  body_of config none = cut_off steps (listen_and_serve host config)
  body_of config (some r) = listen_and_serve host config

  run_server_lem :
      (config : Settings L ℤ U)
      → run_server F R p host steps clock config
        ≡ body_of config (new_resources {F = F} {R = R} clock config)
  unfolding run_server
  run_server_lem config =
      elim (new_resources {F = F} {R = R} clock config)
        as (λ o.
          ◌≡◌ {A = List Entry × Outcome}
            (elim o [
              | none ↦ cut_off steps (listen_and_serve host config)
              | some resources ↦ listen_and_serve host config
            ])
            (body_of config o)) [ none ↦ refl | some r ↦ refl ]

  listened-IsExplained :
      (config : Settings L ℤ U) → IsExplained config (listen_and_serve host config).1
  listened-IsExplained config =
      subst⁻¹ (λ o. IsExplained config o.1) (listen_and_serve_lem host config)
        (served_by-IsExplained config _ refl)

  explained :
      (config : Settings L ℤ U) (resources : Option (Resources F R L))
      → new_resources clock config ≡ resources
      → IsExplained config (body_of config resources).1
  explained config none q =
      if-IsExplained config (leb steps (length (listen_and_serve host config).0)) _ _
        (killed-IsExplained config q) (listened-IsExplained config)
  explained config (some r) q = listened-IsExplained config

  run_server-IsExplained :
      (config : Settings L ℤ U) → IsExplained config (run_server F R p host steps clock config).1
  run_server-IsExplained config =
      subst⁻¹ (λ o. IsExplained config o.1) (run_server_lem config) (explained config _ refl)

  abbrev after : Settings L ℤ U ⊎ Errors → List Entry × Outcome
  after (inr errs) = (map parse_failure (multierr errs), panicked (record { code = invalid_input }))
  after (inl config) = run_server F R p host steps clock config

  main_body_lem : main_body F R p host steps clock getenv ≡ after (parse_from_envs p getenv)
  unfolding main_body exit
  main_body_lem =
      elim (parse_from_envs p getenv)
        as (λ r.
          ◌≡◌ {A = List Entry × Outcome}
            (elim r [
              | inr errs ↦
                  (map parse_failure (multierr errs), panicked (record { code = invalid_input }))
              | inl config ↦ run_server F R p host steps clock config
            ])
            (after r)) [ inl config ↦ refl | inr errs ↦ refl ]

  after-Ends :
      (result : Settings L ℤ U ⊎ Errors)
      → Reports p (faults p getenv) result
      → let (log, outcome) = after result in Ends result (log, handle_exit outcome)
  unfolding handle_exit
  after-Ends (inl config) valid =
      let (other, says) = run_server-IsExplained config in (valid, other, says)
  after-Ends (inr errs) (_, faulty) = (
    faulty,
    refl,
    omega (arith, length-map parse_failure (multierr errs), multierr_at_most_two errs),
  )

  -- The process ends with the status 1 exactly when a variable of the environment is faulty, and
  -- then logs at most two entries however many are. Otherwise `main` returns only if the port could
  -- be listened on, it exits with the code 2 only if the port could not, and the process crashes,
  -- which is the status 2 too, only if a ticker of the resources could not be made; however far
  -- `main` gets before the goroutine of that ticker runs.
  pub main-Ends : Ends (parse_from_envs p getenv) (main F R p host steps clock getenv)
  unfolding main
  main-Ends =
      subst⁻¹ (λ o. Ends (parse_from_envs p getenv) (o.0, handle_exit o.1)) main_body_lem
        (after-Ends (parse_from_envs p getenv) (parse_from_envs-Reports p getenv))

  cut_off_early :
      (out : List Entry × Outcome)
      → steps ≤ length out.0
      → cut_off steps out ≡ (first_entries steps out.0, killed)
  cut_off_early out h = ground (arith, h)

  -- With a configuration that `ParseFromEnvs` accepts, but in which the cooldown is not positive,
  -- or the number `n` of requests per minute is 0, or `n` minutes are at least 2 ^ 63 and less than
  -- 2 ^ 64 nanoseconds, the process crashes with the status 2 once the goroutine of the ticker
  -- runs: if it does before `main` has ended, only the entries are logged that `main` has come to
  -- by then, of those that it logs from `net.Listen` on.
  pub main_crashes :
      (config : Settings L ℤ U) (n : ℕ)
      → parse_from_envs p getenv ≡ inl config
      → config.requests_per_minute ≡ pos n
      → (config.cool_down ≤ℤ pos 0) ⊎ (n ≡ 0) ⊎ (2 ^ 63 ≤ minute * n) × (minute * n < 2 ^ 64)
      → let log = (served_by host (host.listen config.port)).0 in
        steps ≤ length log → main F R p host steps clock getenv ≡ (first_entries steps log, crashes)
  unfolding main handle_exit
  main_crashes config n q r h early =
      ap (λ o. (o.0, handle_exit o.1))
        (main_body_lem
          ∙ ap after q
          ∙ run_server_lem config
          ∙ ap (body_of config) (new_resources_panics clock config n r h)
          ∙ ap (cut_off steps) (listen_and_serve_lem host config)
          ∙ cut_off_early (served_by host (host.listen config.port)) early)
