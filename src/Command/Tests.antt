-- ===== src/Command/Tests.antt =====
-- cmd/anicetus-http/main.go in a concrete environment.
use anicetus.Command.{starting, Host, main, crashes}
use anicetus.Envs.Names.{take, nth, put, trim_names, trim_loop}
use anicetus.Prelude.{ℕ, none, some, [], ◌∷◌, ◌≡◌, refl, inl, inr, arith}
use anicetus.Prelude.Int.{ℤ, pos}
use anicetus.Errors.{ok}
use anicetus.Message.{Text, text}
use anicetus.Fingerprint.{field_host}
use anicetus.Fingerprint.Parsing.{parse_http_request_field, switch}
use anicetus.Detector.Timed.{Clock}
use anicetus.Envs.{
  Parsers, Settings, parse_from_envs, read, fields_of, read_fields, split, names_of, address_of,
}
use anicetus.Command.Endings.{Ends, main-Ends, main_crashes}
use Prim.Native.String.{String}

-- Every number that is read is 0, and every duration a nanosecond.
abbrev zeros : Parsers Text ℤ Text
zeros = record {
  trim = λ s. s;
  lower = λ s. s;
  parse_int = λ s. ok (pos 0);
  level = λ s. ok s;
  duration = λ s. ok (pos 1);
  url = λ s. ok s;
  info = [];
  minutes = λ n. pos 1;
}

abbrev all_host : String → Text
all_host name = text "host"

abbrev free_port : Host
free_port = record { listen = λ port. none; serve = none; shutdown = none }

abbrev start : Clock
start = record { now = 5; delays = [] }

main-Ends_example :
    Ends ℕ ℤ zeros free_port 0 start all_host
      (parse_from_envs zeros all_host)
      (main ℕ ℤ zeros free_port 0 start all_host)
main-Ends_example = main-Ends ℕ ℤ zeros free_port 0 start all_host

abbrev no_requests : Settings Text ℤ Text
no_requests = record {
  port = pos 0;
  logger_level = text "host";
  fields = field_host ∷ [];
  headers = text "host" ∷ [];
  cookies = text "host" ∷ [];
  requests_per_minute = pos 0;
  cool_down = pos 1;
  timeout = pos 1;
  address = some (text "host");
}

accepted : parse_from_envs zeros all_host ≡ inl no_requests
unfolding parse_from_envs read fields_of read_fields split names_of address_of
    parse_http_request_field switch trim_names trim_loop take nth put
accepted = refl

main_crashes_example : main ℕ ℤ zeros free_port 1 start all_host ≡ (starting ∷ [], crashes)
main_crashes_example =
    main_crashes ℕ ℤ zeros free_port 1 start all_host no_requests 0 accepted refl (inr (inl refl))
      (omega arith)
