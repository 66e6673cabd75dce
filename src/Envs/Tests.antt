-- ===== src/Envs/Tests.antt =====
-- The theorems on internal/http/config.go for a concrete environment.
use anicetus.Prelude.{if◌then◌else◌, ◌==◌, List, [], ◌∷◌, ◌≡◌, ◌↔◌, refl}
use anicetus.Errors.{plain, ok, err}
use anicetus.Message.{Text, text}
use anicetus.Fingerprint.{field_host}
use anicetus.Fingerprint.Parsing.{
  parse_http_request_field, parse_http_request_field-name_of, name_of,
}
use anicetus.Envs.{Errors, no_errors, joined, Parsers, parse_from_envs}
use anicetus.Envs.Names.{trim_names, trimmed, trim_names-trimmed, trim_loop, nth, put, take}
use anicetus.Envs.Faults.{Reports, faults, parse_from_envs-Reports}
use Prim.Native.String.{String}

-- Drops the spaces in front.
abbrev left_trim : Text → Text
left_trim [] = []
left_trim (c ∷ cs) = if c == 32 then left_trim cs else c ∷ cs

abbrev as_is : Text → Text
as_is s = s

abbrev blank_between : List Text
blank_between = text " X-Id" ∷ text " " ∷ text "Accept" ∷ []

trims : trim_names left_trim blank_between ≡ text "X-Id" ∷ text "Accept" ∷ []
unfolding trim_names trim_loop nth put take
trims = refl

trim_names-trimmed_example : trim_names left_trim blank_between ≡ trimmed left_trim blank_between
trim_names-trimmed_example = trim_names-trimmed left_trim blank_between

parse_http_request_field-name_of_example :
    (parse_http_request_field left_trim as_is (text " host") ≡ ok field_host)
    ↔ (text "host" ≡ name_of field_host)
parse_http_request_field-name_of_example =
    parse_http_request_field-name_of left_trim as_is (text " host") field_host

-- Numbers are never parsed, all else is.
abbrev parsers : Parsers Text Text Text
parsers = record {
  trim = left_trim;
  lower = as_is;
  parse_int = λ s. err (plain "invalid syntax");
  level = λ s. ok s;
  duration = λ s. ok s;
  url = λ s. ok s;
  info = [];
  minutes = λ n. [];
}

-- Every variable is set to the text "host".
abbrev all_host : String → Text
all_host name = text "host"

parse_from_envs-Reports_example :
    Reports parsers (faults parsers all_host) (parse_from_envs parsers all_host)
parse_from_envs-Reports_example = parse_from_envs-Reports parsers all_host

abbrev three_errors : Errors
three_errors = joined (joined (joined no_errors (plain "a")) (plain "b")) (plain "c")
