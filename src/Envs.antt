-- ===== src/Envs.antt =====
-- `ParseFromEnvs` of internal/http/config.go, and `multierr` of cmd/anicetus-http/main.go. The
-- environment is a function, empty for a variable that is not set; the parsers of the standard
-- library, `strings.TrimSpace` and `strings.ToLower` are arguments.
pub mod Names
pub mod Faults
mod Tests
use anicetus.Prelude.{
  ℕ, Bool, true, false, if◌then◌else◌, ◌==◌, Option, none, some, List, [], ◌∷◌, ◌++◌, ◌⊎◌, inl, inr,
}
use anicetus.Prelude.Int.{ℤ, pos}
use anicetus.Errors.{Error, plain, wrap, Result, ok, err}
use anicetus.Message.{Text}
use anicetus.Fingerprint.{
  HttpRequestField, field_proto, field_method, field_host, field_path, field_query,
}
use anicetus.Fingerprint.Parsing.{parse_http_request_field}
use anicetus.Envs.Names.{trim_names}
use Prim.Native.String.{String}

-- What `errors.Join(errs, err)` builds from no error.
pub data Errors : Type 0 where
  no_errors : Errors
  joined : Errors → Error → Errors

-- The entries of the last join: errors joined before, and an error.
unfoldable pub multierr : Errors → List (Errors ⊎ Error)
multierr no_errors = []
multierr (joined no_errors e) = inr e ∷ []
multierr (joined (joined es e) e') = inl (joined es e) ∷ inr e' ∷ []

pub record Parsers (L D U : Type 0) : Type 0 where
  pub trim : Text → Text
  pub lower : Text → Text
  pub parse_int : Text → Result ℤ
  pub level : Text → Result L
  pub duration : Text → Result D
  pub url : Text → Result U
  pub info : L
  pub minutes : ℕ → D

-- `Config`; there is no address where the variable is not set or is no URL.
pub record Settings (L D U : Type 0) : Type 0 where
  pub port : ℤ
  pub logger_level : L
  pub fields : List HttpRequestField
  pub headers : List Text
  pub cookies : List Text
  pub requests_per_minute : ℤ
  pub cool_down : D
  pub timeout : D
  pub address : Option U

-- A variable that is read by a parser, or a default where it is not set. After an error the value
-- is of no use, since no configuration is returned.
unfoldable pub read : {A : Type 0} → String → (Text → Result A) → A → Text → Errors → A × Errors
read text parse default [] errs = (default, errs)
read text parse default (c ∷ cs) errs = elim (parse (c ∷ cs)) [
  | ok a ↦ (a, errs)
  | err e ↦ (default, joined errs (wrap text e))
]

-- `strings.Split(s, ",")`
abbrev extend : ℕ → List Text → List Text
extend c [] = (c ∷ []) ∷ []
extend c (word ∷ words) = (c ∷ word) ∷ words

unfoldable pub split : Text → List Text
split [] = [] ∷ []
split (c ∷ cs) = let words = split cs in if c == 44 then [] ∷ words else extend c words

unfoldable pub names_of : (Text → Text) → Text → List Text
names_of trim [] = []
names_of trim (c ∷ cs) = trim_names trim (split (c ∷ cs))

abbrev pub fields_error : String
fields_error = "failed to parse ANICETUS_FINGERPRINT_FIELDS"

abbrev pub standard_fields : List HttpRequestField
standard_fields = field_proto ∷ field_method ∷ field_host ∷ field_path ∷ field_query ∷ []

module _ {L D U : Type 0} (p : Parsers L D U) where
  -- The loop over the fields; the zero that it appends after an error is left out.
  unfoldable pub read_fields :
      List Text → List HttpRequestField → Errors → List HttpRequestField × Errors
  read_fields [] fields errs = (fields, errs)
  read_fields (word ∷ words) fields errs = elim (parse_http_request_field p.trim p.lower word) [
    | ok field ↦ read_fields words (fields ++ (field ∷ [])) errs
    | err e ↦ read_fields words fields (joined errs (wrap fields_error e))
  ]

  unfoldable pub fields_of : Text → Errors → List HttpRequestField × Errors
  fields_of [] errs = (standard_fields, errs)
  fields_of (c ∷ cs) errs = read_fields (split (c ∷ cs)) [] errs

  unfoldable pub address_of : Text → Errors → Option U × Errors
  address_of [] errs = (none, joined errs (plain "ANICETUS_BACKEND_ADDRESS is required"))
  address_of (c ∷ cs) errs = elim (p.url (c ∷ cs)) [
    | ok u ↦ (some u, errs)
    | err e ↦ (none, joined errs (wrap "failed to parse ANICETUS_BACKEND_ADDRESS" e))
  ]

  abbrev pub checked : Settings L D U × Errors → Settings L D U ⊎ Errors
  checked (config, no_errors) = inl config
  checked (config, joined es e) = inr (joined es e)

  unfoldable pub parse_from_envs : (String → Text) → Settings L D U ⊎ Errors
  parse_from_envs getenv =
      let (port, e1) =
        read "failed to parse ANICETUS_PORT" p.parse_int (pos 0) (getenv "ANICETUS_PORT")
          no_errors in
      let (level, e2) =
        read "failed to parse ANICETUS_LOG_LEVEL" p.level p.info (getenv "ANICETUS_LOG_LEVEL") e1 in
      let (fields, e3) = fields_of (getenv "ANICETUS_FINGERPRINT_FIELDS") e2 in
      let (rate, e4) =
        read "failed to parse ANICETUS_DETECTOR_REQUESTS_PER_MINUTE" p.parse_int (pos 1000)
          (getenv "ANICETUS_DETECTOR_REQUESTS_PER_MINUTE") e3 in
      let (cool_down, e5) =
        read "failed to parse ANICETUS_DETECTOR_COOLDOWN" p.duration (p.minutes 10)
          (getenv "ANICETUS_DETECTOR_COOLDOWN") e4 in
      let (timeout, e6) =
        read "failed to parse ANICETUS_BACKEND_TIMEOUT" p.duration (p.minutes 1)
          (getenv "ANICETUS_BACKEND_TIMEOUT") e5 in
      let (address, e7) = address_of (getenv "ANICETUS_BACKEND_ADDRESS") e6 in
      checked (
        record {
          port = port;
          logger_level = level;
          fields = fields;
          headers = names_of p.trim (getenv "ANICETUS_FINGERPRINT_HEADERS");
          cookies = names_of p.trim (getenv "ANICETUS_FINGERPRINT_COOKIES");
          requests_per_minute = rate;
          cool_down = cool_down;
          timeout = timeout;
          address = address;
        },
        e7,
      )
