-- ===== src/Envs/Faults.antt =====
-- Which errors `ParseFromEnvs` of internal/http/config.go reports.
use anicetus.Prelude.{
  List, [], ◌∷◌, ◌++◌, Option, none, some, ◌≡◌, ◌≢◌, ◌∙◌, ◌⊎◌, inl, inr, refl, sym, ap, arith,
  length, ◌≤◌,
}
use mathlib.Core.List.{append_assoc, append-nil, nil≢cons}
use anicetus.Prelude.Int.{pos}
use anicetus.Errors.{Error, plain, wrap, Result, ok, err}
use anicetus.Message.{Text}
use anicetus.Fingerprint.{HttpRequestField}
use anicetus.Fingerprint.Parsing.{parse_http_request_field}
use anicetus.Envs.{
  Errors, no_errors, joined, multierr, Parsers, Settings, read, split, read_fields, fields_of,
  address_of, checked, parse_from_envs, fields_error,
}
use Prim.Native.String.{String}

abbrev pub list_of : Errors → List Error
list_of no_errors = []
list_of (joined es e) = list_of es ++ (e ∷ [])

-- The error of one variable, if it is set.
abbrev pub of_result : {A : Type 0} → String → Result A → List Error
of_result text (ok a) = []
of_result text (err e) = wrap text e ∷ []

abbrev pub fault : {A : Type 0} → String → (Text → Result A) → Text → List Error
fault text parse [] = []
fault text parse (c ∷ cs) = of_result text (parse (c ∷ cs))

abbrev read_turn : {A : Type 0} → String → A → Errors → Result A → A × Errors
read_turn text default errs (ok a) = (a, errs)
read_turn text default errs (err e) = (default, joined errs (wrap text e))

read-fault :
    {A : Type 0} (text : String) (parse : Text → Result A) (default : A) (value : Text)
    (errs : Errors) (es : List Error)
    → list_of errs ≡ es
    → list_of (read text parse default value errs).1 ≡ es ++ fault text parse value
unfolding read
read-fault text parse default [] errs es h = h ∙ sym (append-nil _)
read-fault text parse default (c ∷ cs) errs es h =
    elim (parse (c ∷ cs))
      as (λ r. list_of (read_turn text default errs r).1 ≡ es ++ of_result text r) [
        | ok a ↦ h ∙ sym (append-nil _)
        | err e ↦ ap (λ es. es ++ (wrap text e ∷ [])) h
      ]

append_not_nil : (es : List Error) (e : Error) → es ++ (e ∷ []) ≢ []
append_not_nil [] e p = nil≢cons (sym p)
append_not_nil (x ∷ xs) e p = nil≢cons (sym p)

module _ {L D U : Type 0} (p : Parsers L D U) where
  abbrev pub field_faults : List Text → List Error
  field_faults [] = []
  field_faults (word ∷ words) =
      of_result fields_error (parse_http_request_field p.trim p.lower word) ++ field_faults words

  abbrev pub fields_faults : Text → List Error
  fields_faults [] = []
  fields_faults (c ∷ cs) = field_faults (split (c ∷ cs))

  abbrev pub address_fault : Text → List Error
  address_fault [] = plain "ANICETUS_BACKEND_ADDRESS is required" ∷ []
  address_fault (c ∷ cs) = fault "failed to parse ANICETUS_BACKEND_ADDRESS" p.url (c ∷ cs)

  abbrev field_turn :
      List Text
      → List HttpRequestField
      → Errors
      → Result HttpRequestField
      → List HttpRequestField × Errors
  field_turn words fields errs (ok field) = read_fields p words (fields ++ (field ∷ [])) errs
  field_turn words fields errs (err e) =
      read_fields p words fields (joined errs (wrap fields_error e))

  read_fields-faults :
      (words : List Text) (fields : List HttpRequestField) (errs : Errors) (es : List Error)
      → list_of errs ≡ es
      → list_of (read_fields p words fields errs).1 ≡ es ++ field_faults words
  unfolding read_fields
  read_fields-faults [] fields errs es h = h ∙ sym (append-nil _)
  read_fields-faults (word ∷ words) fields errs es h =
      elim (parse_http_request_field p.trim p.lower word)
        as (λ r.
          list_of (field_turn words fields errs r).1
          ≡ es ++ (of_result fields_error r ++ field_faults words)) [
            | ok field ↦ read_fields-faults words _ errs es h
            | err e ↦
                read_fields-faults words fields (joined errs (wrap fields_error e))
                  (es ++ (wrap fields_error e ∷ [])) (ap (λ es. es ++ (wrap fields_error e ∷ [])) h)
                ∙ append_assoc es (wrap fields_error e ∷ []) (field_faults words)
          ]

  fields_of-faults :
      (value : Text) (errs : Errors) (es : List Error)
      → list_of errs ≡ es
      → list_of (fields_of p value errs).1 ≡ es ++ fields_faults value
  unfolding fields_of
  fields_of-faults [] errs es h = h ∙ sym (append-nil _)
  fields_of-faults (c ∷ cs) errs es h = read_fields-faults (split (c ∷ cs)) [] errs es h

  abbrev address_turn : Errors → Result U → Option U × Errors
  address_turn errs (ok u) = (some u, errs)
  address_turn errs (err e) =
      (none, joined errs (wrap "failed to parse ANICETUS_BACKEND_ADDRESS" e))

  address_of-fault :
      (value : Text) (errs : Errors) (es : List Error)
      → list_of errs ≡ es
      → list_of (address_of p value errs).1 ≡ es ++ address_fault value
  unfolding address_of
  address_of-fault [] errs es h =
      ap (λ es. es ++ (plain "ANICETUS_BACKEND_ADDRESS is required" ∷ [])) h
  address_of-fault (c ∷ cs) errs es h =
      elim (p.url (c ∷ cs))
        as (λ r.
          list_of (address_turn errs r).1
          ≡ es ++ of_result "failed to parse ANICETUS_BACKEND_ADDRESS" r) [
            | ok u ↦ h ∙ sym (append-nil _)
            | err e ↦ ap (λ es. es ++ (wrap "failed to parse ANICETUS_BACKEND_ADDRESS" e ∷ [])) h
          ]

  -- The errors of all variables, in the order of the code.
  abbrev pub faults : (String → Text) → List Error
  faults getenv =
      fault "failed to parse ANICETUS_PORT" p.parse_int (getenv "ANICETUS_PORT")
      ++ fault "failed to parse ANICETUS_LOG_LEVEL" p.level (getenv "ANICETUS_LOG_LEVEL")
      ++ fields_faults (getenv "ANICETUS_FINGERPRINT_FIELDS")
      ++ fault "failed to parse ANICETUS_DETECTOR_REQUESTS_PER_MINUTE" p.parse_int
          (getenv "ANICETUS_DETECTOR_REQUESTS_PER_MINUTE")
      ++ fault "failed to parse ANICETUS_DETECTOR_COOLDOWN" p.duration
          (getenv "ANICETUS_DETECTOR_COOLDOWN")
      ++ fault "failed to parse ANICETUS_BACKEND_TIMEOUT" p.duration
          (getenv "ANICETUS_BACKEND_TIMEOUT")
      ++ address_fault (getenv "ANICETUS_BACKEND_ADDRESS")

  abbrev pub Reports : List Error → Settings L D U ⊎ Errors → Type 0
  Reports es (inl config) = es ≡ []
  Reports es (inr errs) = (list_of errs ≡ es) × (es ≢ [])

  checked-Reports :
      (config : Settings L D U) (errs : Errors) (es : List Error)
      → list_of errs ≡ es
      → Reports es (checked p (config, errs))
  checked-Reports config no_errors es h = sym h
  checked-Reports config (joined errs e) es h = (h, λ n. append_not_nil (list_of errs) e (h ∙ n))

  -- `ParseFromEnvs` returns a configuration exactly when every variable that is set is parsed and
  -- the address is set; otherwise it returns one error for each that fails, in the order of the
  -- code.
  pub parse_from_envs-Reports :
      (getenv : String → Text) → Reports (faults getenv) (parse_from_envs p getenv)
  unfolding parse_from_envs
  parse_from_envs-Reports getenv =
      let port = getenv "ANICETUS_PORT" in
      let level = getenv "ANICETUS_LOG_LEVEL" in
      let fields = getenv "ANICETUS_FINGERPRINT_FIELDS" in
      let rate = getenv "ANICETUS_DETECTOR_REQUESTS_PER_MINUTE" in
      let cool_down = getenv "ANICETUS_DETECTOR_COOLDOWN" in
      let timeout = getenv "ANICETUS_BACKEND_TIMEOUT" in
      let address = getenv "ANICETUS_BACKEND_ADDRESS" in
      let t1 : String = "failed to parse ANICETUS_PORT" in
      let t2 : String = "failed to parse ANICETUS_LOG_LEVEL" in
      let t4 : String = "failed to parse ANICETUS_DETECTOR_REQUESTS_PER_MINUTE" in
      let t5 : String = "failed to parse ANICETUS_DETECTOR_COOLDOWN" in
      let t6 : String = "failed to parse ANICETUS_BACKEND_TIMEOUT" in
      let e1 = (read t1 p.parse_int (pos 0) port no_errors).1 in
      let e2 = (read t2 p.level p.info level e1).1 in
      let e3 = (fields_of p fields e2).1 in
      let e4 = (read t4 p.parse_int (pos 1000) rate e3).1 in
      let e5 = (read t5 p.duration (p.minutes 10) cool_down e4).1 in
      let e6 = (read t6 p.duration (p.minutes 1) timeout e5).1 in
      let e7 = (address_of p address e6).1 in
      checked-Reports _ e7 (faults getenv) (
        address_of-fault address e6 _ (
          read-fault t6 p.duration (p.minutes 1) timeout e5 _ (
            read-fault t5 p.duration (p.minutes 10) cool_down e4 _ (
              read-fault t4 p.parse_int (pos 1000) rate e3 _ (
                fields_of-faults fields e2 _ (
                  read-fault t2 p.level p.info level e1 _
                    (read-fault t1 p.parse_int (pos 0) port no_errors [] refl)))))))

-- However many errors were joined, `multierr` lists at most two: those before the last one come as
-- one.
pub multierr_at_most_two : (errs : Errors) → length (multierr errs) ≤ 2
unfolding multierr
multierr_at_most_two no_errors = omega arith
multierr_at_most_two (joined no_errors e) = omega arith
multierr_at_most_two (joined (joined es e) e') = omega arith
