-- ===== src/Fingerprint/Parsing.antt =====
-- `ParseHTTPRequestField` of fingerprint/http_request.go. `trim` and `lower` are
-- `strings.TrimSpace` and `strings.ToLower`. The text of an error does not repeat the field.
use anicetus.Prelude.{
  true, if◌then◌else◌, ◌≡◌, ◌↔◌, ◌∙◌, refl, sym, ap, arith, List, [], ◌∷◌, Option, none, some, All,
  Bool-cases, inl, inr,
}
use anicetus.Errors.{plain, Result, ok, err}
use anicetus.Message.{Text, text, same}
use anicetus.Fingerprint.{
  HttpRequestField, field_proto, field_method, field_scheme, field_host, field_path, field_query,
  field_body,
}

abbrev pub Case : Type 0
Case = Text × HttpRequestField

abbrev pub field_cases : List Case
field_cases =
    (text "proto", field_proto)
    ∷ (text "method", field_method)
    ∷ (text "scheme", field_scheme)
    ∷ (text "host", field_host)
    ∷ (text "path", field_path)
    ∷ (text "query", field_query)
    ∷ (text "body", field_body)
    ∷ []

-- The first case of a `switch` with the text.
unfoldable pub switch : Text → List Case → Option HttpRequestField
switch s [] = none
switch s ((name, field) ∷ cases) = if same s name then some field else switch s cases

abbrev pub parsed : Text → Option HttpRequestField → Result HttpRequestField
parsed s (some field) = ok field
parsed [] none = err (plain "empty HTTP request field")
parsed (c ∷ cs) none = err (plain "unknown HTTP request field")

unfoldable pub parse_http_request_field :
    (trim lower : Text → Text) → Text → Result HttpRequestField
parse_http_request_field trim lower s = let s = lower (trim s) in parsed s (switch s field_cases)

abbrev pub name_of : HttpRequestField → Text
name_of field_proto = text "proto"
name_of field_method = text "method"
name_of field_scheme = text "scheme"
name_of field_host = text "host"
name_of field_path = text "path"
name_of field_query = text "query"
name_of field_body = text "body"

some-injective : {f g : HttpRequestField} → some f ≡ some g → f ≡ g
some-injective {f} {g} h = ground arith

same→eq : (xs ys : Text) → same xs ys ≡ true → xs ≡ ys
same→eq [] [] h = refl
same→eq [] (y ∷ ys) h = ground arith
same→eq (x ∷ xs) [] h = ground arith
same→eq (x ∷ xs) (y ∷ ys) h = ground (arith, same→eq xs ys)

switch-name_of : (f : HttpRequestField) → switch (name_of f) field_cases ≡ some f
unfolding switch
switch-name_of field_proto = refl
switch-name_of field_method = refl
switch-name_of field_scheme = refl
switch-name_of field_host = refl
switch-name_of field_path = refl
switch-name_of field_query = refl
switch-name_of field_body = refl

switch_named :
    (cases : List Case) (s : Text) (f : HttpRequestField)
    → All (λ c. c.0 ≡ name_of c.1) cases
    → switch s cases ≡ some f
    → s ≡ name_of f
unfolding switch
switch_named [] s f a h = ground arith
switch_named ((name, field) ∷ cases) s f (p, a) h = elim (Bool-cases (same s name)) [
  | inl e ↦
      same→eq s name e
      ∙ p
      ∙ ap name_of (some-injective (sym (ap (λ b. if b then some field else switch s cases) e) ∙ h))
  | inr e ↦
      switch_named cases s f a (sym (ap (λ b. if b then some field else switch s cases) e) ∙ h)
]

parsed_ok :
    (s : Text) (o : Option HttpRequestField) (f : HttpRequestField) → parsed s o ≡ ok f → o ≡ some f
parsed_ok s (some g) f h = ground arith
parsed_ok [] none f h = ground arith
parsed_ok (c ∷ cs) none f h = ground arith

-- A text is parsed as a field exactly when, trimmed and in lower case, it is the name of the field;
-- every other text is an error.
pub parse_http_request_field-name_of :
    (trim lower : Text → Text) (s : Text) (f : HttpRequestField)
    → (parse_http_request_field trim lower s ≡ ok f) ↔ (lower (trim s) ≡ name_of f)
unfolding parse_http_request_field
parse_http_request_field-name_of trim lower s f = (
  λ h.
      switch_named field_cases (lower (trim s)) f
        (refl, (refl, (refl, (refl, (refl, (refl, (refl, tt))))))) (parsed_ok _ _ f h),
  λ e. ap (λ t. parsed t (switch t field_cases)) e ∙ ap (parsed (name_of f)) (switch-name_of f),
)
