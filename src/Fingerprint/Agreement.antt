-- ===== src/Fingerprint/Agreement.antt =====
-- Which requests fingerprint/http_request.go gives one fingerprint.
use anicetus.Prelude.{
  ℕ, Bool, true, false, ◌≡◌, ◌∙◌, ap, refl, sym, List, [], ◌∷◌, ◌++◌, All, if◌then◌else◌, Option,
  none, some,
}
use anicetus.Message.{Text, Request, header_get, read_all}
use anicetus.Fingerprint.{
  HttpRequestField, field_proto, field_method, field_scheme, field_host, field_path, field_query,
  field_body, HttpRequest, selects, join, with_fields, with_headers, with_cookies, default_fields,
  new_http_request, apply_all, hash_fields, hash_headers, hash_cookies, host_of, cookie, finish,
  fingerprint,
}
use anicetus.Fingerprint.Fields.{has, selects-join}

abbrev pub IsSame : HttpRequestField → Request → Request → Type 0
IsSame field_proto r q = r.proto ≡ q.proto
IsSame field_method r q = r.method ≡ q.method
IsSame field_scheme r q = r.url.scheme ≡ q.url.scheme
IsSame field_host r q = host_of r ≡ host_of q
IsSame field_path r q = r.url.path ≡ q.url.path
IsSame field_query r q = r.url.raw_query ≡ q.url.raw_query
IsSame field_body r q = r.body ≡ q.body

-- The requests agree on the fields of the mask.
abbrev pub AreSame : ℕ → Request → Request → Type 0
AreSame mask r q = (f : HttpRequestField) → selects mask f ≡ true → IsSame f r q

abbrev pub when : Bool → Text → Text → Text
when b x h = if b then h ++ x else h

when_same : (b : Bool) {h k x y : Text} → h ≡ k → (b ≡ true → x ≡ y) → when b x h ≡ when b y k
when_same true {h} {k} {x} {y} p q = rw p (ap (k ++◌) (q refl))
when_same false p q = p

hash_fields_same :
    (mask : ℕ) (r q : Request) (h : Text)
    → AreSame mask r q
    → hash_fields mask r h ≡ hash_fields mask q h
unfolding hash_fields
hash_fields_same mask r q h s =
    when_same _
      (when_same _
        (when_same _
          (when_same _ (when_same _ (when_same _ refl (s field_proto)) (s field_method))
            (s field_scheme))
          (s field_host))
        (s field_path))
      (s field_query)

hash_headers_same :
    (names : List Text) (r q : Request) (h : Text)
    → All (λ n. header_get r.header n ≡ header_get q.header n) names
    → hash_headers names r.header h ≡ hash_headers names q.header h
unfolding hash_headers
hash_headers_same [] r q h s = refl
hash_headers_same (n ∷ ns) r q h (p, s) =
    hash_headers_same ns r q _ s ∙ ap (λ v. hash_headers ns q.header (h ++ v)) p

-- One turn of the loop over the cookies.
abbrev next : List Text → Request → Text → Option Text → Option Text
next names r h none = none
next names r h (some text) = hash_cookies names r (h ++ text)

hash_cookies_same :
    (names : List Text) (r q : Request) (h : Text)
    → All (λ n. cookie r n ≡ cookie q n) names
    → hash_cookies names r h ≡ hash_cookies names q h
unfolding hash_cookies
hash_cookies_same [] r q h s = refl
hash_cookies_same (n ∷ ns) r q h (p, s) =
    ap (next ns r h) p ∙ elim (cookie q n) as (λ o. next ns r h o ≡ next ns q h o) [
      | none ↦ refl
      | some text ↦ hash_cookies_same ns r q _ s
    ]

-- The text of `Fingerprint` by whether the body is read, and what reading it gives.
abbrev pub taken : Bool → Option Text → Text → (Text → Text) → Text
taken true none without with_body = []
taken true (some body) without with_body = with_body body
taken false body without with_body = without

pub taken_same :
    (b : Bool) (o o' : Option Text) (d d' : Text) (f f' : Text → Text)
    → (b ≡ true → o ≡ o')
    → d ≡ d'
    → ((c : Text) → f c ≡ f' c)
    → taken b o d f ≡ taken b o' d' f'
taken_same true none o' d d' f f' p q s = ap (λ o. taken true o d' f') (p refl)
taken_same true (some c) o' d d' f f' p q s = s c ∙ ap (λ o. taken true o d' f') (p refl)
taken_same false o o' d d' f f' p q s = q

-- A fingerprinter with these options.
abbrev pub configured : ℕ → List Text → List Text → Request → HttpRequest
configured mask headers cookies r = record {
  request = r;
  fields = mask;
  headers = headers;
  cookies = cookies;
}

module _ (digest : Text → Text) (mask : ℕ) (headers cookies : List Text) where
  abbrev made : Request → HttpRequest
  made = configured mask headers cookies

  pub fingerprint-taken :
      (r : Request) (b : Bool) (o : Option Text)
      → selects mask field_body ≡ b
      → (read_all r.body).0 ≡ o
      → let h = hash_fields mask r [] in
        (fingerprint digest (made r)).0
        ≡ taken b o (finish digest (made r) h) (λ c. finish digest (made r) (h ++ c))
  unfolding fingerprint
  fingerprint-taken r true none p q = rw (p, fingerprint) (rw (q, taken) refl)
  fingerprint-taken r true (some c) p q = rw (p, fingerprint) (rw (q, taken) refl)
  fingerprint-taken r false o p q = rw (p, fingerprint) refl

  abbrev sum : Option Text → Text
  sum o = elim o [ none ↦ [] | some hash ↦ digest hash ]

  module _ (r q : Request)
      (same_headers : All (λ n. header_get r.header n ≡ header_get q.header n) headers)
      (same_cookies : All (λ n. cookie r n ≡ cookie q n) cookies) where
    finish_same : (h k : Text) → h ≡ k → finish digest (made r) h ≡ finish digest (made q) k
    unfolding finish
    finish_same h k p = ap sum (
        hash_cookies_same cookies r q _ same_cookies
        ∙ ap (hash_cookies cookies q)
            (hash_headers_same headers r q h same_headers ∙ ap (hash_headers headers q.header) p))

    pub fingerprint_hashed :
        (selects mask field_body ≡ true → r.body ≡ q.body)
        → hash_fields mask r [] ≡ hash_fields mask q []
        → (fingerprint digest (made r)).0 ≡ (fingerprint digest (made q)).0
    fingerprint_hashed body p =
        fingerprint-taken r (selects mask field_body) (read_all r.body).0 refl refl
        ∙ taken_same (selects mask field_body) (read_all r.body).0 (read_all q.body).0 _ _ _ _
            (λ e. ap (λ b. (read_all b).0) (body e)) (finish_same _ _ p)
            (λ c. finish_same _ _ (ap (λ h. h ++ c) p))
        ∙ sym (fingerprint-taken q (selects mask field_body) (read_all q.body).0 refl refl)

    fingerprint_same :
        AreSame mask r q → (fingerprint digest (made r)).0 ≡ (fingerprint digest (made q)).0
    fingerprint_same s = fingerprint_hashed (s field_body) (hash_fields_same mask r q [] s)

-- The fields that count: those of the option, or the default ones where it names none.
abbrev pub chosen : List HttpRequestField → List HttpRequestField
chosen [] = default_fields
chosen (f ∷ fs) = f ∷ fs

-- What the HTTP server makes of a request and its configuration.
abbrev pub with_options : List HttpRequestField → List Text → List Text → Request → HttpRequest
with_options fields headers cookies r =
    new_http_request r (with_fields fields ∷ with_headers headers ∷ with_cookies cookies ∷ [])

-- The options are kept as they are given, the fields as a mask.
pub with_options-configured :
    (fields : List HttpRequestField) (headers cookies : List Text) (r : Request)
    → with_options fields headers cookies r ≡ configured (join 0 (chosen fields)) headers cookies r
unfolding new_http_request apply_all with_fields with_headers with_cookies
with_options-configured [] headers cookies r = refl
with_options-configured (f ∷ fs) headers cookies r = refl

module _ (digest : Text → Text) (fields : List HttpRequestField) (headers cookies : List Text) where
  abbrev text_of : Request → Text
  text_of r = (fingerprint digest (with_options fields headers cookies r)).0

  text_of-configured :
      (r : Request)
      → text_of r ≡ (fingerprint digest (configured (join 0 (chosen fields)) headers cookies r)).0
  text_of-configured r =
      ap (λ a. (fingerprint digest a).0) (with_options-configured fields headers cookies r)

  -- Two requests that agree on the fields that count, on the headers and on the cookies of the
  -- options have one fingerprint, whatever else differs between them.
  pub fingerprint_agrees :
      (r q : Request)
      → ((f : HttpRequestField) → has (chosen fields) f ≡ true → IsSame f r q)
      → All (λ n. header_get r.header n ≡ header_get q.header n) headers
      → All (λ n. cookie r n ≡ cookie q n) cookies
      → text_of r ≡ text_of q
  fingerprint_agrees r q s h c =
      text_of-configured r
      ∙ fingerprint_same digest _ headers cookies r q h c
          (λ f e. s f (sym (selects-join (chosen fields) f) ∙ e))
      ∙ sym (text_of-configured q)
