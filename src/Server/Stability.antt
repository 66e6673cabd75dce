-- ===== src/Server/Stability.antt =====
-- When the changes that internal/http/request.go makes to a request leave its fingerprint.
use anicetus.Prelude.{
  Bool, true, false, List, [], ◌∷◌, All, All-intro, All-map, Option, none, ◌≡◌, ◌≢◌, ◌∙◌, refl, sym,
  ap, if◌then◌else◌,
}
use mathlib.Core.Bool.{true≢false}
use anicetus.Status.{Status}
use anicetus.Message.{
  Text, text, Request, Url, Cookie, header_add, header_set, Header, canonical, header_get,
  header_get-header_add, header_get-header_set, Body,
}
use anicetus.Fingerprint.{
  HttpRequestField, field_proto, field_method, field_scheme, field_host, field_path, field_query,
  field_body, find_cookie,
}
use anicetus.Fingerprint.Fields.{has}
use anicetus.Fingerprint.Agreement.{IsSame, chosen, fingerprint_agrees}
use anicetus.Server.{Config, print, marked, redirected, is_none}
use anicetus.Server.Forwarding.{prepared}

-- The name is not that of a line that is added to a forwarded request.
abbrev pub IsOther : Text → Type 0
IsOther name =
    (canonical name ≢ canonical (text "X-Forwarded-For"))
    × (canonical name ≢ canonical (text "Anicetus-Status"))
    × (canonical name ≢ canonical (text "Anicetus-Fingerprint"))

-- The fingerprint uses neither the scheme nor the body nor the added lines, and the request names
-- its host.
pub record IsStable (config : Config) (r : Request) : Type 0 where
  pub no_scheme : has (chosen config.fields) field_scheme ≡ false
  pub no_body : has (chosen config.fields) field_body ≡ false
  pub has_host : r.host ≢ []
  pub other_headers : All IsOther config.headers

abbrev named : Text → Text → Text
named host other = elim host [ [] ↦ other | c ∷ cs ↦ c ∷ cs ]

abbrev cookie_of : Text → List Cookie → Option Text
cookie_of name cookies = elim name [ [] ↦ none | c ∷ cs ↦ find_cookie (c ∷ cs) cookies ]

named_same : (host u v : Text) → host ≢ [] → named host u ≡ named host v
named_same [] u v n = absurd (n refl)
named_same (c ∷ cs) u v n = refl

marked_header_at :
    (b : Bool) (h : Header) (name u v w : Text)
    → IsOther name
    → header_get
        (if b
          then header_add h (text "X-Forwarded-For") u
          else header_set
              (header_set (header_add h (text "X-Forwarded-For") u) (text "Anicetus-Status") v)
              (text "Anicetus-Fingerprint")
              w)
        name
      ≡ header_get h name
marked_header_at true h name u v w (a, b, c) =
    header_get-header_add h name (text "X-Forwarded-For") u a
marked_header_at false h name u v w (a, b, c) =
    let forwarded = header_add h (text "X-Forwarded-For") u in
    header_get-header_set (header_set forwarded (text "Anicetus-Status") v) name
      (text "Anicetus-Fingerprint") w c
    ∙ header_get-header_set forwarded name (text "Anicetus-Status") v b
    ∙ header_get-header_add h name (text "X-Forwarded-For") u a

marked_header :
    (status : Status) (f : Text) (r : Request) (name : Text)
    → IsOther name
    → header_get (marked status f r).header name ≡ header_get r.header name
unfolding marked
marked_header status f r name o =
    marked_header_at (is_none status) r.header name r.remote_addr _ f o

-- The request `q` is `r` but for what forwarding may change.
pub record IsForwarded (r q : Request) : Type 0 where
  pub proto : q.proto ≡ r.proto
  pub method : q.method ≡ r.method
  pub host : q.host ≡ r.host
  pub path : q.url.path ≡ r.url.path
  pub query : q.url.raw_query ≡ r.url.raw_query
  pub cookies : q.cookies ≡ r.cookies
  pub header : (name : Text) → IsOther name → header_get q.header name ≡ header_get r.header name

module _ (config : Config) (r q : Request) (s : IsStable config r) (w : IsForwarded r q) where
  kept : (f : HttpRequestField) → has (chosen config.fields) f ≡ true → IsSame f q r
  kept field_proto h = w.proto
  kept field_method h = w.method
  kept field_scheme h = absurd (true≢false (sym h ∙ s.no_scheme))
  kept field_host h =
      ap (λ host. named host q.url.host) w.host ∙ named_same r.host q.url.host r.url.host s.has_host
  kept field_path h = w.path
  kept field_query h = w.query
  kept field_body h = absurd (true≢false (sym h ∙ s.no_body))

  pub print_stable : (digest : Text → Text) → print digest config q ≡ print digest config r
  unfolding print
  print_stable digest =
      fingerprint_agrees digest config.fields config.headers config.cookies q r kept
        (All-map IsOther _ w.header config.headers s.other_headers)
        (All-intro _ (λ n. ap (cookie_of n) w.cookies) config.cookies)

pub redirected-IsForwarded : (address : Url) (r : Request) → IsForwarded r (redirected address r)
unfolding redirected
redirected-IsForwarded address r = record {
  proto = refl;
  method = refl;
  host = refl;
  path = refl;
  query = refl;
  cookies = refl;
  header = λ _ _. refl;
}

-- What `forwardRequest` makes of a request, whatever is left of its body.
pub prepared-IsForwarded :
    (config : Config) (status : Status) (f : Text) (r : Request) (rest : Body)
    → IsForwarded r (record (prepared config status f r) { body = rest })
unfolding redirected marked
prepared-IsForwarded config status f r rest = record {
  proto = refl;
  method = refl;
  host = refl;
  path = refl;
  query = refl;
  cookies = refl;
  header = λ name o. marked_header status f (redirected config.address r) name o;
}
