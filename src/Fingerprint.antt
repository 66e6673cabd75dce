-- ===== src/Fingerprint.antt =====
-- fingerprint/http_request.go. `digest` is SHA-256 with its hexadecimal text; a write to the hash
-- appends, and never fails. An `HTTPRequest` keeps a pointer to its request: what `Fingerprint`
-- does to the request is in its result.
pub mod Fields
pub mod Agreement
pub mod Reading
pub mod Collisions
pub mod Sets
pub mod Masks
pub mod Parsing
mod Tests
use anicetus.Prelude.{
  ℕ, ◌^◌, Bool, not, ◌==◌, if◌then◌else◌, Option, none, some, List, [], ◌∷◌, ◌++◌,
}
use anicetus.Prelude.Bits.{bit_or, bit_and}
use anicetus.Message.{Text, same, Request, Cookie, Header, read_all, buffer, header_get}

pub data HttpRequestField : Type 0 where
  field_proto field_method field_scheme field_host field_path field_query field_body :
      HttpRequestField

-- `1 << iota`
abbrev pub bit : HttpRequestField → ℕ
bit field_proto = 0
bit field_method = 1
bit field_scheme = 2
bit field_host = 3
bit field_path = 4
bit field_query = 5
bit field_body = 6

abbrev pub value : HttpRequestField → ℕ
value f = 2 ^ bit f

pub record HttpRequestOptions : Type 0 where
  pub fields : ℕ
  pub headers : List Text
  pub cookies : List Text

abbrev pub HttpRequestOption : Type 0
HttpRequestOption = HttpRequestOptions → HttpRequestOptions

unfoldable pub join : ℕ → List HttpRequestField → ℕ
join mask [] = mask
join mask (field ∷ fields) = join (bit_or 64 mask (value field)) fields

unfoldable pub with_fields : List HttpRequestField → HttpRequestOption
with_fields [] o = o
with_fields (field ∷ fields) o = record o { fields = join 0 (field ∷ fields) }

unfoldable pub with_headers : List Text → HttpRequestOption
with_headers headers o = record o { headers = headers }

unfoldable pub with_cookies : List Text → HttpRequestOption
with_cookies cookies o = record o { cookies = cookies }

pub record HttpRequest : Type 0 where
  pub request : Request
  pub fields : ℕ
  pub headers : List Text
  pub cookies : List Text

abbrev pub default_fields : List HttpRequestField
default_fields = field_method ∷ field_scheme ∷ field_host ∷ field_path ∷ field_query ∷ []

unfoldable pub apply_all : List HttpRequestOption → HttpRequestOptions → HttpRequestOptions
apply_all [] o = o
apply_all (option ∷ options) o = apply_all options (option o)

unfoldable pub new_http_request : Request → List HttpRequestOption → HttpRequest
new_http_request r options =
    let o =
      apply_all options (record { fields = join 0 default_fields; headers = []; cookies = [] }) in
    record { request = r; fields = o.fields; headers = o.headers; cookies = o.cookies }

abbrev pub selects : ℕ → HttpRequestField → Bool
selects mask f = not (bit_and 64 mask (value f) == 0)

-- `r.Host`, or the host of the URL where there is none.
abbrev pub host_of : Request → Text
host_of r = elim r.host [ [] ↦ r.url.host | h ∷ hs ↦ h ∷ hs ]

unfoldable pub hash_fields : ℕ → Request → Text → Text
hash_fields mask r h0 =
    let h1 = if selects mask field_proto then h0 ++ r.proto else h0 in
    let h2 = if selects mask field_method then h1 ++ r.method else h1 in
    let h3 = if selects mask field_scheme then h2 ++ r.url.scheme else h2 in
    let h4 = if selects mask field_host then h3 ++ host_of r else h3 in
    let h5 = if selects mask field_path then h4 ++ r.url.path else h4 in
    if selects mask field_query then h5 ++ r.url.raw_query else h5

unfoldable pub hash_headers : List Text → Header → Text → Text
hash_headers [] h hash = hash
hash_headers (name ∷ names) h hash = hash_headers names h (hash ++ header_get h name)

-- `r.Cookie(name)`, with `none` for `http.ErrNoCookie`.
abbrev pub find_cookie : Text → List Cookie → Option Text
find_cookie name [] = none
find_cookie name (c ∷ cs) = if same c.name name then some c.text else find_cookie name cs

abbrev pub cookie : Request → Text → Option Text
cookie r name = elim name [ [] ↦ none | c ∷ cs ↦ find_cookie (c ∷ cs) r.cookies ]

unfoldable pub hash_cookies : List Text → Request → Text → Option Text
hash_cookies [] r hash = some hash
hash_cookies (name ∷ names) r hash = elim (cookie r name) [
  | none ↦ none
  | some text ↦ hash_cookies names r (hash ++ text)
]

module _ (digest : Text → Text) where
  -- The loops over the headers and the cookies, and the sum.
  unfoldable pub finish : HttpRequest → Text → Text
  finish r hash =
      elim (hash_cookies r.cookies r.request (hash_headers r.headers r.request.header hash)) [
        | none ↦ []
        | some hash ↦ digest hash
      ]

  unfoldable pub fingerprint : HttpRequest → Text × HttpRequest
  fingerprint r =
      let hash = hash_fields r.fields r.request [] in
      if selects r.fields field_body
      then (let (body, rest) = read_all r.request.body in
          elim body [
            | none ↦ ([], record r { request = record r.request { body = rest } })
            | some body ↦ (
              finish r (hash ++ body),
              record r { request = record r.request { body = buffer body } },
            )
          ])
      else (finish r hash, r)
