-- ===== src/Server/Sending.antt =====
-- The request that `forwardRequest` of internal/http/request.go sends.
use anicetus.Prelude.{
  if◌then◌else◌, ℕ, zero, suc, false, [], ◌∷◌, ◌++◌, ◌≡◌, ◌≢◌, ◌∙◌, ap, refl, arith, if_pos, if_neg,
}
use anicetus.Status.{Status, to_string}
use anicetus.Message.{
  Text, text, Header, Request, Url, canonical, values, lines, text_discrete, header_add, header_set,
}
use anicetus.Server.{Config, redirected, marked, outgoing, is_none}
use anicetus.Server.Forwarding.{prepared}
use anicetus.Server.Stability.{IsOther}

-- The request that is sent for another one, to an address and with a status and a fingerprint.
pub record IsSent (address : Url) (status : Status) (fingerprint : Text) (r q : Request)
    : Type 0 where
  pub method : q.method ≡ r.method
  pub scheme : q.url.scheme ≡ address.scheme
  pub address_host : q.url.host ≡ address.host
  pub path : q.url.path ≡ r.url.path
  pub query : q.url.raw_query ≡ r.url.raw_query
  pub host : q.host ≡ r.host
  pub body : q.body ≡ r.body
  pub sender :
      values q.header (canonical (text "X-Forwarded-For"))
      ≡ values r.header (canonical (text "X-Forwarded-For")) ++ (r.remote_addr ∷ [])
  pub status_line :
      values q.header (canonical (text "Anicetus-Status")) ≡ text (to_string status) ∷ []
  pub fingerprint_line :
      values q.header (canonical (text "Anicetus-Fingerprint")) ≡ fingerprint ∷ []
  pub others :
      (name : Text)
      → IsOther name
      → values q.header (canonical name) ≡ values r.header (canonical name)

values_set_same :
    (h : Header) (name value : Text)
    → values (header_set h name value) (canonical name) ≡ value ∷ []
values_set_same h name value =
    ap lines (if_pos (text_discrete (canonical name) (canonical name)) refl _ _)

values_set_other :
    (h : Header) (name key value : Text)
    → canonical name ≢ canonical key
    → values (header_set h key value) (canonical name) ≡ values h (canonical name)
values_set_other h name key value ne =
    ap lines (if_neg (text_discrete (canonical name) (canonical key)) ne _ _)

values_add_same :
    (h : Header) (name value : Text)
    → values (header_add h name value) (canonical name) ≡ values h (canonical name) ++ (value ∷ [])
values_add_same h name value =
    ap lines (if_pos (text_discrete (canonical name) (canonical name)) refl _ _)

values_add_other :
    (h : Header) (name key value : Text)
    → canonical name ≢ canonical key
    → values (header_add h key value) (canonical name) ≡ values h (canonical name)
values_add_other h name key value ne =
    ap lines (if_neg (text_discrete (canonical name) (canonical key)) ne _ _)

abbrev byte_at : ℕ → Text → ℕ
byte_at i [] = 0
byte_at zero (c ∷ cs) = c
byte_at (suc i) (c ∷ cs) = byte_at i cs

sender_not_status : canonical (text "X-Forwarded-For") ≢ canonical (text "Anicetus-Status")
unfolding canonical
sender_not_status e = absurd (omega (arith, ap (byte_at 0) e))

sender_not_fingerprint :
    canonical (text "X-Forwarded-For") ≢ canonical (text "Anicetus-Fingerprint")
unfolding canonical
sender_not_fingerprint e = absurd (omega (arith, ap (byte_at 0) e))

status_not_fingerprint :
    canonical (text "Anicetus-Status") ≢ canonical (text "Anicetus-Fingerprint")
unfolding canonical
status_not_fingerprint e = absurd (omega (arith, ap (byte_at 9) e))

pub prepared-IsSent :
    (config : Config) (status : Status) (f : Text) (r : Request)
    → is_none status ≡ false
    → IsSent config.address status f r (outgoing (prepared config status f r))
unfolding outgoing marked redirected
prepared-IsSent config status f r e =
    let added = header_add r.header (text "X-Forwarded-For") r.remote_addr in
    let stated = header_set added (text "Anicetus-Status") (text (to_string status)) in
    let header =
      ap (λ b. if b then added else header_set stated (text "Anicetus-Fingerprint") f) e in
    record {
      method = refl;
      scheme = refl;
      address_host = refl;
      path = refl;
      query = refl;
      host = refl;
      body = refl;
      sender =
          ap (λ h. values h (canonical (text "X-Forwarded-For"))) header
          ∙ values_set_other stated (text "X-Forwarded-For") (text "Anicetus-Fingerprint") f
              sender_not_fingerprint
          ∙ values_set_other added (text "X-Forwarded-For") (text "Anicetus-Status") _
              sender_not_status
          ∙ values_add_same r.header (text "X-Forwarded-For") r.remote_addr;
      status_line =
          ap (λ h. values h (canonical (text "Anicetus-Status"))) header
          ∙ values_set_other stated (text "Anicetus-Status") (text "Anicetus-Fingerprint") f
              status_not_fingerprint
          ∙ values_set_same added (text "Anicetus-Status") _;
      fingerprint_line =
          ap (λ h. values h (canonical (text "Anicetus-Fingerprint"))) header
          ∙ values_set_same stated (text "Anicetus-Fingerprint") f;
      others = λ name (a, b, c).
          ap (λ h. values h (canonical name)) header
          ∙ values_set_other stated name (text "Anicetus-Fingerprint") f c
          ∙ values_set_other added name (text "Anicetus-Status") _ b
          ∙ values_add_other r.header name (text "X-Forwarded-For") r.remote_addr a;
    }
