-- ===== src/Fingerprint/Reading.antt =====
-- Calling `Fingerprint` of fingerprint/http_request.go again, and where it gives the empty text.
use anicetus.Prelude.{
  Bool, true, false, ◌≡◌, ◌∙◌, ap, refl, sym, List, [], ◌∷◌, ◌++◌, if◌then◌else◌, Bool-cases, inl,
  inr, Option, none, some,
}
use anicetus.Message.{Text, Request, read_all, buffer}
use anicetus.Fingerprint.{
  HttpRequest, selects, field_body, fingerprint, finish, cookie, hash_cookies, hash_headers,
}
use anicetus.Fingerprint.Agreement.{taken, taken_same, fingerprint-taken}

-- The request after its body was read and put back, and after reading it failed.
abbrev refilled : HttpRequest → HttpRequest
refilled r = record r { request = record r.request { body = buffer r.request.body.content } }

abbrev drained : HttpRequest → HttpRequest
drained r = record r {
  request = record r.request { body = record r.request.body { content = [] } };
}

abbrev drained_as : Bool → HttpRequest → HttpRequest
drained_as b r = record r {
  request = record r.request { body = record { content = []; broken = b } };
}

refilled_same : (r : HttpRequest) → r.request.body.broken ≡ false → refilled r ≡ r
refilled_same r q =
    ap
      (λ b. record r { request = record r.request { body = record r.request.body { broken = b } } })
      (sym q)

taken_nothing : (b : Bool) (o : Option Text) → taken b o [] (λ _. []) ≡ []
taken_nothing true none = refl
taken_nothing true (some c) = refl
taken_nothing false o = refl

module _ (digest : Text → Text) where
  fingerprint_broken :
      (r : HttpRequest)
      → selects r.fields field_body ≡ true
      → r.request.body.broken ≡ true
      → fingerprint digest r ≡ ([], drained r)
  unfolding fingerprint
  fingerprint_broken r p q =
      rw (p, fingerprint) (rw (q, read_all) (ap (λ b. ([], drained_as b r)) q))

  fingerprint_at :
      (r : HttpRequest) (b broken : Bool)
      → selects r.fields field_body ≡ b
      → r.request.body.broken ≡ broken
      → (fingerprint digest r).1 ≡ (if b then if broken then drained r else refilled r else r)
  unfolding fingerprint
  fingerprint_at r true true p q = ap (λ x. x.1) (fingerprint_broken r p q)
  fingerprint_at r true false p q = rw (p, fingerprint) (rw (q, read_all) refl)
  fingerprint_at r false broken p q = rw (p, fingerprint) refl

  -- `Fingerprint` puts back the body that it reads: unless the body of the request fails to be
  -- read, the request is left as it was.
  pub fingerprint_keeps :
      (r : HttpRequest) → r.request.body.broken ≡ false → (fingerprint digest r).1 ≡ r
  fingerprint_keeps r q = elim (Bool-cases (selects r.fields field_body)) [
    | inl p ↦ fingerprint_at r true false p q ∙ refilled_same r q
    | inr p ↦ fingerprint_at r false false p q
  ]

  options_kept :
      (r : HttpRequest) (b broken : Bool)
      → selects r.fields field_body ≡ b
      → r.request.body.broken ≡ broken
      → (fingerprint digest r).1 ≡ record r { request = (fingerprint digest r).1.request }
  options_kept r true true p q =
      let e = fingerprint_at r true true p q in
      e ∙ sym (ap (λ x. record r { request = x.request }) e)
  options_kept r true false p q =
      let e = fingerprint_at r true false p q in
      e ∙ sym (ap (λ x. record r { request = x.request }) e)
  options_kept r false broken p q =
      let e = fingerprint_at r false broken p q in
      e ∙ sym (ap (λ x. record r { request = x.request }) e)

  pub fingerprint_options :
      (r : HttpRequest)
      → (fingerprint digest r).1 ≡ record r { request = (fingerprint digest r).1.request }
  fingerprint_options r = options_kept r _ _ refl refl

  host_kept :
      (r : HttpRequest) (b broken : Bool)
      → selects r.fields field_body ≡ b
      → r.request.body.broken ≡ broken
      → (fingerprint digest r).1.request.host ≡ r.request.host
  host_kept r true true p q = ap (λ x. x.request.host) (fingerprint_at r true true p q)
  host_kept r true false p q = ap (λ x. x.request.host) (fingerprint_at r true false p q)
  host_kept r false broken p q = ap (λ x. x.request.host) (fingerprint_at r false broken p q)

  pub fingerprint_host : (r : HttpRequest) → (fingerprint digest r).1.request.host ≡ r.request.host
  fingerprint_host r = host_kept r _ _ refl refl

  again_at :
      (r : HttpRequest) (b broken : Bool)
      → selects r.fields field_body ≡ b
      → r.request.body.broken ≡ broken
      → fingerprint digest (fingerprint digest r).1 ≡ fingerprint digest r
  again_at r true true p q =
      ap (λ x. fingerprint digest x.1) (fingerprint_broken r p q)
      ∙ fingerprint_broken (drained r) p q
      ∙ sym (fingerprint_broken r p q)
  again_at r true false p q = ap (fingerprint digest) (fingerprint_keeps r q)
  again_at r false broken p q = ap (fingerprint digest) (fingerprint_at r false broken p q)

  -- A second call of `Fingerprint` on one request gives the text of the first and leaves the
  -- request as the first has left it, also where the body cannot be read.
  pub fingerprint_again :
      (r : HttpRequest) → fingerprint digest (fingerprint digest r).1 ≡ fingerprint digest r
  fingerprint_again r = again_at r _ _ refl refl

  hash_cookies-none :
      (before after : List Text) (name : Text) (r : Request) (h : Text)
      → cookie r name ≡ none
      → hash_cookies (before ++ (name ∷ after)) r h ≡ none
  unfolding hash_cookies
  hash_cookies-none [] after name r h p = rw (p, hash_cookies) refl
  hash_cookies-none (n ∷ ns) after name r h p =
      elim (cookie r n)
        as (λ o.
          elim o [ none ↦ none | some text ↦ hash_cookies (ns ++ (name ∷ after)) r (h ++ text) ]
          ≡ none) [ none ↦ refl | some text ↦ hash_cookies-none ns after name r (h ++ text) p ]

  finish-none :
      (r : HttpRequest) (before after : List Text) (name : Text) (h : Text)
      → r.cookies ≡ before ++ (name ∷ after)
      → cookie r.request name ≡ none
      → finish digest r h ≡ []
  unfolding finish
  finish-none r before after name h e p =
      ap (λ o. elim o [ none ↦ [] | some hash ↦ digest hash ])
        (ap (λ names. hash_cookies names r.request (hash_headers r.headers r.request.header h)) e
          ∙ hash_cookies-none before after name r.request _ p)

  -- A request without one of the cookies that the options name has the empty fingerprint, as every
  -- other one without it.
  pub missing_cookie :
      (r : HttpRequest) (before after : List Text) (name : Text)
      → r.cookies ≡ before ++ (name ∷ after)
      → cookie r.request name ≡ none
      → (fingerprint digest r).0 ≡ []
  missing_cookie r before after name e p =
      let b = selects r.fields field_body in
      let o = (read_all r.request.body).0 in
      fingerprint-taken digest r.fields r.headers r.cookies r.request b o refl refl
      ∙ taken_same b o o _ [] _ (λ _. []) (λ _. refl) (finish-none r before after name _ e p)
          (λ c. finish-none r before after name _ e p)
      ∙ taken_nothing b o
