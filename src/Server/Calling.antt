-- ===== src/Server/Calling.antt =====
-- Which requests `anicetusHandler` of internal/http/handlers.go sends to the backend.
use mathlib.Core.Path.{subst⁻¹}
use anicetus.Anicetus.{Detector, evaluate, cleanup}
use anicetus.Gatekeeper.{GatekeeperStorage, Verdict}
use anicetus.Server.Responses.{Response}
use anicetus.Server.{
  relay, forward_request_by, print, printed, answer_status, finish_leader, anicetus_handler,
  dispatch, pass, lead, Config, Client, Exchange, redirected,
}
use anicetus.Server.Verdicts.{decide, handler-decide}
use anicetus.Server.Forwarding.{
  called, response_of, forwarded_fails, forwarded_unhandled, forwarded_relayed,
}
use anicetus.Prelude.{true, none, some, ◌≡◌, ◌∙◌, ap, refl}
use anicetus.Errors.{Result, ok, err, check}
use anicetus.Status.{Status, process, open_gates}
use anicetus.Message.{Text, text, same, Request}
use anicetus.Server.Sending.{IsSent, prepared-IsSent}

module _ {D S B : Type 0} where
  module _ (failing : Exchange D S B → Exchange D S B)
      (fails_alike : (y : Exchange D S B) → (failing y).backend ≡ y.backend) (client : Client B)
      (config : Config) (status : Status) (f : Text)
      (handler : Response → Exchange D S B → Result (Unit {0}) × Exchange D S B)
      (keeps : (response : Response) (y : Exchange D S B)
        → (handler response y).1.backend ≡ y.backend) where
    abbrev outcome : Result (Unit {0}) × Exchange D S B → Exchange D S B
    outcome out = check out (λ e y. failing y) λ _ y. y

    outcome_keeps :
        (out : Result (Unit {0}) × Exchange D S B) → (outcome out).backend ≡ out.1.backend
    outcome_keeps (ok _, y) = refl
    outcome_keeps (err e, y) = fails_alike y

    forwarded_once_at :
        (x : Exchange D S B) (reply : Result Response) (handled : Response → Result (Unit {0}))
        → client.new_request (redirected config.address x.request) ≡ none
        → response_of client config status f x ≡ reply
        → ((response : Response)
            → (handler response (called client config status f x)).0 ≡ handled response)
        → (forward_request_by client config status f handler x).1.backend
          ≡ (called client config status f x).backend
    unfolding relay
    forwarded_once_at x (err e) handled p q h =
        ap (λ o. o.1.backend) (forwarded_fails client config status f handler x e p q)
    forwarded_once_at x (ok response) handled p q h =
        elim (handled response)
            as (λ d.
              (handler response (called client config status f x)).0 ≡ d
              → (forward_request_by client config status f handler x).1.backend
                ≡ (called client config status f x).backend) [
                  | ok u ↦ λ g.
                      ap (λ o. o.1.backend)
                        (forwarded_relayed client config status f handler x response p q g)
                      ∙ keeps response _
                  | err e ↦ λ g.
                      ap (λ o. o.1.backend)
                        (forwarded_unhandled client config status f handler x response e p q g)
                      ∙ keeps response _
                ]
          (h response)

    pub forwarded_once :
        (x : Exchange D S B)
        → client.new_request (redirected config.address x.request) ≡ none
        → (outcome (forward_request_by client config status f handler x)).backend
          ≡ (called client config status f x).backend
    forwarded_once x p =
        outcome_keeps _
        ∙ forwarded_once_at x _ (λ r. (handler r (called client config status f x)).0) p refl
            (λ r. refl)

module _ {D S B : Type 0} (digest : Text → Text) (config : Config) (detector : Detector Text D)
    (storage : GatekeeperStorage Text S) (client : Client B) where
  -- What the backend gets, and what it makes of it.
  abbrev pub IsCalled : Status → Request → B → B → Type 0
  IsCalled status r before after =
      (q : Request) × IsSent config.address status (print digest config r) r q
      × (after ≡ (client.do_request q before).2)

  passed-IsCalled :
      (y : Exchange D S B)
      → client.new_request (redirected config.address y.request) ≡ none
      → IsCalled open_gates y.request y.backend
          (decide digest config detector storage client (open_gates, none) y).backend
  unfolding dispatch pass
  passed-IsCalled y p = (
    _,
    prepared-IsSent config open_gates (print digest config y.request) y.request refl,
    forwarded_once (answer_status 500) (λ z. refl) client config open_gates
        (print digest config y.request) (λ _ z. (ok tt, z)) (λ _ z. refl) y p,
  )

  led-IsCalled :
      (y : Exchange D S B)
      → client.new_request (redirected config.address y.request) ≡ none
      → IsCalled process y.request y.backend
          (decide digest config detector storage client (process, none) y).backend
  unfolding dispatch lead finish_leader
  led-IsCalled y p = (
    _,
    prepared-IsSent config process (print digest config y.request) y.request refl,
    forwarded_once
        (λ z. record (answer_status 500 z) {
          service = (cleanup (print digest config) detector storage z.request z.service).1;
          request = printed digest config z.request;
        })
        (λ z. refl) client config process (print digest config y.request)
        (finish_leader digest config detector storage client) (λ _ z. refl) y p,
  )

  -- The backend is called for a request that passes or leads, and for no other.
  unfoldable pub Called : Verdict → Request → B → B → Type 0
  Called (Status.process, none) r before after = IsCalled process r before after
  Called (Status.open_gates, none) r before after = IsCalled open_gates r before after
  Called _ r before after = after ≡ before

  decide-Called :
      (v : Verdict) (y : Exchange D S B)
      → client.new_request (redirected config.address y.request) ≡ none
      → Called v y.request y.backend (decide digest config detector storage client v y).backend
  unfolding dispatch Called
  decide-Called (Status.none, some e) y p = refl
  decide-Called (Status.failed, some e) y p = refl
  decide-Called (Status.process, some e) y p = refl
  decide-Called (Status.wait, some e) y p = refl
  decide-Called (Status.open_gates, some e) y p = refl
  decide-Called (Status.none, none) y p = refl
  decide-Called (Status.failed, none) y p = refl
  decide-Called (Status.process, none) y p = led-IsCalled y p
  decide-Called (Status.wait, none) y p = refl
  decide-Called (Status.open_gates, none) y p = passed-IsCalled y p

  -- If the HTTP client accepts it, a GET request is sent to the backend once where `Evaluate` opens
  -- the gates to it or makes it the leader, and not at all where it has to wait or `Evaluate`
  -- fails. It is sent as it is after its fingerprint has been taken, but for the scheme and the
  -- host of the address, one more line X-Forwarded-For with the sender, and one line each for the
  -- status and the fingerprint in place of those that came with it.
  pub get-Called :
      (x : Exchange D S B)
      → same x.request.method (text "GET") ≡ true
      → let (v, t) = evaluate (print digest config) detector storage x.request x.service in
        let r = printed digest config x.request in
        client.new_request (redirected config.address r) ≡ none
        → Called v r x.backend (anicetus_handler digest config detector storage client x).backend
  get-Called x g p =
      let r = printed digest config x.request in
      let (v, t) = evaluate (print digest config) detector storage x.request x.service in
      subst⁻¹ (λ o. Called v r x.backend o.backend)
        (handler-decide digest config detector storage client x g)
        (decide-Called v (record x { service = t; request = r }) p)
