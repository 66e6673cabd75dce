-- ===== src/Server/Forwarding.antt =====
-- The ways that `forwardRequest` of internal/http/request.go ends.
use anicetus.Prelude.{none, some, ◌≡◌, refl}
use anicetus.Errors.{Error, wrap, Result, ok, err, check}
use anicetus.Status.{Status}
use anicetus.Message.{Text, Request}
use anicetus.Server.Responses.{Response}
use anicetus.Server.{
  Config, Client, Exchange, relay, forward_request_by, redirected, marked, outgoing,
}

-- The request as it is sent, but for what `outgoing` resets.
abbrev pub prepared : Config → Status → Text → Request → Request
prepared config status f r = marked status f (redirected config.address r)

module _ {D S B : Type 0} (client : Client B) (config : Config) (status : Status) (f : Text) where
  -- The exchange after the call.
  abbrev pub called : Exchange D S B → Exchange D S B
  called x =
      let (response, rest, backend) =
        client.do_request (outgoing (prepared config status f x.request)) x.backend in
      record x {
        request = record (prepared config status f x.request) { body = rest };
        backend = backend;
      }

  abbrev pub response_of : Exchange D S B → Result Response
  response_of x = (client.do_request (outgoing (prepared config status f x.request)) x.backend).0

  module _ (handler : Response → Exchange D S B → Result (Unit {0}) × Exchange D S B) where
    abbrev pub forwarded : Exchange D S B → Result (Unit {0}) × Exchange D S B
    forwarded = forward_request_by client config status f handler

    pub forwarded_refused :
        (x : Exchange D S B) (e : Error)
        → client.new_request (redirected config.address x.request) ≡ some e
        → forwarded x ≡ (
          err (wrap "failed to create forwarded request" e),
          record x { request = redirected config.address x.request },
        )
    unfolding forward_request_by
    forwarded_refused x e p = rw (p, forward_request_by) refl

    pub forwarded_fails :
        (x : Exchange D S B) (e : Error)
        → client.new_request (redirected config.address x.request) ≡ none
        → response_of x ≡ err e
        → forwarded x ≡ (err (wrap "failed to execute forwarded request" e), called x)
    unfolding forward_request_by
    forwarded_fails x e p q = rw (p, forward_request_by) (rw (q, check) refl)

    pub forwarded_unhandled :
        (x : Exchange D S B) (response : Response) (e : Error)
        → client.new_request (redirected config.address x.request) ≡ none
        → response_of x ≡ ok response
        → (handler response (called x)).0 ≡ err e
        → forwarded x
          ≡ (err (wrap "failed to handle forwarded response" e), (handler response (called x)).1)
    unfolding forward_request_by
    forwarded_unhandled x response e p q h =
        rw (p, forward_request_by) (rw (q, check) (rw (h, check) refl))

    pub forwarded_relayed :
        (x : Exchange D S B) (response : Response)
        → client.new_request (redirected config.address x.request) ≡ none
        → response_of x ≡ ok response
        → (handler response (called x)).0 ≡ ok tt
        → forwarded x ≡ relay response (handler response (called x)).1
    unfolding forward_request_by
    forwarded_relayed x response p q h =
        rw (p, forward_request_by) (rw (q, check) (rw (h, check) refl))
