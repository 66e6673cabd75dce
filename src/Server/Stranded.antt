-- ===== src/Server/Stranded.antt =====
-- When the leader in internal/http/handlers.go reports another fingerprint than it was chosen for.
use anicetus.Server.Forwarding.{response_of, forwarded_relayed}
use anicetus.Server.Leading.{call, asked, settle, handle, handler-lead}
use anicetus.Prelude.{Bool, Option, none, ◌≡◌, refl, true, ap, ◌≢◌, ◌∙◌, arith, some, false}
use anicetus.Errors.{ok}
use anicetus.Status.{process}
use anicetus.Gatekeeper
use anicetus.Anicetus.Verdicts.{process_holds}
use anicetus.Gatekeeper.{GatekeeperStorage}
use anicetus.Gatekeeper.Contract.{IsStorage}
use anicetus.Anicetus.{Detector, request_done, evaluate, Anicetus}
use anicetus.Message.{Text, same, text, Request}
use anicetus.Server.Responses.{Response}
use anicetus.Server.{
  Config, Client, Exchange, relay, lead, finish_leader, print, redirected, anicetus_handler,
}

module _ {D S B : Type 0} (digest : Text → Text) (config : Config) (detector : Detector Text D)
    (storage : GatekeeperStorage Text S) where
  settle_relayed :
      (response : Response) (z : Exchange D S B)
      → response.copy_error ≡ none
      → (settle digest config detector storage (relay response z)).service ≡ z.service
  unfolding relay
  settle_relayed response z c = rw (c, relay) refl

  module _ (flag : S → Text → Option Bool) (laws : IsStorage storage flag) (client : Client B) where
    abbrev called_by : Exchange D S B → Exchange D S B
    called_by x =
        call digest config detector storage client (asked digest config detector storage client x)

    lead_service :
        (x : Exchange D S B) (response : Response)
        → let y = call digest config detector storage client x in
          let done = request_done (print digest config) detector storage y.request y.service in
          client.new_request (redirected config.address x.request) ≡ none
          → response_of client config process (print digest config x.request) x ≡ ok response
          → response.copy_error ≡ none
          → done.0 ≡ ok tt
          → (lead digest config detector storage client x).service ≡ done.1
    unfolding lead finish_leader
    lead_service x response p q c h =
        ap (λ o. (settle digest config detector storage o).service)
          (forwarded_relayed client config process (print digest config x.request)
            (handle digest config detector storage client) x response p q h)
        ∙ settle_relayed response _ c

    stored_frame :
        (q : Request) (t : Anicetus D S) (f : Text)
        → print digest config q ≢ f
        → flag (request_done (print digest config) detector storage q t).1.storage f
          ≡ flag t.storage f
    unfolding request_done Gatekeeper.store
    stored_frame q t f ne =
        ground (arith, laws.store_frame (print digest config q) f true t.storage ne)

    -- Where forwarding changes the fingerprint of the leader, the fingerprint it was chosen for
    -- stays unprocessed though everything succeeds: later requests of the herd still wait when the
    -- leader is done.
    pub leader_strands :
        (x : Exchange D S B) (response : Response)
        → let y = called_by x in
          same x.request.method (text "GET") ≡ true
          → (evaluate (print digest config) detector storage x.request x.service).0
            ≡ (process, none)
          → client.new_request
              (redirected config.address (asked digest config detector storage client x).request)
            ≡ none
          → response_of client config process
              (print digest config (asked digest config detector storage client x).request)
              (asked digest config detector storage client x)
            ≡ ok response
          → response.copy_error ≡ none
          → (request_done (print digest config) detector storage y.request y.service).0 ≡ ok tt
          → print digest config y.request ≢ print digest config x.request
          → flag
              (anicetus_handler digest config detector storage client x).service.storage
              (print digest config x.request)
            ≡ some false
    leader_strands x response g v p q c h ne =
        ap (λ e. flag e.service.storage (print digest config x.request))
          (handler-lead digest config detector storage client x g v)
        ∙ ap (λ t. flag t.storage (print digest config x.request))
            (lead_service (asked digest config detector storage client x) response p q c h)
        ∙ stored_frame (called_by x).request (called_by x).service (print digest config x.request)
            ne
        ∙ process_holds (print digest config) detector storage flag laws x.request x.service v
