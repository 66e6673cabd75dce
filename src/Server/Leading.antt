-- ===== src/Server/Leading.antt =====
-- The parts of the way of a leader through internal/http/handlers.go.
use anicetus.Prelude.{true, none, [], ◌≡◌, ◌∙◌, refl, ap, if◌then◌else◌}
use anicetus.Errors.{Result, check}
use anicetus.Status.{Status, process}
use anicetus.Gatekeeper.{GatekeeperStorage}
use anicetus.Anicetus.{Detector, evaluate, cleanup}
use anicetus.Message.{Text, text, same}
use anicetus.Server.Responses.{Response}
use anicetus.Server.{
  Config, Client, Exchange, answer_status, print, printed, finish_leader, lead, pass, dispatch,
  guard, anicetus_handler,
}
use anicetus.Server.Forwarding.{called}

module _ {D S B : Type 0} (digest : Text → Text) (config : Config) (detector : Detector Text D)
    (storage : GatekeeperStorage Text S) where
  -- What `lead` does with the result of forwarding.
  abbrev pub settle : Result (Unit {0}) × Exchange D S B → Exchange D S B
  settle out =
      check out
        (λ e y. record (answer_status 500 y) {
          service = (cleanup (print digest config) detector storage y.request y.service).1;
          request = printed digest config y.request;
        })
        λ _ y. y

  module _ (client : Client B) where
    abbrev pub handle : Response → Exchange D S B → Result (Unit {0}) × Exchange D S B
    handle = finish_leader digest config detector storage client

    abbrev pub call : Exchange D S B → Exchange D S B
    call x = called client config process (print digest config x.request) x

    abbrev pub asked : Exchange D S B → Exchange D S B
    asked x = record x {
      service = (evaluate (print digest config) detector storage x.request x.service).1;
      request = printed digest config x.request;
    }

    pub handler-lead :
        (x : Exchange D S B)
        → same x.request.method (text "GET") ≡ true
        → (evaluate (print digest config) detector storage x.request x.service).0 ≡ (process, none)
        → anicetus_handler digest config detector storage client x
          ≡ lead digest config detector storage client (asked x)
    unfolding anicetus_handler guard dispatch
    handler-lead x g v =
        ap
          (λ b.
            guard digest config detector storage client
              (if b then x else pass digest config detector storage client Status.none [] x))
          g
        ∙ rw (ap (λ p. p.1) v, guard) (rw (ap (λ p. p.0) v) refl)
