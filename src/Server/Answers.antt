-- ===== src/Server/Answers.antt =====
-- How often internal/http/handlers.go calls the backend.
use anicetus.Prelude.{ℕ, suc, ◌+◌, false, Option, none, some, [], ◌≡◌, ◌∙◌, refl, ap, arith}
use anicetus.Errors.{Error, Result, ok, err, check}
use anicetus.Status.{Status, failed, process, wait, open_gates}
use anicetus.Gatekeeper.{GatekeeperStorage}
use anicetus.Anicetus.{Detector, evaluate}
use anicetus.Message.{Text, text, same, Request}
use anicetus.Server.Responses.{Response}
use anicetus.Server.{
  Config, Client, Exchange, relay, print, finish_leader, lead, pass, dispatch, guard,
  anicetus_handler, printed,
}
use anicetus.Server.Forwarding.{
  called, forwarded, response_of, forwarded_fails, forwarded_unhandled, forwarded_relayed,
}

-- `count` is the number of the calls that the backend has got.
abbrev pub IsCounted : {B : Type 0} → Client B → (B → ℕ) → Type 0
IsCounted {B} client count = (r : Request) (b : B) → count (client.do_request r b).2 ≡ suc (count b)

-- Every request of the server can be made again for the backend.
abbrev pub IsAccepting : {B : Type 0} → Client B → Type 0
IsAccepting client = (r : Request) → client.new_request r ≡ none

module _ {D S B : Type 0} (client : Client B) (count : B → ℕ) (law : IsCounted client count)
    (accepts : IsAccepting client) (config : Config) where
  module _ (status : Status) (f : Text)
      (handler : Response → Exchange D S B → Result (Unit {0}) × Exchange D S B)
      (keeps : (response : Response) (x : Exchange D S B)
        → (handler response x).1.backend ≡ x.backend) where
    forward_calls_at :
        (x : Exchange D S B) (reply : Result Response) (handled : Response → Result (Unit {0}))
        → response_of client config status f x ≡ reply
        → ((response : Response)
            → (handler response (called client config status f x)).0 ≡ handled response)
        → count (forwarded client config status f handler x).1.backend ≡ suc (count x.backend)
    unfolding relay
    forward_calls_at x (err e) handled q h =
        ap (λ o. count o.1.backend)
          (forwarded_fails client config status f handler x e (accepts _) q)
        ∙ law _ x.backend
    forward_calls_at x (ok response) handled q h =
        elim (handled response)
            as (λ d.
              (handler response (called client config status f x)).0 ≡ d
              → count (forwarded client config status f handler x).1.backend
                ≡ suc (count x.backend)) [
                  | err e ↦ λ p.
                      ap (λ o. count o.1.backend)
                        (forwarded_unhandled client config status f handler x response e (accepts _)
                          q p)
                      ∙ ap count (keeps response (called client config status f x))
                      ∙ law _ x.backend
                  | ok _ ↦ λ p.
                      ap (λ o. count o.1.backend)
                        (forwarded_relayed client config status f handler x response (accepts _) q
                          p)
                      ∙ ap count (keeps response (called client config status f x))
                      ∙ law _ x.backend
                ]
          (h response)

    forward_calls :
        (x : Exchange D S B)
        → count (forwarded client config status f handler x).1.backend ≡ suc (count x.backend)
    forward_calls x = forward_calls_at x _ _ refl (λ _. refl)

  checked_backend :
      (out : Result (Unit {0}) × Exchange D S B) (refuse : Error → Exchange D S B → Exchange D S B)
      → ((e : Error) (y : Exchange D S B) → (refuse e y).backend ≡ y.backend)
      → (check out refuse λ _ y. y).backend ≡ out.1.backend
  checked_backend (ok _, y) refuse k = refl
  checked_backend (err e, y) refuse k = k e y

  module _ (digest : Text → Text) (detector : Detector Text D)
      (storage : GatekeeperStorage Text S) where
    pass_calls :
        (status : Status) (f : Text) (x : Exchange D S B)
        → count (pass digest config detector storage client status f x).backend
          ≡ suc (count x.backend)
    unfolding pass
    pass_calls status f x =
        ap count (checked_backend _ _ (λ _ _. refl)) ∙ forward_calls status f _ (λ _ _. refl) x

    lead_calls :
        (x : Exchange D S B)
        → count (lead digest config detector storage client x).backend ≡ suc (count x.backend)
    unfolding lead finish_leader
    lead_calls x =
        ap count (checked_backend _ _ (λ _ _. refl))
        ∙ forward_calls process (print digest config x.request) _ (λ _ _. refl) x

    -- The calls that an answer of `Evaluate` leads to.
    abbrev pub calls : Status → Option Error → ℕ
    calls status error = elim error [
      | some e ↦ 0
      | none ↦ elim status [ process ↦ 1 | open_gates ↦ 1 | _ ↦ 0 ]
    ]

    abbrev after : Exchange D S B → Exchange D S B
    after x = record x {
      service = (evaluate (print digest config) detector storage x.request x.service).1;
      request = printed digest config x.request;
    }

    guard-calls_at :
        (x : Exchange D S B) (status : Status) (error : Option Error)
        → (evaluate (print digest config) detector storage x.request x.service).0 ≡ (status, error)
        → count (guard digest config detector storage client x).backend
          ≡ calls status error + count x.backend
    unfolding guard dispatch
    guard-calls_at x status (some e) v = rw (ap (λ p. p.1) v, guard) (omega arith)
    guard-calls_at x Status.none none v =
        rw (ap (λ p. p.1) v, guard) (rw (ap (λ p. p.0) v) (omega arith))
    guard-calls_at x failed none v =
        rw (ap (λ p. p.1) v, guard) (rw (ap (λ p. p.0) v) (omega arith))
    guard-calls_at x process none v =
        rw (ap (λ p. p.1) v, guard) (rw (ap (λ p. p.0) v) (omega (arith, lead_calls (after x))))
    guard-calls_at x wait none v = rw (ap (λ p. p.1) v, guard) (rw (ap (λ p. p.0) v) (omega arith))
    guard-calls_at x open_gates none v =
        rw (ap (λ p. p.1) v, guard)
          (rw (ap (λ p. p.0) v) (
            omega (arith, pass_calls open_gates (print digest config (after x).request) (after x))))

    guard-calls :
        (x : Exchange D S B)
        → let (status, error) =
            (evaluate (print digest config) detector storage x.request x.service).0 in
          count (guard digest config detector storage client x).backend
          ≡ calls status error + count x.backend
    guard-calls x = guard-calls_at x _ _ refl

    -- A request with another method is sent to the backend, and then once more if `Evaluate` opens
    -- the gates to it or makes it the leader: the handler does not return after the first time.
    pub other_calls :
        (x : Exchange D S B)
        → same x.request.method (text "GET") ≡ false
        → let y = pass digest config detector storage client Status.none [] x in
          let (status, error) =
            (evaluate (print digest config) detector storage y.request y.service).0 in
          count (anicetus_handler digest config detector storage client x).backend
          ≡ calls status error + suc (count x.backend)
    unfolding anicetus_handler
    other_calls x g =
        rw (g, anicetus_handler) (guard-calls _ ∙ ap (◌+◌ _) (pass_calls Status.none [] x))
