-- ===== src/Server/Leaders.antt =====
-- What the request that leads a herd leaves behind, in internal/http/handlers.go.
use anicetus.Prelude.{Bool, true, Option, none, some, ◌≡◌, ◌∙◌, ◌⊎◌, inl, inr, refl, sym, ap, arith}
use anicetus.Errors.{Error, wrap, Result, ok, err}
use anicetus.Status.{process}
use anicetus.Gatekeeper.{GatekeeperStorage}
use anicetus.Gatekeeper.Contract.{IsStorage}
use anicetus.Anicetus.{Detector, Anicetus, evaluate, request_done, cleanup}
use anicetus.Anicetus.Cycle.{held-request_done, held-cleanup}
use anicetus.Gatekeeper
use anicetus.Message.{Text, text, same, Request, text_discrete}
use mathlib.Core.Path.{subst, subst⁻¹}
use anicetus.Fingerprint.{fingerprint, join, new_http_request}
use anicetus.Fingerprint.Agreement.{chosen, configured, with_options-configured}
use anicetus.Fingerprint.Reading.{fingerprint_host, fingerprint_again, fingerprint_options}
use anicetus.Server.Responses.{Response}
use anicetus.Server.{
  Config, Client, Exchange, relay, redirected, print, printed, finish_leader, lead, fingerprinter,
  anicetus_handler, fingerprinter,
}
use anicetus.Server.Leading.{settle, handle, call, asked, handler-lead}
use anicetus.Server.Forwarding.{
  forwarded, response_of, forwarded_refused, forwarded_fails, forwarded_unhandled,
  forwarded_relayed,
}
use anicetus.Server.Stability.{IsStable, print_stable, redirected-IsForwarded, prepared-IsForwarded}

pub print-printed :
    (digest : Text → Text) (config : Config) (r : Request)
    → print digest config (printed digest config r) ≡ print digest config r
unfolding print printed
print-printed digest config r =
    let c = configured (join 0 (chosen config.fields)) config.headers config.cookies r in
    let p = with_options-configured config.fields config.headers config.cookies r in
    ap (λ x. (fingerprint digest x).0)
      (with_options-configured config.fields config.headers config.cookies (printed digest config r)
        ∙ ap (λ x. record c { request = (fingerprint digest x).1.request }) p
        ∙ sym (fingerprint_options digest c))
    ∙ ap (λ x. x.0) (fingerprint_again digest c)
    ∙ ap (λ x. (fingerprint digest x).0) (sym p)

printed-IsStable :
    (digest : Text → Text) (config : Config) (r : Request)
    → IsStable config r
    → IsStable config (printed digest config r)
unfolding printed new_http_request
printed-IsStable digest config r s = record {
  no_scheme = s.no_scheme;
  no_body = s.no_body;
  has_host = λ e. s.has_host (sym (fingerprint_host digest (fingerprinter digest config r)) ∙ e);
  other_headers = s.other_headers;
}

-- Nobody is kept waiting for the fingerprint.
abbrev pub IsReleased : {D S : Type 0} → (S → Text → Option Bool) → Text → Anicetus D S → Type 0
IsReleased flag f t = (flag t.storage f ≡ none) ⊎ (flag t.storage f ≡ some true)

module _ {D S : Type 0} (digest : Text → Text) (config : Config) (detector : Detector Text D)
    (storage : GatekeeperStorage Text S) (flag : S → Text → Option Bool)
    (laws : IsStorage storage flag)
    (removes : (f : Text) (s : S) → (storage.remove f s).0 ≡ ok tt) where
  cleanup_ok :
      (r : Request) (t : Anicetus D S)
      → (cleanup (print digest config) detector storage r t).0 ≡ ok tt
  unfolding cleanup Gatekeeper.remove
  cleanup_ok r t = ground (arith, removes (print digest config r) t.storage)

  cleaned :
      (r : Request) (t : Anicetus D S) (f : Text)
      → print digest config r ≡ f
      → IsReleased flag f (cleanup (print digest config) detector storage r t).1
  cleaned r t f p =
      subst (λ f. IsReleased flag f (cleanup (print digest config) detector storage r t).1) p
        (inl (
          held-cleanup text_discrete (print digest config) detector storage flag laws r t
            (cleanup_ok r t)))

  module _ {B : Type 0} where
    settle_err :
        (e : Error) (y : Exchange D S B) (f : Text) (out : Result (Unit {0}) × Exchange D S B)
        → out ≡ (err e, y)
        → print digest config y.request ≡ f
        → IsReleased flag f (settle digest config detector storage out).service
    settle_err e y f out p q =
        subst⁻¹ (λ out. IsReleased flag f (settle digest config detector storage out).service) p
          (cleaned y.request y.service f q)

    settle-relay :
        (response : Response) (y : Exchange D S B) (f : Text)
        (out : Result (Unit {0}) × Exchange D S B) (copied : Option Error)
        → response.copy_error ≡ copied
        → out ≡ relay response y
        → print digest config y.request ≡ f
        → flag y.service.storage f ≡ some true
        → IsReleased flag f (settle digest config detector storage out).service
    unfolding relay
    settle-relay response y f out none c p q h =
        subst⁻¹ (λ out. IsReleased flag f (settle digest config detector storage out).service) p
          (rw (c, relay) (inr h))
    settle-relay response y f out (some e) c p q h =
        settle_err (wrap "failed to copy forwarded response body" e) (relay response y).1 f out
          (p ∙ rw (c, relay) refl) q

    module _ (client : Client B) where
      handled_at :
          (x : Exchange D S B) (f : Text) (response : Response) (done : Result (Unit {0}))
          → client.new_request (redirected config.address x.request) ≡ none
          → response_of client config process (print digest config x.request) x ≡ ok response
          → print digest config (call digest config detector storage client x).request ≡ f
          → (request_done
              (print digest config)
              detector
              storage
              (call digest config detector storage client x).request
              (call digest config detector storage client x).service).0
            ≡ done
          → IsReleased flag f
              (settle digest config detector storage (
                forwarded client config process
                  (print digest config x.request)
                  (handle digest config detector storage client)
                  x)).service
      unfolding finish_leader
      handled_at x f response (err e) p q b h =
          settle_err _
            (handle digest config detector storage client response
              (call digest config detector storage client x)).1
            f _
            (forwarded_unhandled client config process (print digest config x.request)
              (handle digest config detector storage client) x response e p q h)
            (print-printed digest config (call digest config detector storage client x).request ∙ b)
      handled_at x f response (ok _) p q b h =
          settle-relay response
            (handle digest config detector storage client response
              (call digest config detector storage client x)).1
            f _ response.copy_error refl
            (forwarded_relayed client config process (print digest config x.request)
              (handle digest config detector storage client) x response p q h)
            (print-printed digest config (call digest config detector storage client x).request ∙ b)
            (subst
              (λ f.
                flag
                  (handle digest config detector storage client response
                    (call digest config detector storage client x)).1.service.storage
                  f
                ≡ some true)
              b
              (held-request_done text_discrete (print digest config) detector storage flag laws
                (call digest config detector storage client x).request
                (call digest config detector storage client x).service h))

      lead_at :
          (x : Exchange D S B) (f : Text) (refused : Option Error) (reply : Result Response)
          → client.new_request (redirected config.address x.request) ≡ refused
          → response_of client config process (print digest config x.request) x ≡ reply
          → print digest config (redirected config.address x.request) ≡ f
          → print digest config (call digest config detector storage client x).request ≡ f
          → IsReleased flag f (lead digest config detector storage client x).service
      unfolding lead
      lead_at x f (some e) reply p q a b =
          settle_err _ _ f _
            (forwarded_refused client config process (print digest config x.request) _ x e p) a
      lead_at x f none (err e) p q a b =
          settle_err _ _ f _
            (forwarded_fails client config process (print digest config x.request) _ x e p q) b
      lead_at x f none (ok response) p q a b = handled_at x f response _ p q b refl

      -- The request that leads, whose fingerprint forwarding does not change, keeps nobody waiting
      -- when it is done.
      pub lead_releases :
          (x : Exchange D S B)
          → IsStable config x.request
          → IsReleased flag
              (print digest config x.request)
              (lead digest config detector storage client x).service
      lead_releases x s =
          lead_at x (print digest config x.request) _ _ refl refl
            (print_stable config x.request _ s (redirected-IsForwarded config.address x.request)
              digest)
            (print_stable config x.request _ s
              (prepared-IsForwarded config process (print digest config x.request) x.request _)
              digest)

      -- A `GET` request that `Evaluate` answers with process, and whose fingerprint forwarding does
      -- not change, keeps nobody waiting once its handler has returned, if removing a fingerprint
      -- never fails: its fingerprint is stored as processed, or not stored any more. This holds
      -- whatever the backend does, and also where `RequestDone` or copying the response fails.
      pub leader_releases :
          (x : Exchange D S B)
          → same x.request.method (text "GET") ≡ true
          → IsStable config x.request
          → (evaluate (print digest config) detector storage x.request x.service).0
            ≡ (process, none)
          → IsReleased flag
              (print digest config x.request)
              (anicetus_handler digest config detector storage client x).service
      leader_releases x g s v =
          subst⁻¹ (λ y. IsReleased flag (print digest config x.request) y.service)
            (handler-lead digest config detector storage client x g v)
            (subst
              (λ f.
                IsReleased flag f
                  (lead digest config detector storage client
                    (asked digest config detector storage client x)).service)
              (print-printed digest config x.request)
              (lead_releases (asked digest config detector storage client x)
                (printed-IsStable digest config x.request s)))
