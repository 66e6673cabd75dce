-- ===== src/Service/Handlers/Leader.antt =====
-- The steps of a handler that leads, beside `lead` of internal/http/handlers.go and
-- `forwardRequest` of internal/http/request.go.
use anicetus.Prelude.{ℕ, ◌≡◌, ◌∙◌, sym, refl, ap, Option, none, some}
use anicetus.Errors.{Error, Result, ok, err}
use anicetus.Status.{process}
use anicetus.Gatekeeper.{GatekeeperStorage}
use anicetus.Anicetus.{Detector, Anicetus, cleanup}
use anicetus.Detector.InMemory.{TokenBucketInMemory}
use anicetus.Rate.Float.{Float64}
use anicetus.Message.{Text, Request, text_discrete}
use anicetus.Server.{
  Config, Client, Exchange, print, printed, redirected, relay, finish_leader, lead,
}
use anicetus.Server.Responses.{Response}
use anicetus.Server.Leading.{settle, handle as hand, call}
use anicetus.Server.Leaders.{print-printed}
use anicetus.Server.Forwarding.{
  response_of, forwarded_refused, forwarded_fails, forwarded_unhandled, forwarded_relayed,
}
use anicetus.Service.Concurrent.{State}
use anicetus.Service.Concurrent.Whole.{detector_at, seen}
use anicetus.Service.Handlers.Turns.{
  called_reply, copy_reply_of, copy_reply, serving, finish, sent, after, stored_at, done_state,
  finish_unstored, finish_copied, finish_uncopied, cleaned_same, done_fails, done_works,
}
use anicetus.Service.Handlers.{leads, fails, replies, handle}

module _ {R S B : Type 0} ⦃fl : Float64 R⦄ (digest : Text → Text) (config : Config)
    (storage : GatekeeperStorage Text S) (client : Client B) (times : ℕ × ℕ × ℕ × ℕ)
    (forwarded : Text → Text) where
  abbrev detector : Detector Text (TokenBucketInMemory Text R)
  detector = detector_at text_discrete times

  abbrev led : Exchange (TokenBucketInMemory Text R) S B → Anicetus (TokenBucketInMemory Text R) S
  led x = (lead digest config detector storage client x).service

  abbrev settled :
      Result (Unit {0}) × Exchange (TokenBucketInMemory Text R) S B
      → Anicetus (TokenBucketInMemory Text R) S
  settled out = (settle digest config detector storage out).service

  abbrev sent_by : Exchange (TokenBucketInMemory Text R) S B → Request
  sent_by = sent digest config client

  lead_unstored :
      (x : Exchange (TokenBucketInMemory Text R) S B) (s : State Text R S) (f : Text)
      (response : Response) (e : Error) (u : S)
      → client.new_request (redirected config.address x.request) ≡ none
      → response_of client config process (print digest config x.request) (serving x s)
        ≡ ok response
      → print digest config (sent_by (serving x s)) ≡ forwarded f
      → stored_at storage times forwarded f s ≡ (err e, u)
      → led (serving x s)
        ≡ (cleanup
            (print digest config)
            detector
            storage
            (printed digest config (sent_by (serving x s)))
            (seen (record s { storage = u }))).1
  unfolding lead finish_leader
  lead_unstored x s f response e u p q b h =
      let done =
        done_fails digest config storage times forwarded (sent_by (serving x s)) f s e u b h in
      ap settled (
        forwarded_unhandled client config process (print digest config x.request)
          (hand digest config detector storage client) (serving x s) response _ p q
          (ap (λ d. d.0) done))
      ∙ ap
          (λ d.
            (cleanup (print digest config) detector storage
              (printed digest config (sent_by (serving x s))) d.1).1)
          done

  settled-relay_copied :
      (response : Response) (y : Exchange (TokenBucketInMemory Text R) S B)
      → response.copy_error ≡ none
      → settled (relay response y) ≡ y.service
  unfolding relay
  settled-relay_copied response y e = rw (e, relay) refl

  settled-relay_uncopied :
      (response : Response) (y : Exchange (TokenBucketInMemory Text R) S B) (e : Error)
      → response.copy_error ≡ some e
      → settled (relay response y)
        ≡ (cleanup (print digest config) detector storage y.request y.service).1
  unfolding relay
  settled-relay_uncopied response y e p = rw (p, relay) refl

  lead_stored :
      (x : Exchange (TokenBucketInMemory Text R) S B) (s : State Text R S) (f : Text)
      (response : Response) (u : S)
      → client.new_request (redirected config.address x.request) ≡ none
      → response_of client config process (print digest config x.request) (serving x s)
        ≡ ok response
      → print digest config (sent_by (serving x s)) ≡ forwarded f
      → stored_at storage times forwarded f s ≡ (ok tt, u)
      → led (serving x s)
        ≡ settled (
            relay response (record (call digest config detector storage client (serving x s)) {
              service = seen (done_state storage times forwarded f s u);
              request = printed digest config (sent_by (serving x s));
            }))
  unfolding lead finish_leader
  lead_stored x s f response u p q b h =
      let done =
        done_works digest config storage times forwarded (sent_by (serving x s)) f s u b h in
      ap settled (
        forwarded_relayed client config process (print digest config x.request)
          (hand digest config detector storage client) (serving x s) response p q
          (ap (λ d. d.0) done))
      ∙ ap
          (λ d. settled (
            relay response (record (call digest config detector storage client (serving x s)) {
              service = d.1;
              request = printed digest config (sent_by (serving x s));
            })))
          done

  lead_copied :
      (x : Exchange (TokenBucketInMemory Text R) S B) (s : State Text R S) (f : Text)
      (response : Response) (u : S) (copied : Option Error)
      → client.new_request (redirected config.address x.request) ≡ none
      → response_of client config process (print digest config x.request) (serving x s)
        ≡ ok response
      → print digest config (sent_by (serving x s)) ≡ forwarded f
      → stored_at storage times forwarded f s ≡ (ok tt, u)
      → response.copy_error ≡ copied
      → seen
          (finish storage times forwarded
            (replies response.status_code)
            (copy_reply (ok response))
            f
            (leads, s)).1
        ≡ led (serving x s)
  lead_copied x s f response u none p q b h c =
      ap
        (λ k.
          seen
            (finish storage times forwarded (replies response.status_code)
              (copy_reply_of response.status_code k) f (leads, s)).1)
        c
      ∙ ap (λ o. seen o.1)
          (finish_copied storage times forwarded f s response.status_code response.status_code u h)
      ∙ sym (lead_stored x s f response u p q b h ∙ settled-relay_copied response _ c)
  lead_copied x s f response u (some e) p q b h c =
      ap
        (λ k.
          seen
            (finish storage times forwarded (replies response.status_code)
              (copy_reply_of response.status_code k) f (leads, s)).1)
        c
      ∙ ap (λ o. seen o.1) (finish_uncopied storage times forwarded f s response.status_code u h)
      ∙ cleaned_same digest config storage times forwarded
          (printed digest config (sent_by (serving x s))) f response.status_code
          (done_state storage times forwarded f s u) fails
          (print-printed digest config (sent_by (serving x s)) ∙ b)
      ∙ sym (lead_stored x s f response u p q b h ∙ settled-relay_uncopied response _ e c)

  pub lead_same :
      (x : Exchange (TokenBucketInMemory Text R) S B) (s : State Text R S) (f : Text)
      (refused : Option Error) (reply : Result Response) (stored : Result (Unit {0}) × S)
      → client.new_request (redirected config.address x.request) ≡ refused
      → response_of client config process (print digest config x.request) (serving x s) ≡ reply
      → stored_at storage times forwarded f s ≡ stored
      → print digest config (after digest config client refused (serving x s)) ≡ forwarded f
      → seen
          (finish storage times forwarded
            (called_reply refused reply)
            (copy_reply reply)
            f
            (leads, s)).1
        ≡ led (serving x s)
  unfolding lead handle
  lead_same x s f (some e) reply stored p q h b =
      cleaned_same digest config storage times forwarded (redirected config.address x.request) f 500
        s (copy_reply reply) b
      ∙ sym (
          ap settled (
            forwarded_refused client config process (print digest config x.request) _ (serving x s)
              e p))
  lead_same x s f none (err e) stored p q h b =
      cleaned_same digest config storage times forwarded (sent_by (serving x s)) f 500 s fails b
      ∙ sym (
          ap settled (
            forwarded_fails client config process (print digest config x.request) _ (serving x s) e
              p q))
  lead_same x s f none (ok response) (err e, u) p q h b =
      ap (λ o. seen o.1)
        (finish_unstored storage times forwarded f s response.status_code (copy_reply (ok response))
          e u h)
      ∙ cleaned_same digest config storage times forwarded
          (printed digest config (sent_by (serving x s))) f 500 (record s { storage = u })
          (copy_reply (ok response)) (print-printed digest config (sent_by (serving x s)) ∙ b)
      ∙ sym (lead_unstored x s f response e u p q b h)
  lead_same x s f none (ok response) (ok _, u) p q h b =
      lead_copied x s f response u response.copy_error p q b h refl
