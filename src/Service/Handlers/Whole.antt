-- ===== src/Service/Handlers/Whole.antt =====
-- A handler that nothing interrupts, beside `anicetusHandler` of internal/http/handlers.go.
use anicetus.Prelude.{ℕ, ◌≡◌, ◌∙◌, sym, refl, ap, true, Option, none, some}
use anicetus.Errors.{Error, Result, ok, err, check}
use anicetus.Status
use anicetus.Status.{process}
use anicetus.Gatekeeper.{GatekeeperStorage, Verdict}
use anicetus.Anicetus.{Detector, Anicetus, evaluate}
use anicetus.Detector.InMemory.{TokenBucketInMemory}
use anicetus.Rate.Float.{Float64}
use anicetus.Message.{Text, Request, text, same, text_discrete}
use anicetus.Server.{
  forward_request_by, Config, Client, Exchange, answer_status, print, printed, redirected, relay,
  pass, dispatch, anicetus_handler,
}
use anicetus.Server.Responses.{Response}
use anicetus.Server.Forwarding.{response_of, forwarded_refused, forwarded_fails, forwarded_relayed}
use anicetus.Service.Concurrent
use anicetus.Service.Concurrent.{State, ends}
use anicetus.Service.Concurrent.Whole.{
  detector_at, seen, Refined, uninterrupted, uninterrupted_refines,
}
use anicetus.Detector.Shared.View.{IsSound}
use anicetus.Service.Handlers.Turns.{
  called_reply, copy_reply, serving, finish, finish_passes, after,
}
use anicetus.Server.Codes.{answered, forwarded_code, leader_done}
use anicetus.Server.Verdicts.{verdict_code, decide, handler-decide, decide_code}
use anicetus.Service.Handlers.Coded.{leads_code, passes_code}
use mathlib.Core.Path.{subst⁻¹}
use anicetus.Service.Handlers.Leader.{lead_same}
use anicetus.Service.Handlers.{Phase, over, Reply, decided, evaluated, handle}

module _ {R S B : Type 0} ⦃fl : Float64 R⦄ (digest : Text → Text) (config : Config)
    (storage : GatekeeperStorage Text S) (client : Client B) (times : ℕ × ℕ × ℕ × ℕ)
    (forwarded : Text → Text) where
  abbrev detector : Detector Text (TokenBucketInMemory Text R)
  detector = detector_at text_discrete times

  kept_by_check :
      (out : Result (Unit {0}) × Exchange (TokenBucketInMemory Text R) S B)
      → Exchange.service (check out (λ e y. answer_status 500 y) λ _ y. y) ≡ out.1.service
  kept_by_check (ok _, y) = refl
  kept_by_check (err e, y) = refl

  pass_keeps_at :
      (x : Exchange (TokenBucketInMemory Text R) S B) (f : Text) (refused : Option Error)
      (reply : Result Response)
      → client.new_request (redirected config.address x.request) ≡ refused
      → response_of client config Status.open_gates f x ≡ reply
      → (forward_request_by client config Status.open_gates f (λ _ y. (ok tt, y)) x).1.service
        ≡ x.service
  unfolding relay
  pass_keeps_at x f (some e) reply p q =
      ap (λ o. o.1.service) (forwarded_refused client config Status.open_gates f _ x e p)
  pass_keeps_at x f none (err e) p q =
      ap (λ o. o.1.service) (forwarded_fails client config Status.open_gates f _ x e p q)
  pass_keeps_at x f none (ok response) p q =
      ap (λ o. o.1.service)
        (forwarded_relayed client config Status.open_gates f (λ _ y. (ok tt, y)) x response p q
          refl)

  pass_keeps :
      (x : Exchange (TokenBucketInMemory Text R) S B) (f : Text)
      → (pass digest config detector storage client Status.open_gates f x).service ≡ x.service
  unfolding pass
  pass_keeps x f = kept_by_check _ ∙ pass_keeps_at x f _ _ refl refl

  decide_same :
      (v : Verdict) (x : Exchange (TokenBucketInMemory Text R) S B) (s : State Text R S) (f : Text)
      → let refused = client.new_request (redirected config.address x.request) in
        let reply = response_of client config v.0 (print digest config x.request) (serving x s) in
        print digest config (after digest config client refused (serving x s)) ≡ forwarded f
        → seen
            (finish storage times forwarded
              (called_reply refused reply)
              (copy_reply reply)
              f
              (decided v, s)).1
          ≡ (decide digest config detector storage client v (serving x s)).service
  unfolding decided handle dispatch
  decide_same (status, some e) x s f b = refl
  decide_same (Status.none, none) x s f b = refl
  decide_same (Status.failed, none) x s f b = refl
  decide_same (Status.process, none) x s f b =
      lead_same digest config storage client times forwarded x s f _ _ _ refl refl refl b
  decide_same (Status.wait, none) x s f b = refl
  decide_same (Status.open_gates, none) x s f b =
      ap seen (finish_passes storage times forwarded _ _ f s)
      ∙ sym (pass_keeps (serving x s) (print digest config x.request))

  decided_code :
      (v : Verdict) (x : Exchange (TokenBucketInMemory Text R) S B) (s : State Text R S) (f : Text)
      → let refused = client.new_request (redirected config.address x.request) in
        let reply = response_of client config v.0 (print digest config x.request) (serving x s) in
        print digest config (after digest config client refused (serving x s)) ≡ forwarded f
        → (finish storage times forwarded
            (called_reply refused reply)
            (copy_reply reply)
            f
            (decided v, s)).0
          ≡ over (
              verdict_code v
                (forwarded_code refused reply
                  λ _. leader_done digest config detector storage client (serving x s))
                (forwarded_code refused reply λ _. ok tt))
  unfolding decided handle
  decided_code (status, some e) x s f b = refl
  decided_code (Status.none, none) x s f b = refl
  decided_code (Status.failed, none) x s f b = refl
  decided_code (Status.process, none) x s f b =
      leads_code digest config storage client times forwarded x s f _ _ _ refl b
  decided_code (Status.wait, none) x s f b = refl
  decided_code (Status.open_gates, none) x s f b =
      passes_code digest config storage client times forwarded s f _ _

  after_same :
      (refused : Option Error) (x : Exchange (TokenBucketInMemory Text R) S B) (s : State Text R S)
      → after digest config client refused (serving x s) ≡ after digest config client refused x
  after_same none x s = refl
  after_same (some e) x s = refl

  evaluate_printed :
      (r : Request) (t : Anicetus (TokenBucketInMemory Text R) S)
      → evaluate (print digest config) detector storage r t
        ≡ evaluate (λ (k : Text). k) detector storage (print digest config r) t
  unfolding evaluate
  evaluate_printed r t = refl

  -- The steps of a handler in turn: the parts of `Evaluate`, and what comes after.
  abbrev pub uninterrupted_handler :
      Text → Reply → Reply → State Text R S → Phase Text × State Text R S
  uninterrupted_handler f reply copied s =
      let (phase, s') = uninterrupted text_discrete storage f times s in
      finish storage times forwarded reply copied f (evaluated phase, s')

  -- The phase and the state that a handler ends with, beside what `anicetusHandler` leaves.
  abbrev pub Ends : Phase Text × State Text R S → Exchange (TokenBucketInMemory Text R) S B → Type 0
  Ends out x = (out.0 ≡ over (answered x)) × (seen out.1 ≡ x.service)

  -- The steps of the handler of a GET request that nothing interrupts end with the code that
  -- `anicetusHandler` answers, and leave the service, its flags, cooldowns and limiters, as it
  -- does, whatever the storage does, the client refuses and the backend answers, if nothing has
  -- been sent yet, the limiters are sound, both read the clock alike in `Evaluate` and set the
  -- cooldown at the first of these readings, and `forwarded` gives for the fingerprint of the
  -- request the one that it has after it has been sent or refused.
  pub handler_refines :
      (x : Exchange (TokenBucketInMemory Text R) S B) (s : State Text R S)
      → same x.request.method (text "GET") ≡ true
      → x.writer.sent ≡ none
      → IsSound s.limiters
      → let f = print digest config x.request in
        let y = record (serving x s) { request = printed digest config x.request } in
        let v = (evaluate (print digest config) detector storage x.request (seen s)).0 in
        let refused = client.new_request (redirected config.address y.request) in
        let reply = response_of client config v.0 (print digest config y.request) y in
        print digest config (after digest config client refused y) ≡ forwarded f
        → Ends
            (uninterrupted_handler f (called_reply refused reply) (copy_reply reply) s)
            (anicetus_handler digest config detector storage client (serving x s))
  handler_refines x s g n sound b =
      let f = print digest config x.request in
      let y : Exchange (TokenBucketInMemory Text R) S B = record (serving x s) {
        request = printed digest config x.request;
      } in
      let (answers, left, _) =
        subst⁻¹ (λ o. Refined (uninterrupted text_discrete storage f times s) o)
          (evaluate_printed x.request (seen s))
          (uninterrupted_refines text_discrete storage f times s sound) in
      let s' = (uninterrupted text_discrete storage f times s).1 in
      let v = (evaluate (print digest config) detector storage x.request (seen s)).0 in
      let refused = client.new_request (redirected config.address y.request) in
      let reply = response_of client config v.0 (print digest config y.request) y in
      let b' = ap (print digest config) (after_same refused y s') ∙ b in
      let go = λ (p : Concurrent.Phase Text).
        finish storage times forwarded (called_reply refused reply) (copy_reply reply) f
          (evaluated p, s') in
      let handler =
        ap (λ u. decide digest config detector storage client v (record y { service = u })) left
        ∙ sym (handler-decide digest config detector storage client (serving x s) g) in
      (
        ap (λ p. (go p).0) answers
            ∙ decided_code v y s' f b'
            ∙ ap over (sym (decide_code digest config detector storage client v (serving y s') n))
            ∙ ap (λ o. over (answered o)) handler,
        ap (λ p. seen (go p).1) answers ∙ decide_same v y s' f b' ∙ ap (λ o. o.service) handler,
      )
