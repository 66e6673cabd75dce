-- ===== src/Server/Codes.antt =====
-- The status codes that `anicetusHandler` and `forwardRequest` of internal/http answer with.
use anicetus.Prelude.{ℕ, Option, none, some, ◌≡◌, ◌∙◌, ap, refl}
use anicetus.Errors.{Error, Result, ok, err, check}
use anicetus.Status.{Status, process}
use anicetus.Gatekeeper.{GatekeeperStorage}
use anicetus.Anicetus.{Detector, request_done, cleanup}
use anicetus.Message.{Text, Header}
use anicetus.Server.Responses.{Response, Writer, write_header, add_lines}
use anicetus.Server.{
  Config, Client, Exchange, answer_status, print, printed, finish_leader, lead, pass, relay,
  forward_request_by, redirected,
}
use anicetus.Server.Forwarding.{
  called, response_of, forwarded_refused, forwarded_fails, forwarded_unhandled, forwarded_relayed,
}

-- Without a status line `net/http` sends 200.
abbrev pub code_of : Option (ℕ × Header) → ℕ
code_of none = 200
code_of (some (code, header)) = code

-- The code after the response has been handled.
abbrev pub handled_code : ℕ → Result (Unit {0}) → ℕ
handled_code code (ok _) = code
handled_code code (err e) = 500

abbrev pub forwarded_code : Option Error → Result Response → (Response → Result (Unit {0})) → ℕ
forwarded_code (some e) reply handled = 500
forwarded_code none (err e) handled = 500
forwarded_code none (ok response) handled = handled_code response.status_code (handled response)

pub write_header-code_of :
    (code : ℕ) (w : Writer) → w.sent ≡ none → code_of (write_header code w).sent ≡ code
unfolding write_header
write_header-code_of code w e = rw (e, write_header) refl

write_header_again :
    (code : ℕ) (w : Writer) (first : ℕ × Header)
    → w.sent ≡ some first
    → code_of (write_header code w).sent ≡ first.0
unfolding write_header
write_header_again code w first e = rw (e, write_header) (ap code_of e)

module _ {D S B : Type 0} where
  pub relay_sends :
      (response : Response) (y : Exchange D S B)
      → y.writer.sent ≡ none
      → (relay response y).1.writer.sent
        ≡ some (response.status_code, add_lines response.header y.writer.header)
  unfolding relay write_header
  relay_sends response y e = rw (e, relay, write_header) refl

  abbrev pub answered : Exchange D S B → ℕ
  answered x = code_of x.writer.sent

  -- What `anicetusHandler` does when forwarding fails.
  module _ (failing : Exchange D S B → Exchange D S B)
      (writes : (y : Exchange D S B) → (failing y).writer ≡ write_header 500 y.writer) where
    abbrev outcome : Result (Unit {0}) × Exchange D S B → Exchange D S B
    outcome out = check out (λ e y. failing y) λ _ y. y

    answered_failing : (y : Exchange D S B) → y.writer.sent ≡ none → answered (failing y) ≡ 500
    answered_failing y e = ap (λ w. code_of w.sent) (writes y) ∙ write_header-code_of 500 y.writer e

    answered_relayed :
        (response : Response) (y : Exchange D S B) (copied : Option Error)
        → response.copy_error ≡ copied
        → y.writer.sent ≡ none
        → answered (outcome (relay response y)) ≡ response.status_code
    unfolding relay
    answered_relayed response y none c e = rw (c, relay) (ap code_of (relay_sends response y e))
    answered_relayed response y (some error) c e =
        rw (c, relay)
          (ap (λ w. code_of w.sent) (writes (relay response y).1)
            ∙ write_header_again 500 (relay response y).1.writer _ (relay_sends response y e))

    module _ (client : Client B) (config : Config) (status : Status) (f : Text)
        (handler : Response → Exchange D S B → Result (Unit {0}) × Exchange D S B)
        (keeps : (response : Response) (y : Exchange D S B)
          → (handler response y).1.writer ≡ y.writer) where
      abbrev handled : Exchange D S B → Response → Result (Unit {0})
      handled x response = (handler response (called client config status f x)).0

      answered-handled :
          (x : Exchange D S B) (response : Response) (done : Result (Unit {0}))
          → x.writer.sent ≡ none
          → client.new_request (redirected config.address x.request) ≡ none
          → response_of client config status f x ≡ ok response
          → handled x response ≡ done
          → answered (outcome (forward_request_by client config status f handler x))
            ≡ handled_code response.status_code done
      answered-handled x response (ok _) e p q h =
          ap (λ o. answered (outcome o))
            (forwarded_relayed client config status f handler x response p q h)
          ∙ answered_relayed response _ _ refl (ap (λ w. w.sent) (keeps response _) ∙ e)
      answered-handled x response (err error) e p q h =
          ap (λ o. answered (outcome o))
            (forwarded_unhandled client config status f handler x response error p q h)
          ∙ answered_failing _ (ap (λ w. w.sent) (keeps response _) ∙ e)

      pub answered_forwarded :
          (x : Exchange D S B) (refused : Option Error) (reply : Result Response)
          → x.writer.sent ≡ none
          → client.new_request (redirected config.address x.request) ≡ refused
          → response_of client config status f x ≡ reply
          → answered (outcome (forward_request_by client config status f handler x))
            ≡ forwarded_code refused reply (handled x)
      answered_forwarded x (some error) reply e p q =
          ap (λ o. answered (outcome o))
            (forwarded_refused client config status f handler x error p)
          ∙ answered_failing _ e
      answered_forwarded x none (err error) e p q =
          ap (λ o. answered (outcome o))
            (forwarded_fails client config status f handler x error p q)
          ∙ answered_failing _ e
      answered_forwarded x none (ok response) e p q = answered-handled x response _ e p q refl

module _ {D S B : Type 0} (digest : Text → Text) (config : Config) (detector : Detector Text D)
    (storage : GatekeeperStorage Text S) (client : Client B) where
  -- The error of `RequestDone` in the response handler of a leader.
  abbrev pub leader_done : Exchange D S B → Result (Unit {0})
  leader_done x =
      let y = called client config process (print digest config x.request) x in
      (request_done (print digest config) detector storage y.request y.service).0

  pub lead_code :
      (x : Exchange D S B)
      → x.writer.sent ≡ none
      → answered (lead digest config detector storage client x)
        ≡ forwarded_code
            (client.new_request (redirected config.address x.request))
            (response_of client config process (print digest config x.request) x)
            (λ _. leader_done x)
  unfolding lead finish_leader
  lead_code x e =
      answered_forwarded
        (λ y. record (answer_status 500 y) {
          service = (cleanup (print digest config) detector storage y.request y.service).1;
          request = printed digest config y.request;
        })
        (λ y. refl) client config process (print digest config x.request)
        (finish_leader digest config detector storage client) (λ response y. refl) x _ _ e refl refl

  pub pass_code :
      (status : Status) (f : Text) (x : Exchange D S B)
      → x.writer.sent ≡ none
      → answered (pass digest config detector storage client status f x)
        ≡ forwarded_code
            (client.new_request (redirected config.address x.request))
            (response_of client config status f x)
            (λ _. ok tt)
  unfolding pass
  pass_code status f x e =
      answered_forwarded (answer_status 500) (λ y. refl) client config status f (λ _ y. (ok tt, y))
        (λ response y. refl) x _ _ e refl refl
