-- ===== src/Server/Relaying.antt =====
-- What of a response of the backend reaches the client of `anicetusHandler` in internal/http.
use anicetus.Server.{
  dispatch, pass, lead, Config, Client, Exchange, relay, forward_request_by, redirected, print,
  printed, answer_status, finish_leader, anicetus_handler,
}
use mathlib.Core.Path.{subst, subst⁻¹}
use anicetus.Message.{lines, header_add, Text, text, same, Header, canonical, values, text_discrete}
use anicetus.Prelude.{
  if_pos, if_neg, true, none, some, List, [], ◌∷◌, ◌++◌, ite, ◌≡◌, ◌⊎◌, inl, inr, ◌∙◌, ap, refl,
  sym,
}
use mathlib.Core.List.{append-nil, append_assoc}
use anicetus.Errors.{Result, ok, check}
use anicetus.Status.{Status, process, open_gates}
use anicetus.Gatekeeper.{GatekeeperStorage, Verdict}
use anicetus.Anicetus.{Detector, evaluate, cleanup}
use anicetus.Server.Responses.{Response, Writer, write_header, add_lines, add_values}
use anicetus.Server.Forwarding.{called, response_of, forwarded_relayed}
use anicetus.Server.Codes.{relay_sends, leader_done}
use anicetus.Server.Verdicts.{decide, handler-decide}

-- The values of all lines with a name, in order.
abbrev pub lines_of : Text → List (Text × List Text) → List Text
lines_of name [] = []
lines_of name ((key, vs) ∷ lines) =
    ite (text_discrete (canonical name) (canonical key)) vs [] ++ lines_of name lines

ite-same : {A C : Type 0} (d : Dec A) (c : C) → ite d c c ≡ c
ite-same (yes e) c = refl
ite-same (no n) c = refl

values-add_values :
    (name key : Text) (vs : List Text) (h : Header)
    → values (add_values key vs h) (canonical name)
      ≡ values h (canonical name) ++ ite (text_discrete (canonical name) (canonical key)) vs []
unfolding add_values
values-add_values name key [] h = sym (
    ap (λ us. values h (canonical name) ++ us)
      (ite-same (text_discrete (canonical name) (canonical key)) [])
    ∙ append-nil _)
values-add_values name key (v ∷ vs) h =
    let d = text_discrete (canonical name) (canonical key) in
    values-add_values name key vs (header_add h key v)
    ∙ elim (text_discrete (canonical name) (canonical key)) [
      | yes e ↦
          ap (λ o. lines o ++ ite d vs []) (if_pos d e _ _)
          ∙ ap (λ us. (values h (canonical key) ++ (v ∷ [])) ++ us) (if_pos d e vs [])
          ∙ append_assoc (values h (canonical key)) (v ∷ []) vs
          ∙ ap (λ k. values h k ++ (v ∷ vs)) (sym e)
          ∙ ap (λ us. values h (canonical name) ++ us) (sym (if_pos d e (v ∷ vs) []))
      | no n ↦
          ap (λ o. lines o ++ ite d vs []) (if_neg d n _ _)
          ∙ ap (λ us. values h (canonical name) ++ us)
              (if_neg d n vs [] ∙ sym (if_neg d n (v ∷ vs) []))
    ]

values-add_lines :
    (name : Text) (ls : List (Text × List Text)) (h : Header)
    → values (add_lines ls h) (canonical name) ≡ values h (canonical name) ++ lines_of name ls
unfolding add_lines
values-add_lines name [] h = sym (append-nil _)
values-add_lines name ((key, vs) ∷ ls) h =
    values-add_lines name ls (add_values key vs h)
    ∙ ap (λ us. us ++ lines_of name ls) (values-add_values name key vs h)
    ∙ append_assoc (values h (canonical name)) _ (lines_of name ls)

-- The writer after the response has been copied to it.
pub record IsRelayed (response : Response) (before after : Writer) : Type 0 where
  pub sent : Header
  pub status_line : after.sent ≡ some (response.status_code, sent)
  pub header :
      (name : Text)
      → values sent (canonical name)
        ≡ values before.header (canonical name) ++ lines_of name response.header
  pub body : after.written ≡ before.written ++ response.body

module _ {D S B : Type 0} where
  relay-IsRelayed :
      (response : Response) (y : Exchange D S B)
      → y.writer.sent ≡ none
      → IsRelayed response y.writer (relay response y).1.writer
  unfolding relay write_header
  relay-IsRelayed response y e = record {
    sent = add_lines response.header y.writer.header;
    status_line = relay_sends response y e;
    header = λ name. values-add_lines name response.header y.writer.header;
    body = rw (e, relay, write_header) refl;
  }

  module _ (failing : Exchange D S B → Exchange D S B) (client : Client B) (config : Config)
      (status : Status) (f : Text)
      (handler : Response → Exchange D S B → Result (Unit {0}) × Exchange D S B)
      (keeps : (response : Response) (y : Exchange D S B)
        → (handler response y).1.writer ≡ y.writer) where
    abbrev outcome : Result (Unit {0}) × Exchange D S B → Exchange D S B
    outcome out = check out (λ e y. failing y) λ _ y. y

    outcome-relay :
        (response : Response) (y : Exchange D S B)
        → response.copy_error ≡ none
        → outcome (relay response y) ≡ (relay response y).1
    unfolding relay
    outcome-relay response y e = rw (e, relay) refl

    pub forwarded-IsRelayed :
        (x : Exchange D S B) (response : Response)
        → x.writer.sent ≡ none
        → client.new_request (redirected config.address x.request) ≡ none
        → response_of client config status f x ≡ ok response
        → (handler response (called client config status f x)).0 ≡ ok tt
        → response.copy_error ≡ none
        → IsRelayed response x.writer
            (outcome (forward_request_by client config status f handler x)).writer
    forwarded-IsRelayed x response n p q h c =
        let z = (handler response (called client config status f x)).1 in
        let same_writer = keeps response (called client config status f x) in
        subst⁻¹ (λ o. IsRelayed response x.writer o.writer)
          (ap outcome (forwarded_relayed client config status f handler x response p q h)
            ∙ outcome-relay response z c)
          (subst (λ w. IsRelayed response w (relay response z).1.writer) same_writer
            (relay-IsRelayed response z (ap (λ w. w.sent) same_writer ∙ n)))

module _ {D S B : Type 0} (digest : Text → Text) (config : Config) (detector : Detector Text D)
    (storage : GatekeeperStorage Text S) (client : Client B) where
  -- The request is passed, or leads and `RequestDone` works.
  abbrev pub IsServed : Verdict → Exchange D S B → Type 0
  IsServed v y =
      (v ≡ (open_gates, none))
      ⊎ ((v ≡ (process, none)) × (leader_done digest config detector storage client y ≡ ok tt))

  -- The client accepts the request, and the call brings the response, which can be copied.
  pub record IsAnswered (status : Status) (response : Response) (y : Exchange D S B) : Type 0 where
    pub accepted : client.new_request (redirected config.address y.request) ≡ none
    pub replied : response_of client config status (print digest config y.request) y ≡ ok response
    pub whole : response.copy_error ≡ none

  passed-IsRelayed :
      (y : Exchange D S B) (response : Response)
      → y.writer.sent ≡ none
      → IsAnswered open_gates response y
      → IsRelayed response y.writer
          (decide digest config detector storage client (open_gates, none) y).writer
  unfolding dispatch pass
  passed-IsRelayed y response n a =
      forwarded-IsRelayed (answer_status 500) client config open_gates
        (print digest config y.request) (λ _ z. (ok tt, z)) (λ _ z. refl) y response n a.accepted
        a.replied refl a.whole

  led-IsRelayed :
      (y : Exchange D S B) (response : Response)
      → y.writer.sent ≡ none
      → leader_done digest config detector storage client y ≡ ok tt
      → IsAnswered process response y
      → IsRelayed response y.writer
          (decide digest config detector storage client (process, none) y).writer
  unfolding dispatch lead finish_leader
  led-IsRelayed y response n done a =
      forwarded-IsRelayed
        (λ z. record (answer_status 500 z) {
          service = (cleanup (print digest config) detector storage z.request z.service).1;
          request = printed digest config z.request;
        })
        client config process (print digest config y.request)
        (finish_leader digest config detector storage client) (λ _ z. refl) y response n a.accepted
        a.replied done a.whole

  decide-IsRelayed :
      (v : Verdict) (y : Exchange D S B) (response : Response)
      → IsServed v y
      → y.writer.sent ≡ none
      → IsAnswered v.0 response y
      → IsRelayed response y.writer (decide digest config detector storage client v y).writer
  decide-IsRelayed v y response (inl e) n a =
      subst⁻¹
        (λ o. IsRelayed response y.writer (decide digest config detector storage client o y).writer)
        e (passed-IsRelayed y response n (subst (λ o. IsAnswered o.0 response y) e a))
  decide-IsRelayed v y response (inr (e, done)) n a =
      subst⁻¹
        (λ o. IsRelayed response y.writer (decide digest config detector storage client o y).writer)
        e (led-IsRelayed y response n done (subst (λ o. IsAnswered o.0 response y) e a))

  -- The client of a GET request to which `Evaluate` opens the gates, or which leads and whose
  -- `RequestDone` works, gets the response of the backend if the HTTP client accepts the request
  -- and the body can be copied: its code, its body after what was written before, and under each
  -- name of the header the values of all its lines in order, after those that the writer had; if
  -- nothing has been sent before.
  pub get-IsRelayed :
      (x : Exchange D S B) (response : Response)
      → same x.request.method (text "GET") ≡ true
      → x.writer.sent ≡ none
      → let (v, t) = evaluate (print digest config) detector storage x.request x.service in
        let y = record x { service = t; request = printed digest config x.request } in
        IsServed v y
        → IsAnswered v.0 response y
        → IsRelayed response x.writer
            (anicetus_handler digest config detector storage client x).writer
  get-IsRelayed x response g n served a =
      subst⁻¹ (λ o. IsRelayed response x.writer o.writer)
        (handler-decide digest config detector storage client x g)
        (decide-IsRelayed _ _ response served n a)
