-- ===== src/Server.antt =====
-- internal/http/request.go and internal/http/handlers.go: what a request does to its writer, to the
-- service and to the backend. The log is left out, and so is closing the response.
pub mod Responses
pub mod Options
pub mod Codes
pub mod Verdicts
pub mod Relaying
pub mod Sending
pub mod Calling
pub mod Forwarding
pub mod Stability
pub mod Leading
pub mod Leaders
pub mod Stranded
mod Tests
pub mod Answers
use anicetus.Prelude.{ℕ, Bool, true, false, if◌then◌else◌, Option, none, some, List, [], ◌∷◌, ◌++◌}
use anicetus.Errors.{Error, wrap, Result, ok, err, check}
use anicetus.Status.{Status, to_string}
use anicetus.Status
use anicetus.Gatekeeper.{GatekeeperStorage}
use anicetus.Anicetus.{Detector, Anicetus, evaluate, request_done, cleanup}
use anicetus.Message.{Text, text, same, Url, Body, Request, header_add, header_set}
use anicetus.Fingerprint.{
  HttpRequestField, HttpRequest, new_http_request, with_fields, with_headers, with_cookies,
  fingerprint,
}
use anicetus.Server.Options.{
  ForwardRequestOption, forward_request_with_anicetus, forward_request_with_response_handler,
  default_options, apply_options,
}
use anicetus.Server.Responses.{Writer, Response, write_header, add_lines}

-- What `Config` says of the fingerprint and of the address of the backend.
pub record Config : Type 0 where
  pub fields : List HttpRequestField
  pub headers : List Text
  pub cookies : List Text
  pub address : Url

-- The HTTP client: the error of making a request, and the call `Do` on the state of the backend,
-- which also gives what is left of the body of the request.
pub record Client (B : Type 0) : Type 0 where
  pub new_request : Request → Option Error
  pub do_request : Request → B → Result Response × Body × B

pub record Exchange (D S B : Type 0) : Type 0 where
  pub request : Request
  pub writer : Writer
  pub service : Anicetus D S
  pub backend : B

-- The request that is sent: a new one but for these fields.
unfoldable pub outgoing : Request → Request
outgoing r = record r { proto = text "HTTP/1.1"; remote_addr = [] }

abbrev pub is_none : Status → Bool
is_none Status.none = true
is_none _ = false

-- The header of the request after the lines that are added to it.
unfoldable pub marked : Status → Text → Request → Request
marked status fingerprint r =
    let forwarded = header_add r.header (text "X-Forwarded-For") r.remote_addr in
    record r {
      header =
          (if is_none status
            then forwarded
            else header_set
                (header_set forwarded (text "Anicetus-Status") (text (to_string status)))
                (text "Anicetus-Fingerprint") fingerprint);
    }

unfoldable pub redirected : Url → Request → Request
redirected address r = record r {
  url = record r.url { host = address.host; scheme = address.scheme };
}

module _ {D S B : Type 0} where
  abbrev pub answer_status : ℕ → Exchange D S B → Exchange D S B
  answer_status code x = record x { writer = write_header code x.writer }

  -- The status line, the header and the body of the response.
  unfoldable pub relay : Response → Exchange D S B → Result (Unit {0}) × Exchange D S B
  relay response x =
      let w =
        write_header response.status_code
          (record x.writer { header = add_lines response.header x.writer.header }) in
      (
        elim response.copy_error [
          | none ↦ ok tt
          | some e ↦ err (wrap "failed to copy forwarded response body" e)
        ],
        record x { writer = record w { written = w.written ++ response.body } },
      )

  -- `forwardRequest` with the options put together.
  unfoldable pub forward_request_by :
      Client B
      → Config
      → Status
      → Text
      → (Response → Exchange D S B → Result (Unit {0}) × Exchange D S B)
      → Exchange D S B
      → Result (Unit {0}) × Exchange D S B
  forward_request_by client config status fingerprint response_handler x =
      let r = redirected config.address x.request in
      elim (client.new_request r) [
        | some e ↦ (err (wrap "failed to create forwarded request" e), record x { request = r })
        | none ↦
            let r' = marked status fingerprint r in
            let (response, rest, backend) = client.do_request (outgoing r') x.backend in
            check (response, record x { request = record r' { body = rest }; backend = backend })
              (λ e y. (err (wrap "failed to execute forwarded request" e), y))
              λ response y.
                check (response_handler response y)
                  (λ e z. (err (wrap "failed to handle forwarded response" e), z))
                  λ _ z. relay response z
      ]

  abbrev pub forward_request :
      Client B
      → Config
      → List (ForwardRequestOption (Exchange D S B))
      → Exchange D S B
      → Result (Unit {0}) × Exchange D S B
  forward_request client config opt_funcs x =
      let opts = apply_options opt_funcs default_options in
      forward_request_by client config opts.status opts.fingerprint opts.response_handler x

module _ (digest : Text → Text) (config : Config) where
  abbrev pub fingerprinter : Request → HttpRequest
  fingerprinter r =
      new_http_request r
        (with_fields config.fields ∷ with_headers config.headers ∷ with_cookies config.cookies ∷ [])

  unfoldable pub print : Request → Text
  print r = (fingerprint digest (fingerprinter r)).0

  -- The request after a call of `Fingerprint` on it.
  unfoldable pub printed : Request → Request
  printed r = (fingerprint digest (fingerprinter r)).1.request

  module _ {D S B : Type 0} (detector : Detector Text D) (storage : GatekeeperStorage Text S)
      (client : Client B) where
    -- The response handler of the request that leads.
    unfoldable pub finish_leader : Response → Exchange D S B → Result (Unit {0}) × Exchange D S B
    finish_leader response x =
        let (done, service) = request_done print detector storage x.request x.service in
        (done, record x { service = service; request = printed x.request })

    unfoldable pub lead : Exchange D S B → Exchange D S B
    lead x =
        check
          (forward_request client config
            (forward_request_with_anicetus Status.process (print x.request)
              ∷ forward_request_with_response_handler finish_leader
              ∷ [])
            x)
          (λ e y. record (answer_status 500 y) {
            service = (cleanup print detector storage y.request y.service).1;
            request = printed y.request;
          })
          λ _ y. y

    unfoldable pub pass : Status → Text → Exchange D S B → Exchange D S B
    pass status fingerprint x =
        check
          (forward_request client config (forward_request_with_anicetus status fingerprint ∷ []) x)
          (λ e y. answer_status 500 y) λ _ y. y

    unfoldable pub dispatch : Status → Exchange D S B → Exchange D S B
    dispatch Status.none x = x
    dispatch Status.failed x = answer_status 500 x
    dispatch Status.process x = lead x
    dispatch Status.wait x = answer_status 503 x
    dispatch Status.open_gates x = pass Status.open_gates (print x.request) x

    -- The handler from the fingerprint on.
    unfoldable pub guard : Exchange D S B → Exchange D S B
    guard x =
        let ((status, error), service) = evaluate print detector storage x.request x.service in
        let x' = record x { service = service; request = printed x.request } in
        elim error [ some e ↦ answer_status 500 x' | none ↦ dispatch status x' ]

    unfoldable pub anicetus_handler : Exchange D S B → Exchange D S B
    anicetus_handler x =
        guard (if same x.request.method (text "GET") then x else pass Status.none [] x)
