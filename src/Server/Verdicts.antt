-- ===== src/Server/Verdicts.antt =====
-- The code that the client of `anicetusHandler` in internal/http/handlers.go gets for each verdict.
use anicetus.Prelude.{ℕ, true, none, some, [], ◌≡◌, ◌∙◌, ap, if◌then◌else◌}
use anicetus.Errors.{ok}
use anicetus.Status
use anicetus.Gatekeeper.{GatekeeperStorage, Verdict}
use anicetus.Anicetus.{Detector, evaluate}
use anicetus.Message.{Text, text, same}
use anicetus.Server.{
  Config, Client, Exchange, answer_status, print, printed, redirected, pass, dispatch, guard,
  anicetus_handler,
}
use anicetus.Server.Forwarding.{response_of}
use anicetus.Server.Codes.{
  answered, code_of, forwarded_code, leader_done, lead_code, pass_code, write_header-code_of,
}

-- The code for a verdict, with the codes that leading and passing end with.
abbrev pub verdict_code : Verdict → ℕ → ℕ → ℕ
verdict_code (status, some e) led passed = 500
verdict_code (Status.none, none) led passed = 200
verdict_code (Status.failed, none) led passed = 500
verdict_code (Status.process, none) led passed = led
verdict_code (Status.wait, none) led passed = 503
verdict_code (Status.open_gates, none) led passed = passed

module _ {D S B : Type 0} (digest : Text → Text) (config : Config) (detector : Detector Text D)
    (storage : GatekeeperStorage Text S) (client : Client B) where
  -- `anicetusHandler` after `Evaluate`.
  abbrev pub decide : Verdict → Exchange D S B → Exchange D S B
  decide (status, error) x = elim error [
    | some e ↦ answer_status 500 x
    | none ↦ dispatch digest config detector storage client status x
  ]

  pub handler-decide :
      (x : Exchange D S B)
      → same x.request.method (text "GET") ≡ true
      → let (v, t) = evaluate (print digest config) detector storage x.request x.service in
        anicetus_handler digest config detector storage client x
        ≡ decide v (record x { service = t; request = printed digest config x.request })
  unfolding anicetus_handler guard
  handler-decide x g =
      ap
        (λ b.
          guard digest config detector storage client
            (if b then x else pass digest config detector storage client Status.none [] x))
        g

  pub decide_code :
      (v : Verdict) (x : Exchange D S B)
      → x.writer.sent ≡ none
      → let refused = client.new_request (redirected config.address x.request) in
        let reply = response_of client config v.0 (print digest config x.request) x in
        answered (decide v x)
        ≡ verdict_code v
            (forwarded_code refused reply λ _. leader_done digest config detector storage client x)
            (forwarded_code refused reply λ _. ok tt)
  unfolding dispatch
  decide_code (status, some e) x n = write_header-code_of 500 x.writer n
  decide_code (Status.none, none) x n = ap code_of n
  decide_code (Status.failed, none) x n = write_header-code_of 500 x.writer n
  decide_code (Status.process, none) x n = lead_code digest config detector storage client x n
  decide_code (Status.wait, none) x n = write_header-code_of 503 x.writer n
  decide_code (Status.open_gates, none) x n =
      pass_code digest config detector storage client Status.open_gates
        (print digest config x.request) x n

  -- The client of a GET request gets 500 if `Evaluate` fails, 503 if it answers wait, and 200 if it
  -- answers none. If it answers process or open gates, the client gets 500 where the HTTP client
  -- refuses the request, the call fails, or `RequestDone` of the leader fails, and otherwise the
  -- code of the backend, also where its body cannot be copied; all this if nothing has been sent
  -- before.
  pub get_code :
      (x : Exchange D S B)
      → same x.request.method (text "GET") ≡ true
      → x.writer.sent ≡ none
      → let (v, t) = evaluate (print digest config) detector storage x.request x.service in
        let y = record x { service = t; request = printed digest config x.request } in
        let refused = client.new_request (redirected config.address y.request) in
        let reply = response_of client config v.0 (print digest config y.request) y in
        answered (anicetus_handler digest config detector storage client x)
        ≡ verdict_code v
            (forwarded_code refused reply λ _. leader_done digest config detector storage client y)
            (forwarded_code refused reply λ _. ok tt)
  get_code x g n = ap answered (handler-decide x g) ∙ decide_code _ _ n
