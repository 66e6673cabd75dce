-- ===== src/Detector/Redis/Done.antt =====
-- What `CoolDown` of detector/redigo/tokenbucket_redis.go returns, and what
-- internal/http/handlers.go makes of it.
use anicetus.Prelude.{◌≡◌, ◌∙◌, ◌⊎◌, refl, ap, true, Option, none, some, arith, ℕ, inl, inr}
use anicetus.Prelude.Int.{ℤ}
use anicetus.Errors.{Error, Result, ok, err, wrap}
use anicetus.Status.{process}
use anicetus.Gatekeeper
use anicetus.Gatekeeper.{GatekeeperStorage}
use anicetus.Anicetus.{Anicetus, Detector, evaluate, request_done}
use anicetus.Message.{Text, Request, same, text}
use anicetus.Rate.Float.{Float64, seconds}
use anicetus.Server.Responses.{Response, write_header}
use anicetus.Server.{
  Config, Client, Exchange, print, redirected, lead, finish_leader, anicetus_handler,
}
use anicetus.Server.Forwarding.{
  response_of, forwarded_refused, forwarded_fails, forwarded_unhandled,
}
use anicetus.Server.Leading.{settle, call, asked, handle, handler-lead}
use anicetus.Detector.Redis.Connection.{Commands, Redigo, Reply, status, failure}
use anicetus.Detector.Redis.Client.{
  TokenBucketRedis, redis_cool_down, redis_detector, add_key_prefix, cooldown,
}
use Prim.Native.String.{String}

abbrev pub Fails : {A S : Type 0} → Result A × S → Type 0
Fails r = (e : Error) × (r.0 ≡ err e)

-- What Redis documents of `SET`, and redigo of `redis.Int`: the reply to `SET` is a status or an
-- error, and neither of them is an integer.
pub record IsSetReply {W R : Type 0} (redis : Commands W R) (redigo : Redigo W) : Type 0 where
  pub set_replies :
      (key : Text) (value : ℕ) (lifetime : R) (w : W)
      → let reply = (redis.set_ex key value lifetime w).0 in
        (reply ≡ status "OK") ⊎ ((e : Error) × (reply ≡ failure e))
  pub int_status : (s : String) → (e : Error) × (redigo.to_int (status s) ≡ err e)
  pub int_failure : (e : Error) → redigo.to_int (failure e) ≡ err e

module _ {W R : Type 0} ⦃fl : Float64 R⦄ (redis : Commands W R) (redigo : Redigo W) (ceil : R → ℤ)
    (t : TokenBucketRedis) (documented : IsSetReply redis redigo) where
  to_int_fails :
      (reply : Reply)
      → (reply ≡ status "OK") ⊎ ((e : Error) × (reply ≡ failure e))
      → (e : Error) × (redigo.to_int reply ≡ err e)
  to_int_fails reply (inl p) = rw p (documented.int_status "OK")
  to_int_fails reply (inr (e, p)) = (e, ap redigo.to_int p ∙ documented.int_failure e)

  set_reply : Text → W → Reply
  set_reply f w = (redis.set_ex (add_key_prefix f cooldown) 1 (seconds t.cool_down_interval) w).0

  cool_down_at :
      (f : Text) (w : W) (connection : Result (Unit {0})) (cause : Error)
      → (redigo.get_context w).0 ≡ connection
      → redigo.to_int (set_reply f (redigo.get_context w).1) ≡ err cause
      → Fails (redis_cool_down redis redigo ceil t f w)
  unfolding redis_cool_down set_reply
  cool_down_at f w (ok _) cause p q = (wrap "failed to set redis key" cause, ground arith)
  cool_down_at f w (err e) cause p q = (wrap "failed to get redis connection" e, ground arith)

  -- `CoolDown` never succeeds.
  redis_cool_down-Fails : (f : Text) (w : W) → Fails (redis_cool_down redis redigo ceil t f w)
  unfolding set_reply
  redis_cool_down-Fails f w =
      let w1 = (redigo.get_context w).1 in
      let (cause, p) =
        to_int_fails (set_reply f w1) (
          documented.set_replies (add_key_prefix f cooldown) 1 (seconds t.cool_down_interval) w1) in
      cool_down_at f w _ cause refl p

  module _ {Q S : Type 0} (print : Q → Text) (storage : GatekeeperStorage Text S) where
    request_done_at :
        (q : Q) (a : Anicetus W S) (stored : Result (Unit {0})) (cause : Error)
        → (Gatekeeper.store storage (print q) true a.storage).0 ≡ stored
        → (redis_cool_down redis redigo ceil t (print q) a.detector).0 ≡ err cause
        → Fails (request_done print (redis_detector redis redigo ceil t) storage q a)
    unfolding request_done
    request_done_at q a (ok _) cause p h =
        (wrap "failed to cooldown fingerprint" cause, ground arith)
    request_done_at q a (err e) cause p h = (wrap "failed to store fingerprint" e, ground arith)

    -- With the detector in Redis `RequestDone` never succeeds.
    request_done-Fails :
        (q : Q) (a : Anicetus W S)
        → Fails (request_done print (redis_detector redis redigo ceil t) storage q a)
    request_done-Fails q a =
        let (cause, h) = redis_cool_down-Fails (print q) a.detector in
        request_done_at q a _ cause refl h

-- A leader whose `RequestDone` fails.
module _ {D S B : Type 0} (digest : Text → Text) (config : Config) (detector : Detector Text D)
    (storage : GatekeeperStorage Text S) (client : Client B)
    (undone : (q : Request) (a : Anicetus D S)
      → Fails (request_done (print digest config) detector storage q a)) where
  settle_writer :
      (e : Error) (y : Exchange D S B) (out : Result (Unit {0}) × Exchange D S B)
      → out ≡ (err e, y)
      → (settle digest config detector storage out).writer ≡ write_header 500 y.writer
  settle_writer e y out p = rw p refl

  lead_answers_at :
      (x : Exchange D S B) (refused : Option Error) (reply : Result Response)
      → client.new_request (redirected config.address x.request) ≡ refused
      → response_of client config process (print digest config x.request) x ≡ reply
      → (lead digest config detector storage client x).writer ≡ write_header 500 x.writer
  unfolding lead finish_leader
  lead_answers_at x (some e) reply p q =
      settle_writer _ _ _
        (forwarded_refused client config process (print digest config x.request) _ x e p)
  lead_answers_at x none (err e) p q =
      settle_writer _ _ _
        (forwarded_fails client config process (print digest config x.request) _ x e p q)
  lead_answers_at x none (ok response) p q =
      let y = call digest config detector storage client x in
      let (cause, h) = undone y.request y.service in
      settle_writer _ _ _ (
        forwarded_unhandled client config process (print digest config x.request)
          (handle digest config detector storage client) x response cause p q h)

  leader_fails :
      (x : Exchange D S B)
      → same x.request.method (text "GET") ≡ true
      → (evaluate (print digest config) detector storage x.request x.service).0 ≡ (process, none)
      → (anicetus_handler digest config detector storage client x).writer
        ≡ write_header 500 x.writer
  leader_fails x g v =
      ap (λ y. y.writer) (handler-lead digest config detector storage client x g v)
      ∙ lead_answers_at (asked digest config detector storage client x) _ _ refl refl

-- With the detector in Redis every `GET` request that leads a herd is answered 500, also where the
-- backend has answered it: Redis replies to `SET` with a status or an error, which `CoolDown` reads
-- as an integer, so that it fails and `RequestDone` with it.
pub redis_leader_fails :
    {W R S B : Type 0} ⦃fl : Float64 R⦄ (redis : Commands W R) (redigo : Redigo W) (ceil : R → ℤ)
    (t : TokenBucketRedis) (documented : IsSetReply redis redigo) (digest : Text → Text)
    (config : Config) (storage : GatekeeperStorage Text S) (client : Client B) (x : Exchange W S B)
    → let detector = redis_detector redis redigo ceil t in
      same x.request.method (text "GET") ≡ true
      → (evaluate (print digest config) detector storage x.request x.service).0 ≡ (process, none)
      → (anicetus_handler digest config detector storage client x).writer
        ≡ write_header 500 x.writer
redis_leader_fails redis redigo ceil t documented digest config storage client x =
    leader_fails digest config (redis_detector redis redigo ceil t) storage client
      (request_done-Fails redis redigo ceil t documented (print digest config) storage) x
