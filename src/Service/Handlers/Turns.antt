-- ===== src/Service/Handlers/Turns.antt =====
-- The steps of a handler in turn, beside `RequestDone` and `Cleanup` of anicetus.go.
use anicetus.Prelude.{ℕ, ◌≡◌, ◌∙◌, sym, refl, ap, true, Option, none, some}
use anicetus.Errors.{Error, Result, ok, err, wrap}
use anicetus.Status.{process}
use anicetus.Gatekeeper
use anicetus.Gatekeeper.{GatekeeperStorage, Verdict}
use Prim.Native.String.{String}
use anicetus.Anicetus.{wrapping, Detector, request_done, cleanup}
use anicetus.Detector.InMemory.{TokenBucketInMemory, cool_down}
use anicetus.Mapexp.Map
use anicetus.Rate.Float.{Float64}
use anicetus.Message.{Text, Request, text_discrete}
use anicetus.Server.{Config, Client, Exchange, print, redirected}
use anicetus.Server.Responses.{Response}
use anicetus.Server.Forwarding.{called}
use anicetus.Service.Concurrent.{State}
use anicetus.Service.Concurrent.Whole.{detector_at, seen}
use anicetus.Service.Handlers.{Phase, leads, passes, cleans, over, Reply, fails, replies, handle}

-- What comes of the call of the backend, and of the body of its response.
abbrev pub called_reply : Option Error → Result Response → Reply
called_reply (some e) response = fails
called_reply none (err e) = fails
called_reply none (ok response) = replies response.status_code

abbrev pub copy_reply_of : ℕ → Option Error → Reply
copy_reply_of code none = replies code
copy_reply_of code (some e) = fails

abbrev pub copy_reply : Result Response → Reply
copy_reply (err e) = fails
copy_reply (ok response) = copy_reply_of response.status_code response.copy_error

kept : {S : Type 0} (message : String) (m : Result (Unit {0}) × S) → (wrapping message m).1 ≡ m.1
kept message (ok _, s) = refl
kept message (err e, s) = refl

abbrev pub serving :
    {R S B : Type 0}
    → Exchange (TokenBucketInMemory Text R) S B
    → State Text R S
    → Exchange (TokenBucketInMemory Text R) S B
serving x s = record x { service = seen s }

module _ {R S : Type 0} ⦃fl : Float64 R⦄ (storage : GatekeeperStorage Text S)
    (times : ℕ × ℕ × ℕ × ℕ) (forwarded : Text → Text) where
  abbrev pub go : Reply → Text → Phase Text × State Text R S → Phase Text × State Text R S
  go reply f (phase, s) = handle text_discrete storage forwarded times.0 reply f phase s

  -- The steps of a handler after `Evaluate`, in turn.
  abbrev pub finish :
      Reply → Reply → Text → Phase Text × State Text R S → Phase Text × State Text R S
  finish reply copied f out = go copied f (go copied f (go copied f (go copied f (go reply f out))))

  abbrev pub stored_at : Text → State Text R S → Result (Unit {0}) × S
  stored_at f s = Gatekeeper.store storage (forwarded f) true s.storage

  abbrev pub done_state : Text → State Text R S → S → State Text R S
  done_state f s u = record s {
    storage = u;
    cooldowns = Map.set text_discrete times.0 (forwarded f) true s.cooldowns;
  }

  pub finish_unstored :
      (f : Text) (s : State Text R S) (code : ℕ) (copied : Reply) (e : Error) (u : S)
      → stored_at f s ≡ (err e, u)
      → finish (replies code) copied f (leads, s)
        ≡ go copied f (cleans 500, record s { storage = u })
  unfolding handle
  finish_unstored f s code copied e u h = rw (h, handle) refl

  pub finish_copied :
      (f : Text) (s : State Text R S) (code n : ℕ) (u : S)
      → stored_at f s ≡ (ok tt, u)
      → finish (replies code) (replies n) f (leads, s) ≡ (over code, done_state f s u)
  unfolding handle
  finish_copied f s code n u h = rw (h, handle) refl

  pub finish_uncopied :
      (f : Text) (s : State Text R S) (code : ℕ) (u : S)
      → stored_at f s ≡ (ok tt, u)
      → finish (replies code) fails f (leads, s) ≡ go fails f (cleans code, done_state f s u)
  unfolding handle
  finish_uncopied f s code u h = rw (h, handle) refl

  pub finish_passes :
      (reply copied : Reply) (f : Text) (s : State Text R S)
      → (finish reply copied f (passes, s)).1 ≡ s
  unfolding handle
  finish_passes fails copied f s = refl
  finish_passes (replies code) copied f s = refl

module _ {D S B : Type 0} (digest : Text → Text) (config : Config) (client : Client B) where
  abbrev pub sent : Exchange D S B → Request
  sent x = (called client config process (print digest config x.request) x).request

  -- The request after it has been sent, or has been refused.
  abbrev pub after : Option Error → Exchange D S B → Request
  after none x = sent x
  after (some e) x = redirected config.address x.request

module _ {R S : Type 0} ⦃fl : Float64 R⦄ (digest : Text → Text) (config : Config)
    (storage : GatekeeperStorage Text S) (times : ℕ × ℕ × ℕ × ℕ) (forwarded : Text → Text) where
  abbrev detector : Detector Text (TokenBucketInMemory Text R)
  detector = detector_at text_discrete times

  pub cleaned_same :
      (r : Request) (f : Text) (code : ℕ) (s : State Text R S) (reply : Reply)
      → print digest config r ≡ forwarded f
      → seen (go storage times forwarded reply f (cleans code, s)).1
        ≡ (cleanup (print digest config) detector storage r (seen s)).1
  unfolding handle cleanup
  cleaned_same r f code s reply e =
      ap (λ g. seen (record s { storage = (Gatekeeper.remove storage g s.storage).1 })) (sym e)
      ∙ ap (λ u. record { detector = (seen s).detector; storage = u })
          (sym (
            kept "failed to remove fingerprint"
              (Gatekeeper.remove storage (print digest config r) s.storage)))

  pub done_fails :
      (r : Request) (f : Text) (s : State Text R S) (e : Error) (u : S)
      → print digest config r ≡ forwarded f
      → stored_at storage times forwarded f s ≡ (err e, u)
      → request_done (print digest config) detector storage r (seen s)
        ≡ (err (wrap "failed to store fingerprint" e), seen (record s { storage = u }))
  unfolding request_done
  done_fails r f s e u p h =
      rw (ap (λ g. Gatekeeper.store storage g true s.storage) p ∙ h, request_done) refl

  pub done_works :
      (r : Request) (f : Text) (s : State Text R S) (u : S)
      → print digest config r ≡ forwarded f
      → stored_at storage times forwarded f s ≡ (ok tt, u)
      → request_done (print digest config) detector storage r (seen s) ≡ (
        ok tt,
        seen (record s {
          storage = u;
          cooldowns = Map.set text_discrete times.0 (forwarded f) true s.cooldowns;
        }),
      )
  unfolding request_done cool_down
  done_works r f s u p h =
      rw (ap (λ g. Gatekeeper.store storage g true s.storage) p ∙ h, request_done)
        (ap
          (λ g. (
            ok tt,
            record { detector = cool_down text_discrete times.0 g (seen s).detector; storage = u },
          ))
          p)
