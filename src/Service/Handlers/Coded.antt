-- ===== src/Service/Handlers/Coded.antt =====
-- The codes that the steps of a handler end with, beside those of `anicetusHandler` of
-- internal/http/handlers.go.
use anicetus.Prelude.{ℕ, ◌≡◌, ◌∙◌, sym, refl, ap, Option, none, some}
use anicetus.Errors.{Error, Result, ok, err}
use anicetus.Gatekeeper.{GatekeeperStorage}
use anicetus.Anicetus.{Detector}
use anicetus.Detector.InMemory.{TokenBucketInMemory}
use anicetus.Rate.Float.{Float64}
use anicetus.Message.{Text, text_discrete}
use anicetus.Server.{Config, Client, Exchange, print}
use anicetus.Server.Responses.{Response}
use anicetus.Service.Concurrent.{State}
use anicetus.Service.Concurrent.Whole.{detector_at}
use anicetus.Service.Handlers.Turns.{
  called_reply, copy_reply_of, copy_reply, serving, finish, sent, after, stored_at, finish_unstored,
  finish_copied, finish_uncopied, done_fails, done_works,
}
use anicetus.Service.Handlers.{leads, passes, over, replies, handle}
use anicetus.Server.Codes.{forwarded_code, leader_done}

module _ {R S B : Type 0} ⦃fl : Float64 R⦄ (digest : Text → Text) (config : Config)
    (storage : GatekeeperStorage Text S) (client : Client B) (times : ℕ × ℕ × ℕ × ℕ)
    (forwarded : Text → Text) where
  abbrev detector : Detector Text (TokenBucketInMemory Text R)
  detector = detector_at text_discrete times

  copied_code :
      (f : Text) (s : State Text R S) (code : ℕ) (u : S) (copied : Option Error)
      → stored_at storage times forwarded f s ≡ (ok tt, u)
      → (finish storage times forwarded (replies code) (copy_reply_of code copied) f (leads, s)).0
        ≡ over code
  unfolding handle
  copied_code f s code u none h =
      ap (λ o. o.0) (finish_copied storage times forwarded f s code code u h)
  copied_code f s code u (some e) h =
      ap (λ o. o.0) (finish_uncopied storage times forwarded f s code u h)

  pub leads_code :
      (x : Exchange (TokenBucketInMemory Text R) S B) (s : State Text R S) (f : Text)
      (refused : Option Error) (reply : Result Response) (stored : Result (Unit {0}) × S)
      → stored_at storage times forwarded f s ≡ stored
      → print digest config (after digest config client refused (serving x s)) ≡ forwarded f
      → (finish storage times forwarded
          (called_reply refused reply)
          (copy_reply reply)
          f
          (leads, s)).0
        ≡ over (
            forwarded_code refused reply
              λ _. leader_done digest config detector storage client (serving x s))
  unfolding handle
  leads_code x s f (some e) reply stored h b = refl
  leads_code x s f none (err e) stored h b = refl
  leads_code x s f none (ok response) (err e, u) h b =
      ap (λ o. o.0)
        (finish_unstored storage times forwarded f s response.status_code (copy_reply (ok response))
          e u h)
      ∙ sym (
          ap (λ d. over (forwarded_code none (ok response) λ _. d.0))
            (done_fails digest config storage times forwarded
              (sent digest config client (serving x s)) f s e u b h))
  leads_code x s f none (ok response) (ok _, u) h b =
      copied_code f s response.status_code u response.copy_error h
      ∙ sym (
          ap (λ d. over (forwarded_code none (ok response) λ _. d.0))
            (done_works digest config storage times forwarded
              (sent digest config client (serving x s)) f s u b h))

  pub passes_code :
      (s : State Text R S) (f : Text) (refused : Option Error) (reply : Result Response)
      → (finish storage times forwarded
          (called_reply refused reply)
          (copy_reply reply)
          f
          (passes, s)).0
        ≡ over (forwarded_code refused reply λ _. ok tt)
  unfolding handle
  passes_code s f (some e) reply = refl
  passes_code s f none (err e) = refl
  passes_code s f none (ok response) = refl
