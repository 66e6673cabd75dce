-- ===== src/Service/Handlers/WholeTests.antt =====
-- A handler that nothing interrupts, of internal/http/handlers.go, at a concrete request.
use anicetus.Prelude.Bits
use anicetus.Errors.{ok}
use anicetus.Prelude.{
  ℕ, none, [], ◌∷◌, refl, no_entries, arith, false, suc, Bits.bit_and, ◌≡◌, some, true,
}
use anicetus.Prelude.Int.{ℤ, pos}
use anicetus.Rate.Fixed.{fixed}
use anicetus.Storage.{InMemory, in_memory}
use anicetus.Message.{Text, text, Request, text_discrete}
use anicetus.Fingerprint.{
  field_query, fingerprint, new_http_request, apply_all, with_fields, with_headers, with_cookies,
  join, hash_fields, hash_headers, hash_cookies, finish,
}
use anicetus.Server.{Config, Client, Exchange, anicetus_handler, marked, redirected, printed, print}
use anicetus.Detector.InMemory.{TokenBucketInMemory}
use anicetus.Detector.Shared.View.{IsSound}
use anicetus.Service.Concurrent.{State}
use anicetus.Service.Concurrent.Sample.{idle_service}
use anicetus.Service.Concurrent.Whole.{seen, detector_at}
use anicetus.Service.Handlers.{replies, over}
use anicetus.Service.Handlers.Turns.{serving}
use anicetus.Service.Handlers.Whole.{Ends, uninterrupted_handler, handler_refines}

-- No token at all: the first request is a herd.
abbrev strict_service : State Text ℤ (InMemory Text)
strict_service = record idle_service {
  limiters = record idle_service.limiters { limiters_burst = pos 0 };
}

strict-IsSound : IsSound strict_service.limiters
strict-IsSound = record { made = λ f p e. ground arith; own = λ f g p e e'. ground arith }

abbrev get_items : Request
get_items = record {
  proto = text "HTTP/1.1";
  method = text "GET";
  url = record { scheme = []; host = []; path = text "/items"; raw_query = [] };
  host = text "shop";
  header = no_entries;
  cookies = [];
  remote_addr = text "10.0.0.1";
  body = record { content = []; broken = false };
}

abbrev by_query : Config
by_query = record {
  fields = field_query ∷ [];
  headers = [];
  cookies = [];
  address = record { scheme = text "http"; host = text "backend"; path = []; raw_query = [] };
}

abbrev answering : Client ℕ
answering = record {
  new_request = λ r. none;
  do_request = λ r b.
      (ok (record { status_code = 200; header = []; body = []; copy_error = none }), r.body, suc b);
}

abbrev exchange : Exchange (TokenBucketInMemory Text ℤ) (InMemory Text) ℕ
exchange = record {
  request = get_items;
  writer = record { header = no_entries; sent = none; written = [] };
  service = seen strict_service;
  backend = 0;
}

handler_refines_example :
    Ends
      (λ h. h)
      by_query
      (in_memory text_discrete)
      answering
      (5, 6, 7, 8)
      (λ f. f)
      (uninterrupted_handler
        (λ h. h)
        by_query
        (in_memory text_discrete)
        answering
        (5, 6, 7, 8)
        (λ f. f)
        []
        (replies 200)
        (replies 200)
        strict_service)
      (anicetus_handler
        (λ h. h)
        by_query
        (detector_at text_discrete (5, 6, 7, 8))
        (in_memory text_discrete)
        answering
        (serving exchange strict_service))
unfolding print printed fingerprint new_http_request apply_all with_fields with_headers with_cookies
    join hash_fields hash_headers hash_cookies finish Bits.bit_or Bits.bit_and redirected marked
handler_refines_example =
    handler_refines (λ h. h) by_query (in_memory text_discrete) answering (5, 6, 7, 8) (λ f. f)
      exchange strict_service refl refl strict-IsSound refl

-- The request leads, the backend answers it, and it is stored as processed.
strict_leads :
    let (phase, s) =
      uninterrupted_handler
        (λ h. h)
        by_query
        (in_memory text_discrete)
        answering
        (5, 6, 7, 8)
        (λ f. f)
        []
        (replies 200)
        (replies 200)
        strict_service in
    (phase ≡ over 200) × (s.storage.flags [] ≡ some true)
unfolding anicetus.Service.Handlers.handle anicetus.Service.Concurrent.advance_call
    anicetus.Mapexp.Map.get anicetus.Detector.Shared.go_on anicetus.Rate.Limiter.allow
    anicetus.Prelude.ℕ_discrete anicetus.Rate.Limiter.new_limiter anicetus.Rate.Limiter.every
    anicetus.Rate.Float.seconds anicetus.Gatekeeper.Interleaving.resume anicetus.Storage.exists
    anicetus.Service.Handlers.decided anicetus.Storage.store anicetus.Gatekeeper.store text_discrete
strict_leads = (refl, refl)
