-- ===== src/Server/Tests.antt =====
-- The theorems on internal/http for concrete requests.
use anicetus.Status.{process}
use anicetus.Server.Calling.{Called, get-Called}
use anicetus.Message.{canonical, Text, text, Request, text_discrete}
use anicetus.Server.Relaying.{IsRelayed, get-IsRelayed, lines_of}
use anicetus.Server.Verdicts.{get_code}
use anicetus.Server.Codes.{answered}
use anicetus.Prelude.{
  sym, ℕ, suc, Bool, true, false, Option, none, some, [], ◌∷◌, ◌≡◌, refl, no_entries, inr,
  ℕ_discrete,
}
use anicetus.Prelude.Bits
use mathlib.Core.List.{nil≢cons}
use anicetus.Errors.{ok}
use anicetus.Gatekeeper
use anicetus.Gatekeeper.{GatekeeperStorage, analyze, answer}
use anicetus.Anicetus.{Detector, evaluate, request_done}
use anicetus.Storage
use anicetus.Storage.{InMemory, in_memory, processed}
use anicetus.Storage.Laws.{in_memory-IsStorage}
use anicetus.Fingerprint.{
  HttpRequestField, field_path, field_scheme, fingerprint, new_http_request, apply_all, with_fields,
  with_headers, with_cookies, join, hash_fields, hash_headers, hash_cookies, finish,
}
use anicetus.Server.Responses.{Response}
use anicetus.Server.{
  forward_request_by, relay, Config, Client, Exchange, print, printed, pass, anicetus_handler,
  redirected, marked,
}
use anicetus.Server.Answers.{other_calls}
use anicetus.Server.Leaders.{IsReleased, leader_releases}
use anicetus.Server.Stranded.{leader_strands}

abbrev get_items : Request
get_items = record {
  proto = text "HTTP/1.1";
  method = text "GET";
  url = record { scheme = []; host = []; path = text "/items"; raw_query = [] };
  host = text "shop";
  header = no_entries;
  cookies = [];
  remote_addr = text "10.0.0.1";
  body = record { content = []; broken = false };
}

abbrev bare : Text → Text
bare h = h

abbrev config_of : HttpRequestField → Config
config_of field = record {
  fields = field ∷ [];
  headers = [];
  cookies = [];
  address = record { scheme = text "http"; host = text "backend"; path = []; raw_query = [] };
}

-- A herd all the time, and no cooldown.
abbrev herding : Detector Text (Unit {0})
herding = record {
  cool_down = λ f d. (ok tt, d);
  is_cool_down = λ f d. (ok false, d);
  is_thundering_herd = λ f d. (ok true, d);
}

abbrev empty_response : Response
empty_response = record { status_code = 200; header = []; body = []; copy_error = none }

-- A backend that counts its calls.
abbrev counting : Client ℕ
counting = record {
  new_request = λ r. none;
  do_request = λ r b. (ok empty_response, r.body, suc b);
}

abbrev flags : InMemory Text → Text → Option Bool
flags s = s.flags

abbrev exchange_of : Request → Exchange (Unit {0}) (InMemory Text) ℕ
exchange_of r = record {
  request = r;
  writer = record { header = no_entries; sent = none; written = [] };
  service = record { detector = tt; storage = record { flags = no_entries } };
  backend = 0;
}

abbrev post_items : Request
post_items = record get_items { method = text "POST" }

-- It is sent twice.
other_calls_example :
    (anicetus_handler bare
      (config_of field_path)
      herding
      (in_memory text_discrete)
      counting
      (exchange_of post_items)).backend
    ≡ 2
unfolding evaluate analyze Storage.exists Storage.store pass forward_request_by relay
other_calls_example =
    other_calls counting (λ b. b) (λ _ _. refl) (λ _. refl) (config_of field_path) bare herding
      (in_memory text_discrete) (exchange_of post_items) refl

leader_releases_example :
    IsReleased flags
      (print bare (config_of field_path) get_items)
      (anicetus_handler bare
        (config_of field_path)
        herding
        (in_memory text_discrete)
        counting
        (exchange_of get_items)).service
unfolding evaluate analyze Storage.exists Storage.store Storage.remove
leader_releases_example =
    leader_releases bare (config_of field_path) herding (in_memory text_discrete) flags
      (in_memory-IsStorage text_discrete) (λ _ _. refl) counting (exchange_of get_items) refl
      (record {
        no_scheme = refl;
        no_body = refl;
        has_host = λ e. nil≢cons (sym e);
        other_headers = tt;
      })
      refl

leader_strands_example :
    flags
      (anicetus_handler bare
        (config_of field_scheme)
        herding
        (in_memory text_discrete)
        counting
        (exchange_of get_items)).service.storage
      []
    ≡ some false
unfolding evaluate analyze Storage.exists Storage.store Storage.remove request_done print printed
    fingerprint new_http_request apply_all with_fields with_headers with_cookies join hash_fields
    hash_headers hash_cookies finish Bits.bit_or Bits.bit_and redirected marked Gatekeeper.store
leader_strands_example =
    leader_strands bare (config_of field_scheme) herding (in_memory text_discrete) flags
      (in_memory-IsStorage text_discrete) counting (exchange_of get_items) empty_response refl refl
      refl refl refl refl (λ e. nil≢cons (sym e))

-- A backend that has nothing.
abbrev missing : Client ℕ
missing = record counting {
  do_request = λ r b. (ok (record empty_response { status_code = 404 }), r.body, suc b);
}

get_code_example :
    answered (
      anicetus_handler bare
        (config_of field_path)
        herding
        (in_memory text_discrete)
        missing
        (exchange_of get_items))
    ≡ 404
unfolding evaluate analyze Storage.exists Storage.store request_done Gatekeeper.store
get_code_example =
    get_code bare (config_of field_path) herding (in_memory text_discrete) missing
      (exchange_of get_items) refl refl

-- Two lines with one name.
abbrev two_lines : Response
two_lines = record empty_response {
  status_code = 201;
  header = (text "X-Kind", text "a" ∷ []) ∷ (text "x-kind", text "b" ∷ text "c" ∷ []) ∷ [];
  body = text "items";
}

abbrev listing : Client ℕ
listing = record counting { do_request = λ r b. (ok two_lines, r.body, suc b) }

get-IsRelayed_example :
    IsRelayed two_lines
      (exchange_of get_items).writer
      (anicetus_handler bare
        (config_of field_path)
        herding
        (in_memory text_discrete)
        listing
        (exchange_of get_items)).writer
unfolding evaluate analyze Storage.exists Storage.store request_done Gatekeeper.store
get-IsRelayed_example =
    get-IsRelayed bare (config_of field_path) herding (in_memory text_discrete) listing
      (exchange_of get_items) two_lines refl refl (inr (refl, refl))
      (record { accepted = refl; replied = refl; whole = refl })

lines_of_kind : lines_of (text "x-kind") two_lines.header ≡ text "a" ∷ text "b" ∷ text "c" ∷ []
unfolding text_discrete canonical ℕ_discrete
lines_of_kind = refl

get-Called_example :
    Called bare
      (config_of field_path)
      herding
      (in_memory text_discrete)
      counting
      (process, none)
      get_items
      0
      (anicetus_handler bare
        (config_of field_path)
        herding
        (in_memory text_discrete)
        counting
        (exchange_of get_items)).backend
unfolding evaluate analyze Storage.exists Storage.store print printed fingerprint new_http_request
    apply_all with_fields with_headers with_cookies join hash_fields hash_headers hash_cookies
    finish Bits.bit_or Bits.bit_and
get-Called_example =
    get-Called bare (config_of field_path) herding (in_memory text_discrete) counting
      (exchange_of get_items) refl refl
