-- ===== src/Detector/Redis/Tests.antt =====
-- The theorems on detector/redigo/tokenbucket_redis.go over a server in memory.
use anicetus.Rate.Fixed.{fixed-IsFloat, fixed}
use anicetus.Detector.Redis.Sample.{
  set_for_replies, redis_strings, commands-KeepsStrings, fixed-IsLuaNumber, World, put, commands,
  client_library, redis_server, commands-IsServer, client_library-IsClient, two_a_second,
  rounded_up, two-IsSetUp,
}
use anicetus.Detector.Redis.Cooling.{polls, before, redis_cooldown_lasts}
use anicetus.Detector.Redis.Client.{
  redis_cool_down, add_key_prefix, redis_is_thundering_herd, redis_is_cool_down, redis_detector,
}
use anicetus.Rate.Float.{seconds, of_ℕ}
use anicetus.Detector.Redis.Done.{IsSetReply, redis_leader_fails}
use anicetus.Detector.Redis.Script.{token_bucket_script, token_bucket_script}
use anicetus.Prelude.{
  ℕ, ◌≡◌, refl, Bool, true, false, List, [], ◌∷◌, ◌++◌, replicate, none, some, no_entries, arith,
  All, ℕ_discrete, suc,
}
use anicetus.Errors.{plain, Result, ok}
use anicetus.Message.{Text, text, text_discrete, Request}
use anicetus.Storage
use anicetus.Storage.{InMemory, in_memory}
use anicetus.Anicetus.{evaluate}
use anicetus.Gatekeeper.{analyze}
use anicetus.Prelude.Bits
use anicetus.Status.{process}
use anicetus.Fingerprint.{
  fingerprint, new_http_request, apply_all, with_fields, with_headers, with_cookies, join,
  hash_fields, hash_headers, hash_cookies, finish,
}
use anicetus.Server.{Config, Client, Exchange, print, anicetus_handler}
use anicetus.Server.Responses.{write_header}
use anicetus.Detector.Redis.Asking.{key, ask, answers}
use anicetus.Detector.Redis.Herds.{redis_herd}
use anicetus.Detector.Redis.Penalty.{penalty_forgotten}

abbrev start : World
start = record { clock = 5_000_000; buckets = no_entries; cooldowns = no_entries }

redis_herd_example :
    answers commands client_library rounded_up redis_server two_a_second
      (text "page")
      (replicate 2 0 ++ replicate 3 0)
      start
    ≡ replicate 2 (ok false) ++ replicate 3 (ok true)
redis_herd_example =
    redis_herd commands client_library rounded_up redis_server two_a_second (text "page")
      fixed-IsFloat fixed-IsLuaNumber commands-IsServer client_library-IsClient 2 2 two-IsSetUp 3
      start refl (omega arith)

-- A bucket of the page at the time of the start.
abbrev holding : ℕ → World
holding n =
    put (key (text "page"))
      (record { tokens = of_ℕ n; last_refreshed = of_ℕ 5; expires = some 6_500_000 }) start

abbrev page_asked : World → Result Bool × World
page_asked = ask commands client_library rounded_up redis_server two_a_second (text "page")

abbrev page_answers : List ℕ → World → List (Result Bool)
page_answers = answers commands client_library rounded_up redis_server two_a_second (text "page")

last_token : (page_asked (holding 1)).0 ≡ ok false
unfolding redis_is_thundering_herd token_bucket_script seconds add_key_prefix text_discrete
    ℕ_discrete
last_token = refl

abbrev half_seconds : List ℕ
half_seconds = replicate 3 500_000

then_denied : page_answers half_seconds (page_asked (holding 1)).1 ≡ replicate 3 (ok true)
unfolding redis_is_thundering_herd token_bucket_script seconds add_key_prefix text_discrete
    ℕ_discrete answers
then_denied = refl

half_seconds_denied : All (λ r. r ≡ ok true) (page_answers half_seconds (page_asked (holding 1)).1)
half_seconds_denied = rw then_denied (refl, (refl, (refl, tt)))

penalty_forgotten_example :
    page_answers (half_seconds ++ 500_000 ∷ []) (page_asked (holding 1)).1
    ≡ replicate 3 (ok true) ++ ok false ∷ []
penalty_forgotten_example =
    penalty_forgotten commands client_library rounded_up redis_server two_a_second (text "page")
      fixed-IsFloat fixed-IsLuaNumber commands-IsServer client_library-IsClient 2 2 two-IsSetUp
      (holding 1) half_seconds 500_000 last_token half_seconds_denied (omega arith) (omega arith)

commands-IsSetReply : IsSetReply commands client_library
commands-IsSetReply = record {
  set_replies = λ key value lifetime w. set_for_replies key lifetime w;
  int_status = λ s. (plain "redigo: unexpected type for Int", refl);
  int_failure = λ e. refl;
}

-- A configuration and a digest for which every request has one fingerprint.
abbrev everything : Config
everything = record {
  fields = [];
  headers = [];
  cookies = [];
  address = record { scheme = text "http"; host = text "backend"; path = []; raw_query = [] };
}

abbrev one_page : Text → Text
one_page h = text "page"

abbrev answering : Client ℕ
answering = record {
  new_request = λ r. none;
  do_request = λ r b.
      (ok (record { status_code = 200; header = []; body = []; copy_error = none }), r.body, suc b);
}

abbrev page_request : Request
page_request = record {
  proto = text "HTTP/1.1";
  method = text "GET";
  url = record { scheme = []; host = []; path = text "/"; raw_query = [] };
  host = text "shop";
  header = no_entries;
  cookies = [];
  remote_addr = text "10.0.0.1";
  body = record { content = []; broken = false };
}

abbrev in_herd : Exchange World (InMemory Text) ℕ
in_herd = record {
  request = page_request;
  writer = record { header = no_entries; sent = none; written = [] };
  service = record { detector = holding 0; storage = record { flags = no_entries } };
  backend = 0;
}

leads :
    (evaluate
      (print one_page everything)
      (redis_detector commands client_library rounded_up two_a_second)
      (in_memory text_discrete)
      in_herd.request
      in_herd.service).0
    ≡ (process, none)
unfolding evaluate analyze Storage.exists Storage.store redis_is_cool_down redis_is_thundering_herd
    token_bucket_script seconds add_key_prefix text_discrete ℕ_discrete print fingerprint
    new_http_request apply_all with_fields with_headers with_cookies join hash_fields hash_headers
    hash_cookies finish Bits.bit_or Bits.bit_and
leads = refl

redis_leader_fails_example :
    (anicetus_handler one_page everything
      (redis_detector commands client_library rounded_up two_a_second)
      (in_memory text_discrete)
      answering
      in_herd).writer
    ≡ write_header 500 in_herd.writer
redis_leader_fails_example =
    redis_leader_fails commands client_library rounded_up two_a_second commands-IsSetReply one_page
      everything (in_memory text_discrete) answering in_herd refl leads

-- A cooldown of a minute is over at the third poll.
redis_cooldown_lasts_example :
    polls commands client_library rounded_up two_a_second redis_strings
      (text "page")
      (1 ∷ 50_000_000 ∷ 9_999_999 ∷ [])
      (redis_cool_down commands client_library rounded_up two_a_second (text "page") start).1
    ≡ ok true ∷ ok true ∷ ok false ∷ []
unfolding before seconds
redis_cooldown_lasts_example =
    redis_cooldown_lasts commands client_library rounded_up two_a_second redis_strings (text "page")
      commands-KeepsStrings fixed-IsFloat 60 start (1 ∷ 50_000_000 ∷ 9_999_999 ∷ []) refl
      (omega arith) (omega arith)
