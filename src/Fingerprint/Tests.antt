-- ===== src/Fingerprint/Tests.antt =====
-- Runs of fingerprint/http_request.go, and its theorems on concrete requests.
use anicetus.Fingerprint.Sets.{FieldSet, by_fields, fields_are_a_set}
use mathlib.Core.Quot
use anicetus.Prelude.{true, false, none, [], ◌∷◌, ◌≡◌, refl, arith}
use anicetus.Message.{Text, text, Request}
use anicetus.Fingerprint.{
  HttpRequest, field_path, field_body, field_host, field_method, fingerprint, join,
  new_http_request, with_cookies, with_fields, with_headers, apply_all, hash_fields, hash_headers,
  hash_cookies, finish, HttpRequestField, field_proto, field_scheme, field_query, List,
}
use anicetus.Fingerprint.Agreement.{IsSame, chosen, with_options, fingerprint_agrees, configured}
use anicetus.Prelude.Bits
use anicetus.Fingerprint.Fields.{has}

abbrev get_items : Request
get_items = record {
  proto = text "HTTP/1.1";
  method = text "GET";
  url = record { scheme = []; host = []; path = text "/items"; raw_query = text "a=1" };
  host = text "shop";
  header = λ _. none;
  cookies = record { name = text "id"; text = text "id=7" } ∷ [];
  remote_addr = text "10.0.0.1";
  body = record { content = text "hello"; broken = false };
}

abbrev posted : Request
posted = record get_items { method = text "POST"; remote_addr = text "10.0.0.2" }

-- A digest that shows what was hashed.
abbrev bare : Text → Text
bare h = h

hashes_default : (fingerprint bare (new_http_request get_items [])).0 ≡ text "GETshop/itemsa=1"
unfolding fingerprint new_http_request apply_all with_fields with_headers with_cookies join
    hash_fields hash_headers hash_cookies finish Bits.bit_or Bits.bit_and
hashes_default = refl

hashes_body :
    (fingerprint bare (with_options (field_path ∷ field_body ∷ []) [] (text "id" ∷ []) get_items)).0
    ≡ text "/itemshelloid=7"
unfolding fingerprint new_http_request apply_all with_fields with_headers with_cookies join
    hash_fields hash_headers hash_cookies finish Bits.bit_or Bits.bit_and
hashes_body = refl

IsSame-paths :
    (f : HttpRequestField) → has (chosen (field_path ∷ [])) f ≡ true → IsSame f get_items posted
IsSame-paths field_proto h = refl
IsSame-paths field_method h = ground arith
IsSame-paths field_scheme h = refl
IsSame-paths field_host h = refl
IsSame-paths field_path h = refl
IsSame-paths field_query h = refl
IsSame-paths field_body h = refl

fingerprint_agrees_example :
    (fingerprint bare (with_options (field_path ∷ []) [] [] get_items)).0
    ≡ (fingerprint bare (with_options (field_path ∷ []) [] [] posted)).0
fingerprint_agrees_example =
    fingerprint_agrees bare (field_path ∷ []) [] [] get_items posted IsSame-paths tt tt

abbrev reading : HttpRequest
reading = configured 64 [] (text "x" ∷ []) get_items

fields_are_a_set_example :
    (by_set : FieldSet → Text) × ((fields : List HttpRequestField)
      → by_set (Quot.mk fields) ≡ by_fields bare (text "Accept" ∷ []) [] reading.request fields)
fields_are_a_set_example = fields_are_a_set bare (text "Accept" ∷ []) [] reading.request
