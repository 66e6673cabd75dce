-- ===== src/Fingerprint/Fields.antt =====
-- The mask of fingerprint/http_request.go as a set of fields.
use anicetus.Prelude.{
  ℕ, Bool, true, false, ◌||◌, ◌==◌, ◌≡◌, ◌∙◌, ap, refl, List, [], ◌∷◌, arith, ◌<◌,
}
use anicetus.Prelude.Bits.{test_bit, test_bit-bit_or, bit_and_pow, test_bit-pow, test_bit_zero}
use anicetus.Fingerprint.{
  HttpRequestField, field_proto, field_method, field_scheme, field_host, field_path, field_query,
  field_body, bit, value, join, selects,
}

abbrev pub has : List HttpRequestField → HttpRequestField → Bool
has [] f = false
has (g ∷ gs) f = (bit f == bit g) || has gs f

pub bit_fits : (f : HttpRequestField) → bit f < 64
bit_fits field_proto = omega arith
bit_fits field_method = omega arith
bit_fits field_scheme = omega arith
bit_fits field_host = omega arith
bit_fits field_path = omega arith
bit_fits field_query = omega arith
bit_fits field_body = omega arith

or_assoc : (a b c : Bool) → (a || b || c) ≡ (a || (b || c))
or_assoc true b c = refl
or_assoc false b c = refl

or_none : (b : Bool) → b ≡ (b || false)
or_none true = refl
or_none false = refl

test_bit-join :
    (fs : List HttpRequestField) (mask : ℕ) (f : HttpRequestField)
    → test_bit (bit f) (join mask fs) ≡ (test_bit (bit f) mask || has fs f)
unfolding join
test_bit-join [] mask f = or_none _
test_bit-join (g ∷ gs) mask f =
    test_bit-join gs _ f
    ∙ ap (λ b. b || has gs f) (test_bit-bit_or 64 (bit f) mask (value g) (bit_fits f))
    ∙ rw (test_bit-pow (bit f) (bit g))
        (or_assoc (test_bit (bit f) mask) (bit f == bit g) (has gs f))

pub selects-join :
    (fs : List HttpRequestField) (f : HttpRequestField) → selects (join 0 fs) f ≡ has fs f
selects-join fs f =
    bit_and_pow 64 (bit f) _ (bit_fits f) ∙ test_bit-join fs 0 f ∙ rw (test_bit_zero (bit f)) refl
