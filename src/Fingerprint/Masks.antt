-- ===== src/Fingerprint/Masks.antt =====
-- The masks of fingerprint/http_request.go and the sets of fields.
use native.Mathlib.Bridge.{le_prop}
use mathlib.Core.HLevel.{Σ_prop_path}
use anicetus.Prelude.{
  ℕ, zero, suc, ◌/◌, ◌^◌, ◌<◌, Bool, true, false, ◌&&◌, if◌then◌else◌, ◌≡◌, ◌∙◌, sym, refl, List,
  [], ◌∷◌, arith,
}
use anicetus.Prelude.Bits.{bit_or, bit_and_pow, test_bit}
use anicetus.Fingerprint.{
  HttpRequestField, field_proto, field_method, field_scheme, field_host, field_path, field_query,
  field_body, bit, value, join, selects,
}
use anicetus.Fingerprint.Fields.{has, bit_fits, selects-join}
use anicetus.Fingerprint.Sets.{FieldSet, SameFields, SameMask}
use mathlib.Core.Quot
use mathlib.Core.Quot.{Quot, Quot-set}
use mathlib.Core.Equiv.{◌≃◌, iso_to_equiv}
use Prim.Native.Nat.pow

bit_or_fits : (w k a b : ℕ) → a < 2 ^ k → b < 2 ^ k → bit_or w a b < 2 ^ k
unfolding bit_or
bit_or_fits zero k a b p q = omega (arith, p)
bit_or_fits (suc w) zero a b p q =
    ground (arith, p, q, bit_or_fits w zero (a / 2) (b / 2) (omega (arith, p)) (omega (arith, q)))
bit_or_fits (suc w) (suc k) a b p q = ground (
  arith,
  pow.suc 2 k,
  bit_or_fits w k (a / 2) (b / 2) (omega (arith, p, pow.suc 2 k)) (omega (arith, q, pow.suc 2 k)),
)

same_bits :
    (w a b : ℕ) → a < 2 ^ w → b < 2 ^ w → ((i : ℕ) → i < w → test_bit i a ≡ test_bit i b) → a ≡ b
unfolding test_bit
same_bits zero a b p q h = ground (arith, p, q)
same_bits (suc w) a b p q h =
    let halves =
      same_bits w (a / 2) (b / 2) (omega (arith, p, pow.suc 2 w)) (omega (arith, q, pow.suc 2 w))
        (λ i l. h (suc i) (omega (arith, l))) in
    let odd = h 0 (omega arith) in ground (arith, halves, odd)

abbrev all_fields : List HttpRequestField
all_fields =
    field_proto ∷ field_method ∷ field_scheme ∷ field_host ∷ field_path ∷ field_query ∷ field_body
    ∷ []

-- The fields of the list that a mask selects.
abbrev fields_among : ℕ → List HttpRequestField → List HttpRequestField
fields_among mask [] = []
fields_among mask (g ∷ gs) =
    if selects mask g then g ∷ fields_among mask gs else fields_among mask gs

selects-test_bit : (mask : ℕ) (f : HttpRequestField) → selects mask f ≡ test_bit (bit f) mask
selects-test_bit mask f = bit_and_pow 64 (bit f) mask (bit_fits f)

has_among_step :
    (mask : ℕ) (f g : HttpRequestField) (b : Bool) (gs rest : List HttpRequestField)
    → b ≡ test_bit (bit g) mask
    → has rest f ≡ (test_bit (bit f) mask && has gs f)
    → has (if b then g ∷ rest else rest) f ≡ (test_bit (bit f) mask && has (g ∷ gs) f)
has_among_step mask f g true gs rest e h = ground (arith, e, h)
has_among_step mask f g false gs rest e h = ground (arith, e, h)

has_among :
    (mask : ℕ) (f : HttpRequestField) (gs : List HttpRequestField)
    → has (fields_among mask gs) f ≡ (test_bit (bit f) mask && has gs f)
has_among mask f [] = ground arith
has_among mask f (g ∷ gs) =
    has_among_step mask f g (selects mask g) gs (fields_among mask gs) (selects-test_bit mask g)
      (has_among mask f gs)

has_all : (f : HttpRequestField) → has all_fields f ≡ true
has_all field_proto = refl
has_all field_method = refl
has_all field_scheme = refl
has_all field_host = refl
has_all field_path = refl
has_all field_query = refl
has_all field_body = refl

has-selects :
    (mask : ℕ) (f : HttpRequestField) → has (fields_among mask all_fields) f ≡ selects mask f
has-selects mask f = ground (arith, has_among mask f all_fields, has_all f, selects-test_bit mask f)

value_fits : (f : HttpRequestField) → value f < 2 ^ 7
value_fits field_proto = omega arith
value_fits field_method = omega arith
value_fits field_scheme = omega arith
value_fits field_host = omega arith
value_fits field_path = omega arith
value_fits field_query = omega arith
value_fits field_body = omega arith

join_fits : (fs : List HttpRequestField) (mask : ℕ) → mask < 2 ^ 7 → join mask fs < 2 ^ 7
unfolding join
join_fits [] mask h = h
join_fits (f ∷ fs) mask h = join_fits fs _ (bit_or_fits 64 7 mask (value f) h (value_fits f))

each_bit : (P : ℕ → Type 0) → ((f : HttpRequestField) → P (bit f)) → (i : ℕ) → i < 7 → P i
each_bit P h zero l = h field_proto
each_bit P h (suc zero) l = h field_method
each_bit P h (suc (suc zero)) l = h field_scheme
each_bit P h (suc (suc (suc zero))) l = h field_host
each_bit P h (suc (suc (suc (suc zero)))) l = h field_path
each_bit P h (suc (suc (suc (suc (suc zero))))) l = h field_query
each_bit P h (suc (suc (suc (suc (suc (suc zero)))))) l = h field_body
each_bit P h (suc (suc (suc (suc (suc (suc (suc i))))))) l = absurd (omega (arith, l))

same_mask : (m n : ℕ) → m < 2 ^ 7 → n < 2 ^ 7 → SameMask m n → m ≡ n
same_mask m n p q s = same_bits 7 m n p q (
    each_bit (λ i. test_bit i m ≡ test_bit i n)
      (λ f. sym (selects-test_bit m f) ∙ s f ∙ selects-test_bit n f))

-- What `join` makes of fields: one of the seven bits for each.
abbrev pub Mask : Type 0
Mask = (mask : ℕ) × (mask < 2 ^ 7)

abbrev mask_of : List HttpRequestField → Mask
mask_of fs = (join 0 fs, join_fits fs 0 (omega arith))

Mask_path : (m n : Mask) → m.0 ≡ n.0 → m ≡ n
Mask_path m n e = Σ_prop_path (λ x. le_prop) e

same_mask_of : (fs gs : List HttpRequestField) → SameFields fs gs → mask_of fs ≡ mask_of gs
same_mask_of fs gs s = Mask_path _ _ (
    same_mask _ _ (mask_of fs).1 (mask_of gs).1
      (λ f. selects-join fs f ∙ s f ∙ sym (selects-join gs f)))

abbrev set_mask : FieldSet → Mask
set_mask = Quot.lift (hlevel (le_prop)) mask_of same_mask_of

mask_set :
    (fs : List HttpRequestField)
    → ◌≡◌ {A = FieldSet} (Quot.mk (fields_among (join 0 fs) all_fields)) (Quot.mk fs)
mask_set fs = Quot.sound (λ f. has-selects _ f ∙ selects-join fs f)

-- The masks of the seven fields are the sets of fields: each set has one mask, which `join` makes
-- of any list of its fields, and each number below 2 ^ 7 is the mask of one set.
pub sets_are_masks :
    (masks : FieldSet ≃ Mask) × ((fields : List HttpRequestField)
      → (masks.0 (Quot.mk fields)).0 ≡ join 0 fields)
sets_are_masks = (
  iso_to_equiv (record {
    fun = set_mask;
    inv = λ m. Quot.mk (fields_among m.0 all_fields);
    rinv = λ m. Mask_path _ _ (
        same_mask _ _ (mask_of (fields_among m.0 all_fields)).1 m.1
          (λ f. selects-join (fields_among m.0 all_fields) f ∙ has-selects m.0 f));
    linv = Quot.ind (λ q. Quot-set _ _) mask_set;
  }),
  λ fields. refl,
)
