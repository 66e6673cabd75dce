-- ===== src/Fingerprint/Sets.antt =====
-- The order of the fields in the options of fingerprint/http_request.go.
use anicetus.Prelude.{arith, ◌≢◌, ℕ, Bool, false, ◌≡◌, ◌∙◌, ap, refl, sym, List, [], ◌∷◌, ◌++◌}
use anicetus.Message.{Text, Request, read_all}
use anicetus.Fingerprint.{
  HttpRequestField, field_proto, field_method, field_scheme, field_host, field_path, field_query,
  field_body, selects, hash_fields, host_of, finish, fingerprint,
}
use anicetus.Fingerprint.Fields.{has, selects-join}
use anicetus.Fingerprint.Agreement.{
  configured, chosen, when, taken, fingerprint-taken, with_options, with_options-configured,
}
use mathlib.Core.Quot
use mathlib.Core.Quot.{Quot}

-- The lists have the same fields, however often and in whichever order.
abbrev pub SameFields : List HttpRequestField → List HttpRequestField → Type 0
SameFields fs gs = (f : HttpRequestField) → has fs f ≡ has gs f

abbrev pub FieldSet : Type 0
FieldSet = Quot SameFields

abbrev pub SameMask : ℕ → ℕ → Type 0
SameMask m n = (f : HttpRequestField) → selects m f ≡ selects n f

when_bits : (x : Text) (a b : Bool) (h k : Text) → a ≡ b → h ≡ k → when a x h ≡ when b x k
when_bits x a b h k p q = ap (λ a. when a x h) p ∙ ap (when b x) q

hash_fields_mask :
    (m n : ℕ) (r : Request) (h : Text) → SameMask m n → hash_fields m r h ≡ hash_fields n r h
unfolding hash_fields
hash_fields_mask m n r h s = when_bits r.url.raw_query _ _ _ _ (s field_query) (
    when_bits r.url.path _ _ _ _ (s field_path) (
      when_bits (host_of r) _ _ _ _ (s field_host) (
        when_bits r.url.scheme _ _ _ _ (s field_scheme) (
          when_bits r.method _ _ _ _ (s field_method)
            (when_bits r.proto _ _ h h (s field_proto) refl)))))

first_in : (f : HttpRequestField) (fs : List HttpRequestField) → has (f ∷ fs) f ≢ false
first_in f fs e = ground arith

SameFields-chosen :
    (fs gs : List HttpRequestField) → SameFields fs gs → SameFields (chosen fs) (chosen gs)
SameFields-chosen [] [] s = λ f. refl
SameFields-chosen [] (g ∷ gs) s = absurd (first_in g gs (sym (s g)))
SameFields-chosen (f ∷ fs) [] s = absurd (first_in f fs (s f))
SameFields-chosen (f ∷ fs) (g ∷ gs) s = s

module _ (digest : Text → Text) (headers cookies : List Text) (r : Request) where
  fingerprint_mask :
      (m n : ℕ)
      → SameMask m n
      → (fingerprint digest (configured m headers cookies r)).0
        ≡ (fingerprint digest (configured n headers cookies r)).0
  unfolding finish
  fingerprint_mask m n s =
      let b = selects m field_body in
      let body = (read_all r.body).0 in
      let made = configured n headers cookies r in
      fingerprint-taken digest m headers cookies r b body refl refl
      ∙ ap (λ h. taken b body (finish digest made h) (λ c. finish digest made (h ++ c)))
          (hash_fields_mask m n r [] s)
      ∙ sym (fingerprint-taken digest n headers cookies r b body (sym (s field_body)) refl)

  -- The fingerprint by the list of fields in the options.
  abbrev pub by_fields : List HttpRequestField → Text
  by_fields fields = (fingerprint digest (with_options fields headers cookies r)).0

  by_fields_same : (fs gs : List HttpRequestField) → SameFields fs gs → by_fields fs ≡ by_fields gs
  by_fields_same fs gs s =
      ap (λ a. (fingerprint digest a).0) (with_options-configured fs headers cookies r)
      ∙ fingerprint_mask _ _ (λ f.
        selects-join (chosen fs) f ∙ SameFields-chosen fs gs s f ∙ sym (selects-join (chosen gs) f))
      ∙ sym (ap (λ a. (fingerprint digest a).0) (with_options-configured gs headers cookies r))

  -- The fingerprint is a function of the set of the fields: neither their order nor a field that is
  -- named twice makes a difference.
  pub fields_are_a_set :
      (by_set : FieldSet → Text) × ((fields : List HttpRequestField)
        → by_set (Quot.mk fields) ≡ by_fields fields)
  fields_are_a_set = (Quot.lift (hlevel) by_fields by_fields_same, λ fields. refl)
