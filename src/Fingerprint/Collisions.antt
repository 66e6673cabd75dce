-- ===== src/Fingerprint/Collisions.antt =====
-- fingerprint/http_request.go writes the fields to the hash one after the other, with nothing
-- between.
use anicetus.Prelude.{ℕ, Bool, true, ◌≡◌, ◌∙◌, ap, refl, sym, List, [], ◌++◌, All-intro}
use mathlib.Core.List.{append_assoc}
use anicetus.Message.{Text, Request}
use anicetus.Fingerprint.{selects, field_path, field_query, hash_fields, fingerprint}
use anicetus.Fingerprint.Agreement.{when, configured, fingerprint_hashed}

abbrev at_url : Request → Text → Text → Request
at_url r path query = record r { url = record r.url { path = path; raw_query = query } }

boundary_when :
    (b c : Bool) (h p x y : Text)
    → b ≡ true
    → c ≡ true
    → when c y (when b (p ++ x) h) ≡ when c (x ++ y) (when b p h)
boundary_when b c h p x y e f =
    rw (e, when)
      (rw (f, when) (ap (λ k. k ++ y) (sym (append_assoc h p x)) ∙ append_assoc (h ++ p) x y))

boundary_hashed :
    (mask : ℕ) (r : Request) (p x y : Text)
    → selects mask field_path ≡ true
    → selects mask field_query ≡ true
    → hash_fields mask (at_url r (p ++ x) y) [] ≡ hash_fields mask (at_url r p (x ++ y)) []
unfolding hash_fields
boundary_hashed mask r p x y a b =
    boundary_when (selects mask field_path) (selects mask field_query) _ p x y a b

module _ (digest : Text → Text) (mask : ℕ) (headers cookies : List Text) where
  -- Where path and query are both selected, moving the end of the path into the query does not
  -- change the fingerprint: requests for different resources share it.
  boundary_lost :
      (r : Request) (p x y : Text)
      → selects mask field_path ≡ true
      → selects mask field_query ≡ true
      → (fingerprint digest (configured mask headers cookies (at_url r (p ++ x) y))).0
        ≡ (fingerprint digest (configured mask headers cookies (at_url r p (x ++ y)))).0
  boundary_lost r p x y a b =
      fingerprint_hashed digest mask headers cookies (at_url r (p ++ x) y) (at_url r p (x ++ y))
        (All-intro _ (λ _. refl) headers) (All-intro _ (λ _. refl) cookies) (λ _. refl)
        (boundary_hashed mask r p x y a b)
