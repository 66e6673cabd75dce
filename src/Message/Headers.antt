-- ===== src/Message/Headers.antt =====
-- `http.Header`: a map from canonical names to the values of the lines with that name.
use anicetus.Prelude.{
  ℕ, Bool, true, false, ◌&&◌, ◌||◌, ◌==◌, if◌then◌else◌, List, [], ◌∷◌, ◌++◌, none, some, Option,
  Table, write, ℕ_discrete, ◌≡◌, ◌≢◌, refl, ap, if_neg, sym, ◌∙◌,
}
use anicetus.Message.Texts.{Text, text, upper, lower, is_between}
use mathlib.Core.List.{nil≢cons, head-eq_of_cons-eq, tail-eq_of_cons-eq}

unfoldable pub text_discrete : Discrete Text
text_discrete [] [] = yes refl
text_discrete [] (y ∷ ys) = no nil≢cons
text_discrete (x ∷ xs) [] = no (λ p. nil≢cons (sym p))
text_discrete (x ∷ xs) (y ∷ ys) = elim (ℕ_discrete x y) [
  | no n ↦ no (λ p. n (head-eq_of_cons-eq p))
  | yes p ↦ elim (text_discrete xs ys) [
    | no n ↦ no (λ p. n (tail-eq_of_cons-eq p))
    | yes q ↦ yes (ap (λ z. z ∷ xs) p ∙ ap (λ zs. y ∷ zs) q)
  ]
]

abbrev pub Header : Type 0
Header = Table Text (List Text)

abbrev contains : Text → ℕ → Bool
contains [] c = false
contains (x ∷ xs) c = x == c || contains xs c

abbrev is_name_byte : ℕ → Bool
is_name_byte c =
    is_between 48 57 c
    || is_between 65 90 c
    || is_between 97 122 c
    || contains (text "!#$%&'*+-.^_`|~") c

abbrev all_name_bytes : Text → Bool
all_name_bytes [] = true
all_name_bytes (c ∷ cs) = is_name_byte c && all_name_bytes cs

-- A letter is upper at the start and after a hyphen.
abbrev capitalise : Bool → Text → Text
capitalise start [] = []
capitalise start (c ∷ cs) = (if start then upper c else lower c) ∷ capitalise (c == 45) cs

-- `textproto.CanonicalMIMEHeaderKey`
unfoldable pub canonical : Text → Text
canonical name = if all_name_bytes name then capitalise true name else name

abbrev pub lines : Option (List Text) → List Text
lines none = []
lines (some vs) = vs

abbrev pub values : Header → Text → List Text
values h key = lines (h key)

-- `h.Get(name)`
abbrev pub first : List Text → Text
first [] = []
first (v ∷ vs) = v

abbrev pub header_get : Header → Text → Text
header_get h name = first (values h (canonical name))

-- `h.Add(name, value)`
abbrev pub header_add : Header → Text → Text → Header
header_add h name value =
    write text_discrete h (canonical name) (values h (canonical name) ++ (value ∷ []))

-- `h.Set(name, value)`
abbrev pub header_set : Header → Text → Text → Header
header_set h name value = write text_discrete h (canonical name) (value ∷ [])

-- A line with another name does not change what `Get` finds.
pub header_get-header_add :
    (h : Header) (name key value : Text)
    → canonical name ≢ canonical key
    → header_get (header_add h key value) name ≡ header_get h name
header_get-header_add h name key value ne =
    ap (λ o. first (lines o)) (if_neg (text_discrete (canonical name) (canonical key)) ne _ _)

pub header_get-header_set :
    (h : Header) (name key value : Text)
    → canonical name ≢ canonical key
    → header_get (header_set h key value) name ≡ header_get h name
header_get-header_set h name key value ne =
    ap (λ o. first (lines o)) (if_neg (text_discrete (canonical name) (canonical key)) ne _ _)
