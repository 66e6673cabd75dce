-- ===== src/Server/Responses.antt =====
-- `http.ResponseWriter` and the responses of an `http.Client`, as internal/http/request.go uses
-- them.
use anicetus.Prelude.{ℕ, Option, none, some, List, [], ◌∷◌}
use anicetus.Errors.{Error}
use anicetus.Message.{Text, Header, header_add}

-- `sent` is the status and the header as they were at the first `WriteHeader`; later ones do
-- nothing.
pub record Writer : Type 0 where
  pub header : Header
  pub sent : Option (ℕ × Header)
  pub written : Text

-- The header in the order in which `range` visits it. Copying the body gives the text that comes
-- through and perhaps an error, of reading it or of writing it.
pub record Response : Type 0 where
  pub status_code : ℕ
  pub header : List (Text × List Text)
  pub body : Text
  pub copy_error : Option Error

unfoldable pub write_header : ℕ → Writer → Writer
write_header code w = elim w.sent [ none ↦ record w { sent = some (code, w.header) } | some _ ↦ w ]

unfoldable pub add_values : Text → List Text → Header → Header
add_values key [] h = h
add_values key (value ∷ values) h = add_values key values (header_add h key value)

unfoldable pub add_lines : List (Text × List Text) → Header → Header
add_lines [] h = h
add_lines ((key, values) ∷ lines) h = add_lines lines (add_values key values h)
