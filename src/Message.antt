-- ===== src/Message.antt =====
-- What the code uses of the types of net/http and net/url. A text is the list of its bytes.
mod Texts
mod Headers
pub use Texts.*
unfoldable pub use Headers.*
use anicetus.Prelude.{ℕ, Bool, true, false, if◌then◌else◌, Option, none, some, List, []}
use anicetus.Errors.{Error}

pub record Url : Type 0 where
  pub scheme : Text
  pub host : Text
  pub path : Text
  pub raw_query : Text

-- A reader: what is left to read, and whether it ends in an error instead of at its end.
pub record Body : Type 0 where
  pub content : Text
  pub broken : Bool

-- `io.ReadAll`, with `none` for an error. The error of a broken reader comes again.
abbrev pub read_all : Body → Option Text × Body
read_all b = (if b.broken then none else some b.content, record b { content = [] })

-- `io.NopCloser(bytes.NewBuffer(content))`
abbrev pub buffer : Text → Body
buffer content = record { content = content; broken = false }

-- A cookie of the request by its name, with the text of its method `String`.
pub record Cookie : Type 0 where
  pub name : Text
  pub text : Text

-- `http.Request`; `cookies` is what the package reads from the `Cookie` lines of the header.
pub record Request : Type 0 where
  pub proto : Text
  pub method : Text
  pub url : Url
  pub host : Text
  pub header : Header
  pub cookies : List Cookie
  pub remote_addr : Text
  pub body : Body
