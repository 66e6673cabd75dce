-- ===== src/Errors.antt =====
-- Go's `error` values as the code builds them, and what a call returns.
use Prim.Native.String.{String}
use mathlib.Core.Path.{◌≡◌, refl}
use mathlib.Core.Logic.{◌⊎◌, inl, inr}

-- `wrap` is `fmt.Errorf` with `%w`; `plain` is an error from outside or one made of text alone.
pub data Error : Type 0 where
  plain : String → Error
  wrap : String → Error → Error

-- The error at the end of the chain of `errors.Unwrap`.
unfoldable pub root : Error → Error
root (plain text) = plain text
root (wrap text e) = root e

pub data Result (A : Type 0) : Type 0 where
  ok : A → Result A
  err : Error → Result A

-- `if a, err := call(); err != nil { … } else { … }`, over the state that the call leaves.
abbrev pub check : {A B S : Type 0} → Result A × S → (Error → S → B) → (A → S → B) → B
check (ok a, s) failed done = done a s
check (err e, s) failed done = failed e s

pub Result-cases :
    {A : Type 0} (r : Result A) → ((a : A) × (r ≡ ok a)) ⊎ ((e : Error) × (r ≡ err e))
Result-cases (ok a) = inl (a, refl)
Result-cases (err e) = inr (e, refl)
