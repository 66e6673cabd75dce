-- ===== src/Envs/Names.antt =====
-- internal/http/config.go: the loop that trims the names of headers and cookies in the slice that
-- it ranges over.
use anicetus.Prelude.{
  ℕ, zero, suc, ◌+◌, List, [], ◌∷◌, ◌++◌, length, length-append, ◌≡◌, ◌∙◌, refl, ap, sym, arith,
}
use mathlib.Core.List.{append_assoc, append-nil}
use anicetus.Message.{Text}

-- `names[k]`, which is read only within the bounds.
unfoldable pub nth : List Text → ℕ → Text
nth [] k = []
nth (x ∷ xs) zero = x
nth (x ∷ xs) (suc k) = nth xs k

-- `names[i] = name`
unfoldable pub put : List Text → ℕ → Text → List Text
put [] i name = []
put (x ∷ xs) zero name = name ∷ xs
put (x ∷ xs) (suc i) name = x ∷ put xs i name

-- `names[:i]`
unfoldable pub take : ℕ → List Text → List Text
take zero xs = []
take (suc i) [] = []
take (suc i) (x ∷ xs) = x ∷ take i xs

-- A name that is not blank before the others.
abbrev pub keep : Text → List Text → List Text
keep [] names = names
keep (c ∷ cs) names = (c ∷ cs) ∷ names

module _ (trim : Text → Text) where
  -- `steps` names from `k` on are left, and `i` names are kept; the result is the slice and `i`.
  unfoldable pub trim_loop : (steps k i : ℕ) → List Text → List Text × ℕ
  trim_loop zero k i names = (names, i)
  trim_loop (suc steps) k i names = elim (trim (nth names k)) [
    | [] ↦ trim_loop steps (suc k) i names
    | c ∷ cs ↦ trim_loop steps (suc k) (suc i) (put names i (c ∷ cs))
  ]

  unfoldable pub trim_names : List Text → List Text
  trim_names names = let (names', i) = trim_loop (length names) 0 0 names in take i names'

  -- The names that are not blank, trimmed.
  unfoldable pub trimmed : List Text → List Text
  trimmed [] = []
  trimmed (x ∷ xs) = keep (trim x) (trimmed xs)

nth_append : (xs : List Text) (y : Text) (ys : List Text) → nth (xs ++ (y ∷ ys)) (length xs) ≡ y
unfolding nth
nth_append [] y ys = refl
nth_append (x ∷ xs) y ys = nth_append xs y ys

put_append :
    (xs : List Text) (y : Text) (ys : List Text) (z : Text)
    → put (xs ++ (y ∷ ys)) (length xs) z ≡ xs ++ (z ∷ ys)
unfolding put
put_append [] y ys z = refl
put_append (x ∷ xs) y ys z = ap (◌∷◌ x) (put_append xs y ys z)

take_append : (xs ys : List Text) → take (length xs) (xs ++ ys) ≡ xs
unfolding take
take_append [] ys = refl
take_append (x ∷ xs) ys = ap (◌∷◌ x) (take_append xs ys)

nth_second :
    (xs ys : List Text) (z : Text) (zs : List Text)
    → nth (xs ++ (ys ++ (z ∷ zs))) (length xs + length ys) ≡ z
nth_second xs ys z zs =
    rw (sym (append_assoc xs ys (z ∷ zs)))
      (rw (sym (length-append xs ys)) (nth_append (xs ++ ys) z zs))

-- The names passed over after one more is kept: the first of them is overwritten.
abbrev shift : List Text → Text → List Text
shift [] x = []
shift (p ∷ ps) x = ps ++ (x ∷ [])

length-shift : (passed : List Text) (x : Text) → length (shift passed x) ≡ length passed
length-shift [] x = refl
length-shift (p ∷ ps) x = omega (arith, length-append ps (x ∷ []))

put_kept :
    (kept passed : List Text) (x t : Text) (xs : List Text)
    → put (kept ++ (passed ++ (x ∷ xs))) (length kept) t
      ≡ (kept ++ (t ∷ [])) ++ (shift passed x ++ xs)
put_kept kept [] x t xs = put_append kept x xs t ∙ sym (append_assoc kept (t ∷ []) xs)
put_kept kept (p ∷ ps) x t xs =
    put_append kept p (ps ++ (x ∷ xs)) t
    ∙ ap (λ ys. kept ++ (t ∷ ys)) (sym (append_assoc ps (x ∷ []) xs))
    ∙ sym (append_assoc kept (t ∷ []) _)

module _ (trim : Text → Text) where
  abbrev kept_of : List Text × ℕ → List Text
  kept_of (names, i) = take i names

  -- One turn of the loop at the trimmed name.
  abbrev turn : (steps k i : ℕ) → List Text → Text → List Text × ℕ
  turn steps k i names [] = trim_loop trim steps (suc k) i names
  turn steps k i names (c ∷ cs) = trim_loop trim steps (suc k) (suc i) (put names i (c ∷ cs))

  -- The slice holds the names kept, those passed over, and those to come.
  loop-trimmed :
      (rest kept passed : List Text) (k i : ℕ) (names : List Text)
      → k ≡ length kept + length passed
      → i ≡ length kept
      → names ≡ kept ++ (passed ++ rest)
      → kept_of (trim_loop trim (length rest) k i names) ≡ kept ++ trimmed trim rest
  unfolding trim_loop trimmed
  loop-trimmed [] kept passed k i names hk hi hn =
      ap (λ j. take j names) hi
      ∙ ap (take (length kept)) hn
      ∙ take_append kept _
      ∙ sym (append-nil kept)
  loop-trimmed (x ∷ xs) kept passed k i names hk hi hn =
      let look : nth names k ≡ x =
        ap (λ j. nth names j) hk
        ∙ ap (λ ns. nth ns (length kept + length passed)) hn
        ∙ nth_second kept passed x xs in
      ap (λ y. kept_of (turn (length xs) k i names (trim y))) look
      ∙ elim (trim x)
          as (λ t. kept_of (turn (length xs) k i names t) ≡ kept ++ keep t (trimmed trim xs)) [
            | [] ↦
                loop-trimmed xs kept (passed ++ (x ∷ [])) (suc k) i names
                  (omega (arith, hk, length-append passed (x ∷ []))) hi
                  (hn ∙ ap (λ ys. kept ++ ys) (sym (append_assoc passed (x ∷ []) xs)))
            | c ∷ cs ↦
                loop-trimmed xs (kept ++ ((c ∷ cs) ∷ [])) (shift passed x) (suc k) (suc i)
                  (put names i (c ∷ cs))
                  (omega (arith, hk, length-append kept ((c ∷ cs) ∷ []), length-shift passed x))
                  (omega (arith, hi, length-append kept ((c ∷ cs) ∷ [])))
                  (ap (λ j. put names j (c ∷ cs)) hi
                    ∙ ap (λ ns. put ns (length kept) (c ∷ cs)) hn
                    ∙ put_kept kept passed x (c ∷ cs) xs)
                ∙ append_assoc kept ((c ∷ cs) ∷ []) _
          ]

  -- The loop that trims the names in place and writes over those that it has passed gives the names
  -- that are not blank, trimmed and in their order.
  pub trim_names-trimmed : (names : List Text) → trim_names trim names ≡ trimmed trim names
  unfolding trim_names
  trim_names-trimmed names = loop-trimmed names [] [] 0 0 names (omega arith) (omega arith) refl
