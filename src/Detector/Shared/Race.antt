-- ===== src/Detector/Shared/Race.antt =====
-- Calls of `IsThunderingHerd` that all look up their limiter before any has put one into the map.
use anicetus.Prelude.{
  ℕ, zero, suc, ◌+◌, ◌≤◌, ◌<◌, ◌≡◌, ◌∙◌, not, if_neg, some, refl, ap, true, false, none, List, [],
  ◌∷◌, replicate, ℕ_discrete, if_pos, arith,
}
use anicetus.Prelude.Int.{pos}
use anicetus.Mapexp.Map
use anicetus.Rate.Float.{Float64, IsFloat, exact_below}
use anicetus.Rate.Limiter.{Limiter, every, new_limiter, allow}
use anicetus.Rate.Burst.{allows_burst, allows}
use anicetus.Detector.Shared.{Shared, Stage, asks, creates, holds, answered, go_on, go_round}
use mathlib.Core.Path.{ap₂}

-- The calls that hold the `n` pointers from `p` on.
abbrev pub holding : {F : Type 0} → ℕ → ℕ → List (Stage F)
holding p zero = []
holding p (suc n) = holds p ∷ holding (suc p) n

module _ {F R : Type 0} (dec : Discrete F) ⦃fl : Float64 R⦄ where
  abbrev pub fresh : Shared F R → Limiter R
  fresh s = new_limiter (every s.limiters_interval) s.limiters_burst

  pub record AllAsked (f : F) (s : Shared F R) (n : ℕ) (out : List (Stage F) × Shared F R)
      : Type 0 where
    pub stages : out.0 ≡ replicate n (creates f)
    pub fresh_same : fresh out.1 ≡ fresh s

  pub ask_all :
      (n now : ℕ) (f : F) (s : Shared F R)
      → s.limiters.items f ≡ none
      → AllAsked f s n (go_round dec now (replicate n (asks f)) s)
  unfolding go_round go_on Map.get
  ask_all zero now f s e = record { stages = refl; fresh_same = refl }
  ask_all (suc n) now f s e =
      let rest = ask_all n now f (go_on dec now (asks f) s).1 e in
      record {
        stages = ap₂ ◌∷◌ (ap (λ o. elim o [ none ↦ creates f | some p ↦ holds p ]) e) rest.stages;
        fresh_same = rest.fresh_same;
      }

  pub record AllMade (s : Shared F R) (n : ℕ) (out : List (Stage F) × Shared F R) : Type 0 where
    pub stages : out.0 ≡ holding s.next n
    pub made : (p : ℕ) → s.next ≤ p → p < s.next + n → out.1.heap p ≡ fresh s
    pub older : (p : ℕ) → p < s.next → out.1.heap p ≡ s.heap p

  pub make_all :
      (n now : ℕ) (f : F) (s : Shared F R)
      → AllMade s n (go_round dec now (replicate n (creates f)) s)
  unfolding go_round go_on Map.set
  make_all zero now f s = record {
    stages = refl;
    made = λ p l u. absurd (omega arith);
    older = λ p u. refl;
  }
  make_all (suc n) now f s =
      let rest = make_all n now f (go_on dec now (creates f) s).1 in
      record {
        stages = ap (◌∷◌ (holds s.next)) rest.stages;
        made = λ p l u. elim (ℕ_discrete p s.next) [
          | yes e ↦ rest.older p (omega (arith, e)) ∙ if_pos (ℕ_discrete p s.next) e _ _
          | no ne ↦ rest.made p (omega (arith, ne, l)) (omega (arith, u))
        ];
        older = λ p u.
            rest.older p (omega (arith, u))
            ∙ if_neg (ℕ_discrete p s.next) (λ e. absurd (omega (arith, e, u))) _ _;
      }

  pub allow_all :
      (n p now : ℕ) (limiter : Limiter R) (s : Shared F R)
      → (allow now limiter).0 ≡ true
      → ((q : ℕ) → p ≤ q → q < p + n → s.heap q ≡ limiter)
      → (go_round dec now (holding p n) s).0 ≡ replicate n (answered false)
  unfolding go_round go_on
  allow_all zero p now limiter s passes same = refl
  allow_all (suc n) p now limiter s passes same =
      ap₂ ◌∷◌
        (ap (λ lim. answered (not (allow now lim).0)) (same p (omega arith) (omega arith))
          ∙ ap (λ b. answered (not b)) passes)
        (allow_all n (suc p) now limiter (go_on dec now (holds p) s).1 passes λ q l u.
          if_neg (ℕ_discrete q p) (λ e. absurd (omega (arith, e, l))) _ _
          ∙ same q (omega (arith, l)) (omega (arith, u)))

  pub fresh_passes :
      (laws : IsFloat R) (now b : ℕ) (s : Shared F R)
      → s.limiters_burst ≡ pos b
      → 0 < b
      → b < exact_below
      → fl.le (every {R = R} s.limiters_interval) fl.max_float ≡ true
      → (allow now (fresh s)).0 ≡ true
  unfolding allows
  fresh_passes laws now b s burst some_burst small finite =
      ap (λ m. (allow now (new_limiter (every {R = R} s.limiters_interval) m)).0) burst
      ∙ (allows_burst laws (every s.limiters_interval) b (now ∷ []) finite small (omega arith)).0
