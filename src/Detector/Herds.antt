-- ===== src/Detector/Herds.antt =====
-- What `IsThunderingHerd` of detector/tokenbucket_inmemory.go answers.
use anicetus.Rate.Detection.{herd_detected}
use anicetus.Rate.Penalty.{IsShort}
use anicetus.Prelude.{
  zero, suc, ◌∙◌, ℕ, ◌≡◌, ◌≢◌, refl, Bool, true, false, not, List, [], ◌∷◌, none, some, arith, ite,
  if_pos, if_neg, map, replicate, ◌++◌, ◌<◌, ◌∙◌, ap,
}
use anicetus.Prelude.Int.{pos}
use anicetus.Mapexp.Map
use anicetus.Mapexp.Map.{Map}
use anicetus.Rate.Float.{Float64, IsFloat, exact_below}
use anicetus.Rate.Limiter.{Limiter, every, new_limiter, allow}
use anicetus.Rate.Burst.{allows}
use anicetus.Detector.InMemory.{TokenBucketInMemory, is_thundering_herd}

map-not-replicate :
    (b k : ℕ)
    → map not (replicate b true ++ replicate k false) ≡ replicate b false ++ replicate k true
map-not-replicate zero zero = refl
map-not-replicate zero (suc k) = ap (◌∷◌ true) (map-not-replicate zero k)
map-not-replicate (suc b) k = ap (◌∷◌ false) (map-not-replicate b k)

-- A call of `IsThunderingHerd`.
pub record Check (F : Type 0) : Type 0 where
  pub get_at : ℕ
  pub set_at : ℕ
  pub allow_at : ℕ
  pub fingerprint : F

module _ {F : Type 0} (dec : Discrete F) where
  -- When the calls with the fingerprint call `Allow`.
  unfoldable pub times_for : F → List (Check F) → List ℕ
  times_for f [] = []
  times_for f (c ∷ cs) =
      let rest = times_for f cs in ite (dec c.fingerprint f) (c.allow_at ∷ rest) rest

module _ {F R : Type 0} (dec : Discrete F) ⦃fl : Float64 R⦄ where
  abbrev pub checked : Check F → TokenBucketInMemory F R → Bool × TokenBucketInMemory F R
  checked c = is_thundering_herd dec c.get_at c.set_at c.allow_at c.fingerprint

  -- The answers to the calls with the fingerprint.
  unfoldable pub answers_for : F → List (Check F) → TokenBucketInMemory F R → List Bool
  answers_for f [] t = []
  answers_for f (c ∷ cs) t =
      let (herd, t') = checked c t in
      let rest = answers_for f cs t' in ite (dec c.fingerprint f) (herd ∷ rest) rest

  -- The limiter of the fingerprint, a new one if it has none.
  abbrev pub limiter_of : F → TokenBucketInMemory F R → Limiter R
  limiter_of f t = elim (t.limiters.items f) [
    | none ↦ new_limiter (every t.limiters_interval) t.limiters_burst
    | some limiter ↦ limiter
  ]

  pub limiter_of_new :
      (f : F) (t : TokenBucketInMemory F R)
      → t.limiters.items f ≡ none
      → limiter_of f t ≡ new_limiter (every t.limiters_interval) t.limiters_burst
  limiter_of_new f t e = ground arith

  checked_other :
      (f : F) (c : Check F) (t : TokenBucketInMemory F R)
      → c.fingerprint ≢ f
      → limiter_of f (checked c t).1 ≡ limiter_of f t
  unfolding is_thundering_herd Map.get Map.set
  checked_other f c t ne = ground arith

  pub checked_own :
      (f : F) (c : Check F) (t : TokenBucketInMemory F R)
      → c.fingerprint ≡ f
      → let (allowed, limiter) = allow c.allow_at (limiter_of f t) in
        ((checked c t).0 ≡ not allowed) × (limiter_of f (checked c t).1 ≡ limiter)
  unfolding is_thundering_herd Map.get Map.set
  checked_own f c t e = ground arith

  -- The detector answers each fingerprint by a limiter of its own: a request is in a herd exactly
  -- when that limiter denies it, whatever requests with other fingerprints come in between.
  pub answers_own_limiter :
      (f : F) (cs : List (Check F)) (t : TokenBucketInMemory F R)
      → answers_for f cs t ≡ map not (allows (times_for dec f cs) (limiter_of f t))
  unfolding answers_for times_for allows
  answers_own_limiter f [] t = refl
  answers_own_limiter f (c ∷ cs) t = elim (dec c.fingerprint f) [
    | yes p ↦
        let (herd, same) = checked_own f c t p in
        rw (if_pos _ p)
          (rw (if_pos _ p) (rw (answers_own_limiter f cs (checked c t).1, herd, same) refl))
    | no p ↦ rw (if_neg _ p) (
        rw (if_neg _ p) (rw (answers_own_limiter f cs (checked c t).1, checked_other f c t p) refl))
  ]

  -- When `b + k` requests with one fingerprint that has no limiter yet come at once, among any
  -- others, the detector of burst `b` lets the first `b` pass and sees a herd in the rest.
  pub answers_herd :
      (laws : IsFloat R) (f : F) (cs : List (Check F)) (t : TokenBucketInMemory F R) (b k now : ℕ)
      → t.limiters.items f ≡ none
      → t.limiters_burst ≡ pos b
      → 0 < b
      → b < exact_below
      → let r : R = every t.limiters_interval in
        fl.le r fl.max_float ≡ true
        → fl.eq r fl.max_float ≡ false
        → IsShort r 0
        → times_for dec f cs ≡ replicate b now ++ replicate k now
        → answers_for f cs t ≡ replicate b false ++ replicate k true
  answers_herd laws f cs t b k now absent burst some_burst small finite limited short times =
      answers_own_limiter f cs t
      ∙ ap (map not) (
          rw (times, limiter_of_new f t absent, burst)
            (herd_detected laws (every t.limiters_interval) b k now finite limited small some_burst
              short))
      ∙ map-not-replicate b k
