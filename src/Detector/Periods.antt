-- ===== src/Detector/Periods.antt =====
-- The periods of the maps of detector/tokenbucket_inmemory.go.
use anicetus.Rate.Limiter.{Limiter}
use anicetus.Mapexp.Queue.{new_expiration_queue, new_expiration_queue}
use anicetus.Prelude.{
  zero, ℕ, suc, ◌*◌, ◌^◌, ◌≤◌, ◌<◌, ◌≡◌, refl, none, some, arith, no_entries, ◌-◌, ◌⊎◌, Bool, inl,
  inr,
}
use anicetus.Prelude.Int.{ℤ, pos, negsuc, wrap_int64, mul_ℤ, ◌≤ℤ◌}
use anicetus.Mapexp.Map
use anicetus.Detector.Options.{TokenBucketOptions}
use anicetus.Detector.InMemory.{TokenBucketInMemory, from_options}

new_pos :
    {K V : Type 0} (n : ℕ)
    → 0 < n
    → Map.new {K = K} {V = V} (pos n)
      ≡ some (record { items = no_entries; expiration_queue = new_expiration_queue n })
unfolding Map.new
new_pos zero h = absurd (omega arith)
new_pos (suc n) h = refl

new_nonpos : {K V : Type 0} (z : ℤ) → z ≤ℤ pos 0 → Map.new {K = K} {V = V} z ≡ none
unfolding Map.new
new_nonpos (pos zero) h = refl
new_nonpos (pos (suc n)) h = absurd (omega arith)
new_nonpos (negsuc n) h = refl

-- A product that fits an `int64` does not change.
wrap-mul_fits : (i b : ℕ) → i * b < 2 ^ 63 → wrap_int64 (mul_ℤ (pos i) (pos b)) ≡ pos (i * b)
unfolding wrap_int64
wrap-mul_fits i b h = ground arith

-- One of the upper half of 64 bits is negative as an `int64`.
wrap-mul_overflows :
    (i b : ℕ)
    → 2 ^ 63 ≤ i * b
    → i * b < 2 ^ 64
    → (n : ℕ) × (wrap_int64 (mul_ℤ (pos i) (pos b)) ≡ negsuc n)
unfolding wrap_int64
wrap-mul_overflows i b h k = (2 ^ 64 - 1 - i * b, ground arith)

module _ {F R L : Type 0} where
  -- With a positive cooldown, interval and burst whose product fits an `int64` the detector is
  -- built, it is empty, the cooldowns live for the cooldown interval and the limiters for the time
  -- in which a bucket fills.
  pub from_options_fits :
      (o : TokenBucketOptions L) (c i b : ℕ)
      → o.cool_down_interval ≡ pos c
      → o.limiters_interval ≡ pos i
      → o.limiters_burst ≡ pos b
      → 0 < c
      → 0 < i * b
      → i * b < 2 ^ 63
      → (t : TokenBucketInMemory F R) × (from_options o ≡ some t)
        × (t.cooldowns.items ≡ no_entries)
        × (t.limiters.items ≡ no_entries)
        × (t.cooldowns.expiration_queue.ttl ≡ c)
        × (t.limiters.expiration_queue.ttl ≡ i * b)
        × (t.limiters_burst ≡ pos b)
        × (t.limiters_interval ≡ pos i)
  unfolding from_options
  from_options_fits o c i b p q r hc hb fits = (
    record {
      cooldowns = record { items = no_entries; expiration_queue = new_expiration_queue c };
      limiters = record { items = no_entries; expiration_queue = new_expiration_queue (i * b) };
      limiters_burst = o.limiters_burst;
      limiters_interval = o.limiters_interval;
    },
    ground (
      arith,
      new_pos {K = F} {V = Bool} c hc,
      new_pos {K = F} {V = Limiter R} (i * b) hb,
      wrap-mul_fits i b fits,
    ),
    refl,
    refl,
    refl,
    refl,
    r,
    q,
  )

  -- The detector panics at a burst or an interval of zero, at a cooldown that is not positive, and
  -- where the product of interval and burst overflows into the sign of the `int64`.
  pub from_options_panics :
      (o : TokenBucketOptions L) (i b : ℕ)
      → o.limiters_interval ≡ pos i
      → o.limiters_burst ≡ pos b
      → (o.cool_down_interval ≤ℤ pos 0) ⊎ (i * b ≡ 0) ⊎ (2 ^ 63 ≤ i * b) × (i * b < 2 ^ 64)
      → from_options {F = F} {R = R} o ≡ none
  unfolding from_options
  from_options_panics o i b q r (inl h) =
      ground (arith, new_nonpos {K = F} {V = Bool} o.cool_down_interval h)
  from_options_panics o i b q r (inr (inl h)) = ground (
    arith,
    wrap-mul_fits i b (omega arith),
    new_nonpos {K = F} {V = Limiter R} (pos (i * b)) (omega arith),
  )
  from_options_panics o i b q r (inr (inr (low, high))) =
      let (n, e) = wrap-mul_overflows i b low high in
      ground (arith, e, new_nonpos {K = F} {V = Limiter R} (negsuc n) (omega arith))
