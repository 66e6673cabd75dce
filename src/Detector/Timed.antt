-- ===== src/Detector/Timed.antt =====
-- detector/tokenbucket_inmemory.go as a `Detector` of anicetus.go: the state has the clock that
-- `time.Now()` reads, which moves on by an unknown delay before each reading.
use anicetus.Prelude.{ℕ, ◌+◌, Bool, List, [], ◌∷◌}
use anicetus.Errors.{Result, ok}
use anicetus.Rate.Float.{Float64}
use anicetus.Anicetus.{Detector}
use anicetus.Detector.InMemory.{TokenBucketInMemory, cool_down, is_cool_down, is_thundering_herd}

-- After the listed delays the clock stands still.
pub record Clock : Type 0 where
  pub now : ℕ
  pub delays : List ℕ

unfoldable pub read_clock : Clock → ℕ × Clock
read_clock c = elim c.delays [
  | [] ↦ (c.now, c)
  | d ∷ ds ↦ (c.now + d, record { now = c.now + d; delays = ds })
]

pub record Timed (F R : Type 0) : Type 0 where
  pub buckets : TokenBucketInMemory F R
  pub clock : Clock

module _ {F R : Type 0} (dec : Discrete F) ⦃fl : Float64 R⦄ where
  unfoldable pub timed_cool_down : F → Timed F R → Result (Unit {0}) × Timed F R
  timed_cool_down f t =
      let (now, clock) = read_clock t.clock in
      (ok tt, record { buckets = cool_down dec now f t.buckets; clock = clock })

  unfoldable pub timed_is_cool_down : F → Timed F R → Result Bool × Timed F R
  timed_is_cool_down f t =
      let (now, clock) = read_clock t.clock in
      let (cooldown, buckets) = is_cool_down dec now f t.buckets in
      (ok cooldown, record { buckets = buckets; clock = clock })

  unfoldable pub timed_is_thundering_herd : F → Timed F R → Result Bool × Timed F R
  timed_is_thundering_herd f t =
      let (get_at, clock1) = read_clock t.clock in
      let (set_at, clock2) = read_clock clock1 in
      let (allow_at, clock3) = read_clock clock2 in
      let (herd, buckets) = is_thundering_herd dec get_at set_at allow_at f t.buckets in
      (ok herd, record { buckets = buckets; clock = clock3 })

  abbrev pub timed_detector : Detector F (Timed F R)
  timed_detector = record {
    cool_down = timed_cool_down;
    is_cool_down = timed_is_cool_down;
    is_thundering_herd = timed_is_thundering_herd;
  }
