-- ===== src/Rate/Limiter.antt =====
-- internal/rate/rate.go: `Every`, `NewLimiter`, `Allow` and what they call. A time is the number of
-- nanoseconds since the zero time, a duration an `int64` of nanoseconds. `AllowN` takes what
-- `time.Now()` returns; its mutex makes it one step.
use anicetus.Prelude.{ℕ, ◌+◌, ◌-◌, ◌^◌, Bool, true, false, ◌&&◌, if◌then◌else◌, ltb}
use anicetus.Prelude.Int.{ℤ, pos, negsuc, pos_part, neg_part, leb_ℤ, sub_ℕ}
use anicetus.Rate.Float.{Float64, of_ℕ, seconds}

-- `math.MaxInt64`, also `InfDuration`
abbrev pub max_int64 : ℕ
max_int64 = 2 ^ 63 - 1

-- `t.Sub(u)` saturates at both ends of `int64`.
unfoldable pub sub_time : ℕ → ℕ → ℤ
sub_time t u =
    if ltb (u + max_int64) t
    then pos max_int64
    else (if ltb (t + max_int64) u then negsuc max_int64 else sub_ℕ t u)

-- `t.Add(d)`
unfoldable pub add_time : ℕ → ℤ → ℕ
add_time t d = t + pos_part d - neg_part d

pub record Limiter (R : Type 0) : Type 0 where
  pub limit : R
  pub burst : ℤ
  pub tokens : R
  pub last : ℕ
  pub last_event : ℕ

-- A reservation without its pointer to the limiter.
pub record Reservation (R : Type 0) : Type 0 where
  pub ok : Bool
  pub tokens : ℤ
  pub time_to_act : ℕ
  pub limit : R

module _ {R : Type 0} ⦃fl : Float64 R⦄ where
  unfoldable pub every : ℤ → R
  every interval =
      if leb_ℤ interval (pos 0) then fl.max_float else fl.div (of_ℕ 1) (seconds interval)

  unfoldable pub new_limiter : R → ℤ → Limiter R
  new_limiter r b = record { limit = r; burst = b; tokens = fl.of_int b; last = 0; last_event = 0 }

  unfoldable pub duration_from_tokens : R → R → ℤ
  duration_from_tokens limit tokens =
      if fl.le limit (of_ℕ 0)
      then pos max_int64
      else (let duration = fl.mul (fl.div tokens limit) (of_ℕ 1_000_000_000) in
          if fl.lt (of_ℕ max_int64) duration then pos max_int64 else fl.to_duration duration)

  unfoldable pub tokens_from_duration : R → ℤ → R
  tokens_from_duration limit d = if fl.le limit (of_ℕ 0) then of_ℕ 0 else fl.mul (seconds d) limit

  -- The tokens at `t`; the time that the code returns beside them is `t` itself.
  unfoldable pub advance : ℕ → Limiter R → R
  advance t lim =
      let last = if ltb t lim.last then t else lim.last in
      let tokens = fl.add lim.tokens (tokens_from_duration lim.limit (sub_time t last)) in
      let burst = fl.of_int lim.burst in if fl.lt burst tokens then burst else tokens

  unfoldable pub reserve_n : ℕ → ℤ → ℤ → Limiter R → Reservation R × Limiter R
  reserve_n t n max_future_reserve lim =
      if fl.eq lim.limit fl.max_float
      then (record { ok = true; tokens = n; time_to_act = t; limit = of_ℕ 0 }, lim)
      else (let tokens = fl.sub (advance t lim) (fl.of_int n) in
          let wait_duration =
            if fl.lt tokens (of_ℕ 0)
            then duration_from_tokens lim.limit (fl.neg tokens)
            else pos 0 in
          let time_to_act = add_time t wait_duration in
          if leb_ℤ n lim.burst && leb_ℤ wait_duration max_future_reserve
          then (
            record { ok = true; tokens = n; time_to_act = time_to_act; limit = lim.limit },
            record lim { tokens = tokens; last = t; last_event = time_to_act },
          )
          else (
            record { ok = false; tokens = pos 0; time_to_act = time_to_act; limit = lim.limit },
            record lim { tokens = of_ℕ 0; last = t; last_event = time_to_act },
          ))

  unfoldable pub allow_n : ℕ → ℤ → Limiter R → Bool × Limiter R
  unfolding reserve_n
  allow_n t n lim = let (r, lim') = reserve_n t n (pos 0) lim in (r.ok, lim')

  unfoldable pub allow : ℕ → Limiter R → Bool × Limiter R
  unfolding allow_n
  allow now lim = allow_n now (pos 1) lim
