-- ===== src/Rate/Tests.antt =====
-- internal/rate/rate.go at concrete limiters, over the decimal arithmetic.
use anicetus.Prelude.{◌≡◌, refl}
use anicetus.Prelude.Int.{ℤ, pos}
use anicetus.Rate.Float.{seconds}
use anicetus.Rate.Fixed.{fixed}
use anicetus.Rate.Limiter.{Limiter, every}

-- One token a second.
abbrev one_per_second : ℤ
one_per_second = pos 1_000_000_000

abbrev drained : Limiter ℤ
drained = record { limit = one_per_second; burst = pos 2; tokens = pos 0; last = 0; last_event = 0 }

every_second : every (pos 1_000_000_000) ≡ one_per_second
unfolding every seconds
every_second = refl
