-- ===== src/Rate.antt =====
-- internal/rate: the part of the rate limiter that the detectors call, with the penalty that this
-- repository adds to it.
pub mod Float
pub mod Limiter
pub mod Burst
pub mod Penalty
pub mod Detection
pub mod Fixed
mod Tests
