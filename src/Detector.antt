-- ===== src/Detector.antt =====
-- detector: the options of a token bucket, and the token bucket that keeps its state in memory.
pub mod Options
pub mod InMemory
pub mod Periods
pub mod Cooldowns
pub mod Herds
pub mod Timed
pub mod Redis
pub mod Shared
mod Tests
