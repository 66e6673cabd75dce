-- ===== src/Detector/Redis.antt =====
-- detector/redigo/tokenbucket_redis.go: the token bucket that keeps its state in Redis.
pub mod Connection
pub mod Script
pub mod Client
pub mod Keys
pub mod Documented
pub mod Buckets
pub mod Asking
pub mod Herds
pub mod Penalty
pub mod Done
pub mod Cooling
pub mod Sample
mod Tests
