-- ===== src/Mapexp.antt =====
-- internal/mapexp: the map whose entries expire, and the queue of their expirations.
pub mod Queue
pub mod Map
pub mod Entries
pub mod Calls
pub mod Lifetime
pub mod Purging
pub mod Tidy
pub mod Unread
pub mod Sections
pub mod Interleaved
pub mod Stopping
mod Tests
