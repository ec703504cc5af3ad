-- ===== src/Throttle.antt =====
-- src/main/throttle.c: token buckets per request, per worker and per pool.
pub mod Gint
pub mod Defs
pub mod Rearm
pub mod Query
pub mod Pools
pub mod Shares
pub mod Answer
pub mod Single
pub mod Registered
mod Tests
