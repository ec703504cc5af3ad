-- ===== src/Angel.antt =====
-- src/common/angel_data.c
pub mod Defs
pub mod Read
pub mod Errors
pub mod RoundTrip
mod Tests
