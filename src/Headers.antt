-- ===== src/Headers.antt =====
-- src/main/http_headers.c
pub mod Defs
pub mod Sanitize
pub mod Clean
pub mod Find
pub mod Remove
pub mod Lookup
mod Tests
