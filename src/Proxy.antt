-- ===== src/Proxy.antt =====
-- src/main/proxy_protocol.c
pub mod Defs
pub mod Parse
pub mod RoundTrip
pub mod Text
pub mod Fields
mod Tests
