-- ===== src/Chunked.antt =====
-- src/main/filter_chunked.c: the chunked transfer encoding.
mod Tests
pub mod Encode
pub mod Decode
pub mod Feed
pub mod Resume
pub mod Hex
pub mod Wire
pub mod RoundTrip
pub mod Wrap
pub mod Queues
