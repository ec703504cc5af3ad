-- ===== src/Chunk.antt =====
-- src/main/chunk.c
pub mod Defs
mod Tests
pub mod Limit
pub mod Queue
pub mod Steal
pub mod Content
pub mod Account
pub mod World
