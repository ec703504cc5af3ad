-- ===== src/Wait.antt =====
-- src/common/waitqueue.c
pub mod Defs
pub mod Chain
pub mod Unlink
pub mod Remove
pub mod Pop
pub mod Push
pub mod Ready
mod Tests
