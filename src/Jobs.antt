-- ===== src/Jobs.antt =====
-- src/common/jobqueue.c
pub mod Defs
pub mod Liveness
mod Tests
