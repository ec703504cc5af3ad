-- ===== src/Path.antt =====
-- src/common/utils.c: li_path_simplify.
pub mod Simplify
pub mod Segments
pub mod Memory
pub mod Walk
mod Tests
