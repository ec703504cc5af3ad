-- ===== src/Radix.antt =====
-- src/common/radix.c: the radix tree of bit strings, which holds address ranges.
pub mod Word
pub mod Tree
pub mod Insert
pub mod Split
pub mod Exact
pub mod Longest
pub mod Others
pub mod Update
pub mod Remove
mod Tests
