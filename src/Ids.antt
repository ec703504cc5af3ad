-- ===== src/Ids.antt =====
-- src/common/idlist.c
pub mod IdList
pub mod Laws
pub mod Stuck
mod Tests
