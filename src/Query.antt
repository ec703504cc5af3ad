-- ===== src/Query.antt =====
-- src/common/utils.c: li_querystring_find.
pub mod Find
pub mod Laws
mod Tests
