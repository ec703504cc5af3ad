-- ===== src/Path/Walk.antt =====
-- The walk over a path: what has been written are whole segments and the token that is written now.
pub mod Tokens
pub mod Ends
pub mod Simple
