-- ===== src/Actions.antt =====
-- src/main/actions.c: the interpreter that runs the configuration for a request.
pub mod Defs
pub mod Stack
pub mod Execute
pub mod Meaning
pub mod Failure
pub mod Release
mod Tests
