-- ===== src/Encoding.antt =====
-- src/common/encoding.c and li_url_decode of src/common/utils.c.
pub mod Encode
pub mod Append
pub mod Decode
pub mod Laws
mod Tests
