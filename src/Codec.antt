-- ===== src/Codec.antt =====
-- The encodings of src/utils.c and src/libsmtpmail.
pub mod Url
pub mod Html
pub mod Base64
pub mod Quoted
pub mod QuotedWord
