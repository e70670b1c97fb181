-- ===== src/Xstr.antt =====
-- src/libxstr/xstr.c: bounded copies, trimming, numbers, field splitting, UTF-8 positions.
pub mod Copy
pub mod Trim
pub mod Number
pub mod Split
pub mod Utf8
pub mod Case
