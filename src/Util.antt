-- ===== src/Util.antt =====
-- spike/base/Util.h and Util.cpp: the string helpers of `StringUtil`.
pub mod Url
pub mod Trim
mod Tests
