-- ===== src/Text.antt =====
-- Text as lists of code points, with the methods of `str` that the source calls.
pub mod Chars
pub mod Split
pub mod Cells
pub mod Decimal
pub mod Signed
pub mod Utf8
