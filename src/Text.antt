-- ===== src/Text.antt =====
-- What the controllers use of Go's `sort` and `path` packages, on native texts. A Go string is a
-- sequence of bytes; the model reads it as text. On valid UTF-8 the order by bytes, which Go uses, is
-- the order by characters.
pub mod Order
pub mod Sort
pub mod Paths
pub mod Decimal
pub mod Number
pub mod Fold
pub mod Space
