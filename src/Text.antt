-- ===== src/Text.antt =====
-- Go strings as lists of bytes, with the functions of package strings that the service calls.
-- ASCII letters have case; bytes from 128 up are compared and kept as they stand.
mod Basic
pub mod Trim
pub mod Search
pub mod Split
pub mod Order
pub mod Decimal
pub use Basic.{Bytes, codes, lower_byte}
unfoldable pub use Basic.{bytes_eq, to_lower, equal_fold, compare_bytes}
pub use Basic.{bytes_eq_iff, Bytes-discrete}
