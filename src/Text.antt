-- ===== src/Text.antt =====
-- Go strings: lists of bytes. Equality, the ASCII literals, and the character classes of the
-- program's patterns; the children decode UTF-8 and prove the laws of equality.
mod Core
pub mod Utf8
pub mod Laws
pub mod Distinct
unfoldable pub use Core.*
