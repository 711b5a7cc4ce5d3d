-- ===== src/Base/Bits.antt =====
-- The bits of a number, and what the native bit operations do to each.
mod Step
mod Laws
unfoldable pub use Step.{bit}
pub use Step.{bit-and, bit-or, bit-xor, bit_ext, bit_or_step}
unfoldable pub use Laws.{complement}
pub use Laws.*
