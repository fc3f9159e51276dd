-- ===== src/Bits.antt =====
-- Laws of `&`, `|` and `~` at variables, for the masks and the single bits that the kernel uses.
mod Step
mod Masks
mod Single
pub use Step.{bit_and_step, bit_or_step, bit_and-zero, bit_or-zero, zero-bit_or}
pub use Masks.*
unfoldable pub use Single.*
