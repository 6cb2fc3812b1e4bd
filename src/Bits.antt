-- ===== src/Bits.antt =====
-- Laws of the bit operations at variables, from the recursion on binary digits that they stand for.
mod Step
pub mod Xor
pub mod Mask
