-- ===== src/Go.antt =====
-- What the modelled functions return, and the slice and byte-order operations that they share.
-- A byte slice is a list of numbers whose capacity is its length. A function that returns
-- `(value, error)` returns an `Outcome`; `panic` is a run-time panic, such as an index out of range.
pub mod Word
pub mod Slice
pub mod Text
mod Defs
unfoldable pub use Defs.*
