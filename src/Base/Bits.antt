-- ===== src/Base/Bits.antt =====
-- Laws of `&`, `|` and `^` at variables: the step from one binary digit to the rest, the digits of
-- a result, masks of low bits, single bits, and fields that do not overlap.
mod Step
mod Digits
mod Masks
mod Complement
pub use Digits.*
pub use Masks.*
pub use Complement.*
