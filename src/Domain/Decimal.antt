-- ===== src/Domain/Decimal.antt =====
-- Python's `decimal.Decimal` as the program uses it. A finite value is a whole number of units of
-- 10^-28: sums are exact, and products and quotients are rounded half to even at the last unit.
-- Python keeps 28 significant digits where this keeps 28 decimal places, and the two agree on every
-- result that has no more than either. A signed zero and the number of trailing zeros are not
-- values, and are left out.
mod Ops
pub mod Laws
pub mod Exact
unfoldable pub use Ops.*
