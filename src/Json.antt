-- ===== src/Json.antt =====
-- The values of a JSON column or body, and Python's `dict` as the code uses it: `get`, item
-- assignment, `update` and truth.
mod Defs
mod Laws
unfoldable pub use Defs.*
pub use Laws.*
