-- ===== src/Makegate/Dollars.antt =====
-- scripts/makegate.py, `_dollar_problems`: the definitions are in Defs, what a text may say in
-- Language, the loop that finds a closing bracket in Close, and Exact relates the two.
mod Defs
mod Close
mod Language
mod Exact
mod Complete
unfoldable pub use Defs.*
pub use Close.*
pub use Language.*
pub use Exact.*
pub use Complete.*
