-- ===== src/Makegate/Grammar.antt =====
-- scripts/makegate.py, `grammar_problems`: the allowlist of line shapes. The definitions are in Defs.
mod Defs
mod Tests
pub mod Shapes
pub mod Sound
pub mod Recipes
unfoldable pub use Defs.*
