-- ===== src/Regex.antt =====
-- Python's `re`, which the scripts use throughout: the patterns and the engine are in Defs, what a
mod Defs
mod Language
mod Sound
mod Complete
mod Runs
unfoldable pub use Defs.*
pub use Language.*
pub use Sound.*
pub use Complete.*
pub use Runs.*
