-- ===== src/MakeIntegrity.antt =====
-- scripts/make-integrity-guard.py: the anchor, the first make step of a lane.
pub mod Recipe
pub mod Text
pub mod Environment
pub mod Resolver
pub mod Checks
pub mod Anchor
pub mod Closure
pub mod Total
pub mod Closed
pub mod Reached
mod Tests
