-- ===== src/Makegate.antt =====
-- scripts/makegate.py: the gate that every `make` of the repository goes through.
pub mod Comment
pub mod Lines
pub mod Patterns
pub mod Dollars
pub mod Characters
pub mod Grammar
pub mod Pin
pub mod Rules
pub mod ReadSet
pub mod Reviewed
pub mod Environ
pub mod Gate
mod Tests
