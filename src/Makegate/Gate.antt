-- ===== src/Makegate/Gate.antt =====
-- scripts/makegate.py, the steps of the gate in their order, and the commands that go through it.
pub mod Machine
pub mod Bytes
pub mod Program
pub mod Run
pub mod Steps
pub mod Digests
pub mod Texts
pub mod Opens
pub mod Started
pub mod Commands
mod Tests
