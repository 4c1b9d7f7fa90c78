-- ===== src/CheckWorkflows.antt =====
-- scripts/check-workflows.py: no `continue-on-error` on a job or a step.
pub mod Search
pub mod Status
pub mod Found
pub mod Clean
mod Tests
