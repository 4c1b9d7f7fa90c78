-- ===== src/GoTestReport.antt =====
-- scripts/go-test-report.py: the verdict on a `go test -json` lane.
pub mod Inputs
pub mod Tally
pub mod Counted
pub mod Verdict
pub mod Floors
pub mod Passes
pub mod Lane
pub mod Clean
mod Tests
