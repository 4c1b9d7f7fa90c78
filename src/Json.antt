-- ===== src/Json.antt =====
-- The values that Python's json.loads gives, which scripts/go-test-report.py and
-- scripts/vendor-contract.py read, with the operations of a dict.
mod Decoded
mod Laws
unfoldable pub use Decoded.*
pub use Laws.*
