-- ===== src/VendorContract.antt =====
-- scripts/vendor-contract.py: copies the contract from a checkout of vizra-core and checks the copies.
pub mod Attempt
pub mod Url
pub mod Git
pub mod Refs
pub mod Manifest
pub mod Vendor
pub mod Check
pub mod RoundTrip
pub mod Touches
mod Tests
