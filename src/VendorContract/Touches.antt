-- ===== src/VendorContract/Touches.antt =====
-- scripts/vendor-contract.py, `main`: when a run changes a file.
use vizra_search.Base.{if◌then◌else◌, true, false, Bool, ◌≡◌, ◌≢◌, refl, Option, none, some}
use vizra_search.VendorContract.Git.{Checkout}
use vizra_search.VendorContract.Manifest.{Files, Host}
use vizra_search.VendorContract.Vendor.{Args}
use vizra_search.VendorContract.Vendor.Refines.{IsPrepared, vendor-touches}
use vizra_search.VendorContract.Check.{check, main, run_given}

run_given-touches :
    (h : Host) (args : Args) (disk : Files) (given : Option Checkout)
    → (run_given h args given disk).1 ≢ disk
    → ((core : Checkout) × (given ≡ some core) × IsPrepared h core args disk)
run_given-touches h args disk none t = absurd (t refl)
run_given-touches h args disk (some core) t = (core, refl, vendor-touches h core args disk t)

main-touches_lem :
    (h : Host) (args : Args) (disk : Files) (checks : Bool)
    → (if checks then (check h args disk, disk) else run_given h args args.core disk).1 ≢ disk
    → (checks ≡ false) × ((core : Checkout) × (args.core ≡ some core) × IsPrepared h core args disk)
main-touches_lem h args disk true t = absurd (t refl)
main-touches_lem h args disk false t = (refl, run_given-touches h args disk args.core t)

-- A run of vendor-contract that changes any file is no `--check`, and before it the manifest loaded,
-- the remote named github.com and the canonical repository up to capitals, git did not answer that
-- the history is shallow, the ref resolved to the remote's main as a commit, and the pinned commit
-- was on it.
pub main-touches :
    (h : Host) (args : Args) (disk : Files)
    → (main h args disk).1 ≢ disk
    → (args.check ≡ false)
      × ((core : Checkout) × (args.core ≡ some core) × IsPrepared h core args disk)
unfolding main
main-touches h args disk t = main-touches_lem h args disk args.check t
