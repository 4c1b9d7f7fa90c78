-- ===== src/VendorContract/RoundTrip.antt =====
-- scripts/vendor-contract.py: `check` on the files that `vendor` left.
pub mod Kept
pub mod Consistent
pub mod Core
pub mod Respelled
use vizra_search.Base.{
  subst, ℕ, true, false, ◌≡◌, refl, sym, ap, ap₂, ◌∙◌, Option, none, some, List, [], ◌++◌, map,
  mem_str,
}
use vizra_search.Json.{object}
use vizra_search.VendorContract.Attempt.{got-inj, Attempt, got, ◌>>=◌, ◌>>◌}
use vizra_search.VendorContract.Git.{Checkout}
use vizra_search.VendorContract.Url.{canonical_owner_repo}
use vizra_search.VendorContract.Manifest.{Files, Host, Manifest, manifest_path, load_manifest}
use vizra_search.VendorContract.Vendor.{Args, Provenance, measure, vendor}
use vizra_search.VendorContract.Vendor.Copied.{ShownAll, WritesOneFile, path_of}
use vizra_search.VendorContract.Vendor.Refines.{vendor-IsVendored}
use vizra_search.VendorContract.Vendor.Updated.{written_manifest}
use vizra_search.VendorContract.RoundTrip.Kept.{ReadsBack}
use vizra_search.VendorContract.RoundTrip.Consistent.{
  HasFullIds, IsConsistent, vendored-IsConsistent,
}
use vizra_search.VendorContract.RoundTrip.Core.{KnowsTip, check_core-written}
use vizra_search.VendorContract.Check.{
  check_status, check_with, Problem, check_files, check_fields, check_problems, check,
}

-- The arguments of `--check` with this checkout, or with none.
abbrev pub checking : Args → Option Checkout → Args
checking args core = record args { core = core; check = true }

-- `check_problems` from the manifest on.
abbrev problems_of :
    Host
    → Args
    → Option Checkout
    → Files
    → Attempt (List Problem)
    → Attempt (List Problem)
    → Attempt (List Problem)
    → Attempt ℕ
problems_of h args with_core disk a b c =
    (do x ← a; y ← b; z ← c; got (x ++ y ++ z)) >>= λ problems. got (check_status problems)

consistent-check :
    (h : Host) (core : Checkout) (args : Args) (with_core : Option Checkout) (m : Manifest)
    (p : Provenance) (disk : Files)
    → IsConsistent h core args m p disk
    → check_with h (checking args with_core) (written_manifest h core args p m) with_core ≡ got []
    → check h (checking args with_core) disk ≡ got 0
unfolding check check_problems
consistent-check h core args with_core m p disk c of_core =
    ap
      (λ (l : Attempt Manifest).
        (l >>= λ n. do
          of_fields ← check_fields n.fields
          of_files ← check_files h disk n.files
          of_core ← check_with h (checking args with_core) n with_core
          got (of_fields ++ of_files ++ of_core))
        >>= λ problems. got (check_status problems))
      c.loaded
    ∙ ap₂
        (λ a b.
          problems_of h args with_core disk a b
            (check_with h (checking args with_core) (written_manifest h core args p m) with_core))
        c.fields c.files
    ∙ ap (problems_of h args with_core disk (got []) (got [])) of_core

-- As check_core-vendor, for `--check` without a checkout, and without the condition that git knows
-- the tip.
pub check-vendor :
    (h : Host) (core : Checkout) (args : Args) (disk : Files) (m : Manifest) (p : Provenance)
    → WritesOneFile h
    → ReadsBack h (object (written_manifest h core args p m).fields)
    → load_manifest h disk ≡ got m
    → measure core args ≡ got p
    → p.owner_repo ≡ canonical_owner_repo
    → HasFullIds p
    → mem_str manifest_path (map path_of m.files) ≡ false
    → (vendor h core args disk).0 ≡ got 0
    → check h (checking args none) (vendor h core args disk).1 ≡ got 0
check-vendor h core args disk m p law back loaded measured spelled ids apart k =
    consistent-check h core args none m p _
      (vendored-IsConsistent h core args m p disk _ back loaded measured spelled ids apart
        (vendor-IsVendored h core args disk law k))
      refl

-- If vendor ends with status 0 and json reads the manifest back, then `--check` with the same
-- checkout and arguments ends with status 0 on the files that it left. Conditions: a write that
-- raises nothing changes its own file only, the manifest does not list itself, the remote's owner
-- and name have the canonical spelling, the commit has 40 characters, and the tip is a full id of a
-- commit that is on the ref with the pinned commit in its history.
pub check_core-vendor :
    (h : Host) (core : Checkout) (args : Args) (disk : Files) (m : Manifest) (p : Provenance)
    → WritesOneFile h
    → ReadsBack h (object (written_manifest h core args p m).fields)
    → load_manifest h disk ≡ got m
    → measure core args ≡ got p
    → p.owner_repo ≡ canonical_owner_repo
    → HasFullIds p
    → mem_str manifest_path (map path_of m.files) ≡ false
    → KnowsTip core p
    → (vendor h core args disk).0 ≡ got 0
    → check h (checking args (some core)) (vendor h core args disk).1 ≡ got 0
unfolding measure
check_core-vendor h core args disk m p law back loaded measured spelled ids apart knows k =
    let v = vendor-IsVendored h core args disk law k in
    let shown =
      subst (λ (x : Provenance × Manifest). ShownAll core x.0.commit x.1.files)
        (ap₂ (λ (q : Provenance) (n : Manifest). (q, n)) (got-inj (sym v.measured ∙ measured))
          (got-inj (sym v.loaded ∙ loaded)))
        v.shown in
    consistent-check h core args (some core) m p _
      (vendored-IsConsistent h core args m p disk _ back loaded measured spelled ids apart v)
      (check_core-written h core (checking args (some core)) args m p measured ids.tip knows shown)
