-- ===== src/VendorContract/RoundTrip/Respelled.antt =====
-- scripts/vendor-contract.py: a remote whose owner or name is not spelled as the manifest asks.
use vizra_search.Base.{false, not, ◌≡◌, ap, ◌∙◌, map, Str, codes, str_eq}
use vizra_search.Json.{Dict, Json, text, object, get}
use vizra_search.VendorContract.Attempt.{die_if, foreign_manifest, got, died, ◌>>=◌, ◌>>◌}
use vizra_search.VendorContract.Git.{Checkout}
use vizra_search.VendorContract.Url.{canonical_owner_repo}
use vizra_search.VendorContract.Manifest.{
  check_files, manifest_of, names_repository, names_repository, manifest_of, Files, Host, Manifest,
  load_manifest, check_manifest,
}
use vizra_search.VendorContract.Vendor.{Args, Provenance, measure, vendor, updated}
use vizra_search.VendorContract.Vendor.Copied.{WritesOneFile, pinned}
use vizra_search.VendorContract.Vendor.Refines.{vendor-IsVendored}
use vizra_search.VendorContract.Vendor.Updated.{get-updated-repository, written_manifest}
use vizra_search.VendorContract.RoundTrip.Consistent.{load_manifest-written}
use vizra_search.VendorContract.RoundTrip.Kept.{ReadsBack}

manifest_of-respelled :
    (fields : Dict) (repository : Json) (listed : Json) (owner_repo : Str)
    → repository ≡ text owner_repo
    → str_eq owner_repo canonical_owner_repo ≡ false
    → manifest_of fields repository listed ≡ died foreign_manifest
unfolding manifest_of
manifest_of-respelled fields repository listed owner_repo is other =
    ap
      (λ b.
        die_if (not b) foreign_manifest
        >> (check_files listed >>= λ files. got (record { fields = fields; files = files })))
      (ap names_repository is ∙ other)

-- If vendor ends with status 0 for a remote that is accepted with other capitals than the canonical
-- spelling, the manifest that it wrote is refused when it is read. Conditions: a write that raises
-- nothing changes its own file only, and json reads the manifest back.
pub load_manifest-vendor_respelled :
    (h : Host) (core : Checkout) (args : Args) (disk : Files) (m : Manifest) (p : Provenance)
    → WritesOneFile h
    → ReadsBack h (object (written_manifest h core args p m).fields)
    → load_manifest h disk ≡ got m
    → measure core args ≡ got p
    → str_eq p.owner_repo canonical_owner_repo ≡ false
    → (vendor h core args disk).0 ≡ got 0
    → load_manifest h (vendor h core args disk).1 ≡ died foreign_manifest
unfolding check_manifest
load_manifest-vendor_respelled h core args disk m p law back loaded measured other k =
    let files = map (pinned h core p.commit) m.files in
    let fields = updated h args p m.fields files in
    load_manifest-written h core args m p disk _ back loaded measured
      (vendor-IsVendored h core args disk law k)
    ∙ manifest_of-respelled fields (get (codes "source_repository") fields)
        (get (codes "files") fields) p.owner_repo (get-updated-repository h args p m.fields files)
        other
