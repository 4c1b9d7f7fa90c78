-- ===== src/VendorContract/Vendor/Refines.antt =====
-- scripts/vendor-contract.py, `vendor` and `main`: what a run does to the files.
use vizra_search.Base.{
  ℕ, Bool, true, false, ◌≡◌, ◌≢◌, refl, sym, ap, ◌∙◌, Option, none, some, List, map,
}
use vizra_search.Json.{object, Dict}
use vizra_search.VendorContract.Attempt.{Attempt, got, died, raised, bind-got, then-got, got-inj}
use vizra_search.VendorContract.Git.{Checkout, gits}
use vizra_search.VendorContract.Manifest.{
  write_printed, ended, Files, Host, FileEntry, Manifest, manifest_path, load_manifest,
  write_manifest,
}
use vizra_search.VendorContract.Vendor.{
  Args, Provenance, subject_args, measure, vendor_files, updated, finish_vendor, prepare,
  run_vendor, vendor,
}
use vizra_search.VendorContract.Vendor.Measured.{IsMeasured, measure-IsMeasured}
use vizra_search.VendorContract.Vendor.Copied.{
  overwrite, WritesOneFile, core_bytes, copy_all, path_of, pinned, ShownAll, vendor_files-got,
}

-- What is known once the first write may happen.
pub record IsPrepared (h : Host) (core : Checkout) (args : Args) (disk : Files) : Type 0 where
  pub manifest : Manifest
  pub loaded : load_manifest h disk ≡ got manifest
  pub provenance : Provenance
  pub measured : measure core args ≡ got provenance
  pub true_of_core : IsMeasured core args provenance

pub prepare-IsPrepared :
    (h : Host) (core : Checkout) (args : Args) (disk : Files) {x : Manifest × Provenance}
    → prepare h core args disk ≡ got x
    → (load_manifest h disk ≡ got x.0) × (measure core args ≡ got x.1)
unfolding prepare
prepare-IsPrepared h core args disk e =
    let (m, loaded, e1) = bind-got (load_manifest h disk) _ e in
    let (p, measured, e2) = bind-got (measure core args) _ e1 in
    let (subject, shown, e3) = bind-got (gits core (subject_args p.commit)) _ e2 in
    (
      loaded ∙ ap (λ (y : Manifest × Provenance). got y.0) (got-inj e3),
      measured ∙ ap (λ (y : Manifest × Provenance). got y.1) (got-inj e3),
    )

run_vendor-touches :
    (h : Host) (core : Checkout) (args : Args) (disk : Files) (a : Attempt (Manifest × Provenance))
    → prepare h core args disk ≡ a
    → (run_vendor h core args a disk).1 ≢ disk
    → IsPrepared h core args disk
run_vendor-touches h core args disk (died r) e t = absurd (t refl)
run_vendor-touches h core args disk raised e t = absurd (t refl)
run_vendor-touches h core args disk (got (m, p)) e t =
    let (loaded, measured) = prepare-IsPrepared h core args disk e in
    record {
      manifest = m;
      loaded = loaded;
      provenance = p;
      measured = measured;
      true_of_core = measure-IsMeasured core args measured;
    }

pub vendor-touches :
    (h : Host) (core : Checkout) (args : Args) (disk : Files)
    → (vendor h core args disk).1 ≢ disk
    → IsPrepared h core args disk
unfolding vendor
vendor-touches h core args disk t =
    run_vendor-touches h core args disk (prepare h core args disk) refl t

-- The files after the run, if it is `vendor` that ran with status 0: one manifest was written, over
-- the copies of core's files.
pub record IsVendored (h : Host) (core : Checkout) (args : Args) (disk after : Files) : Type 0 where
  pub manifest : Manifest
  pub loaded : load_manifest h disk ≡ got manifest
  pub provenance : Provenance
  pub measured : measure core args ≡ got provenance
  pub shown : ShownAll core provenance.commit manifest.files
  pub raw : List ℕ
  pub printed :
      h.dumps (
        object (
          updated h args provenance manifest.fields
            (map (pinned h core provenance.commit) manifest.files)))
      ≡ some raw
  pub files_are :
      after
      ≡ overwrite manifest_path raw
          (copy_all (core_bytes core provenance.commit) (map path_of manifest.files) disk)

ended-got : (ok : Bool) → ended ok ≡ got tt → ok ≡ true
ended-got true k = refl
ended-got false k = cc

write_manifest-got :
    (h : Host) (m : Dict) (disk : Files)
    → WritesOneFile h
    → (write_manifest h m disk).0 ≡ got tt
    → ((raw : List ℕ) × (h.dumps (object m) ≡ some raw)
        × ((write_manifest h m disk).1 ≡ overwrite manifest_path raw disk))
unfolding write_manifest
write_manifest-got h m disk law k = go (h.dumps (object m)) refl k
  where
    go :
        (printed : Option (List ℕ))
        → h.dumps (object m) ≡ printed
        → (write_printed h printed disk).0 ≡ got tt
        → ((raw : List ℕ) × (h.dumps (object m) ≡ some raw)
            × ((write_printed h printed disk).1 ≡ overwrite manifest_path raw disk))
    go none e k = cc
    go (some raw) e k = (raw, e, law manifest_path raw disk (ended-got _ k))

pub run_vendor-IsVendored :
    (h : Host) (core : Checkout) (args : Args) (disk : Files) (a : Attempt (Manifest × Provenance))
    → WritesOneFile h
    → prepare h core args disk ≡ a
    → (run_vendor h core args a disk).0 ≡ got 0
    → IsVendored h core args disk (run_vendor h core args a disk).1
run_vendor-IsVendored h core args disk (died r) law e k = cc
run_vendor-IsVendored h core args disk raised law e k = cc
run_vendor-IsVendored h core args disk (got (m, p)) law e k =
    finish (vendor_files h core p.commit m.files disk).0 refl k
  where
    copied : Files
    copied = (vendor_files h core p.commit m.files disk).1

    finish :
        (end : Attempt (List FileEntry))
        → (vendor_files h core p.commit m.files disk).0 ≡ end
        → (finish_vendor h args p m.fields end copied).0 ≡ got 0
        → IsVendored h core args disk (finish_vendor h args p m.fields end copied).1
    finish (died r) same k = cc
    finish raised same k = cc
    finish (got files) same k =
        let (shown, are_pinned, copied_all) =
          vendor_files-got h core p.commit m.files disk law same in
        let written = then-got _ _ k in
        let (raw, printed, stored) =
          write_manifest-got h (updated h args p m.fields files) copied law written.0 in
        let (loaded, measured) = prepare-IsPrepared h core args disk e in
        record {
          manifest = m;
          loaded = loaded;
          provenance = p;
          measured = measured;
          shown = shown;
          raw = raw;
          printed =
              ap (λ es. h.dumps (object (updated h args p m.fields es))) (sym are_pinned) ∙ printed;
          files_are = stored ∙ ap (overwrite manifest_path raw) copied_all;
        }

-- If vendor ends with status 0 and a write that raises nothing changes its own file only, the files
-- are an abstract copy: each listed path holds what git shows for it at the measured commit, the
-- manifest's path holds the printed manifest with each entry pinned to those bytes, and every other
-- path is unchanged.
pub vendor-IsVendored :
    (h : Host) (core : Checkout) (args : Args) (disk : Files)
    → WritesOneFile h
    → (vendor h core args disk).0 ≡ got 0
    → IsVendored h core args disk (vendor h core args disk).1
unfolding vendor
vendor-IsVendored h core args disk law k =
    run_vendor-IsVendored h core args disk (prepare h core args disk) law refl k
