-- ===== src/VendorContract/RoundTrip/Consistent.antt =====
-- scripts/vendor-contract.py: what `vendor` leaves has no problem of its own.
use vizra_search.Base.{
  ◌==◌, ℕ, true, false, not, ◌≡◌, refl, sym, ap, ap₂, ◌∙◌, none, some, List, [], ◌∷◌, ◌++◌, map,
  length, All, Str, codes, str_eq, starts_with, mem_str, In, here, there, if◌then◌else◌,
}
use vizra_search.Json.{text, object, get}
use vizra_search.Makegate.Pin.{bytes}
use vizra_search.VendorContract.Attempt.{got-inj, got}
use vizra_search.VendorContract.Git.{Checkout}
use vizra_search.VendorContract.Url.{canonical_owner_repo}
use vizra_search.VendorContract.Manifest.{
  Files, Host, FileEntry, Manifest, manifest_path, load_manifest, check_manifest,
}
use vizra_search.VendorContract.Manifest.Valid.{IsManifest-check_manifest}
use vizra_search.VendorContract.Vendor.{Args, Provenance, measure, updated}
use vizra_search.VendorContract.Vendor.Copied.{overwrite, core_bytes, copy_all, path_of}
use vizra_search.VendorContract.Vendor.Refines.{IsVendored}
use vizra_search.VendorContract.Vendor.Updated.{
  written_manifest, written_manifest-IsManifest, get-updated-tip, get-updated-commit,
  get-updated-ref,
}
use vizra_search.VendorContract.Refs.{remote_main}
use vizra_search.VendorContract.Vendor.Measured.{measure-IsMeasured}
use vizra_search.VendorContract.Check.{
  short_ref, bad_tip, short_commit, judge_fields, sha_of, note_if, is_sha, null_id, is_bad_tip,
  check_files, check_fields,
}
use vizra_search.VendorContract.RoundTrip.Kept.{
  ReadsBack, load_manifest-IsManifest, load_manifest-check_manifest, copied_file, overwritten,
  check_files-pinned,
}

-- What git promises of the objects that it names: full ids, of objects that there are.
pub record HasFullIds (p : Provenance) : Type 0 where
  pub tip : is_sha p.tip ≡ true
  pub some_tip : str_eq p.tip null_id ≡ false
  pub commit : length p.commit ≡ 40

is_bad_tip-sha :
    (tip : Str) → is_sha tip ≡ true → str_eq tip null_id ≡ false → is_bad_tip (text tip) ≡ false
unfolding is_bad_tip sha_of
is_bad_tip-sha tip full other =
    ap (λ b. elim (if b then some tip else none) [ none ↦ true | some s ↦ str_eq s null_id ]) full
    ∙ other

judge_fields-ids :
    (commit tip ref : Str)
    → length commit ≡ 40
    → is_bad_tip (text tip) ≡ false
    → starts_with (codes "refs/remotes/") ref ≡ true
    → judge_fields (text commit) (text tip) (text ref) ≡ got []
unfolding judge_fields
judge_fields-ids commit tip ref full good under =
    ap₂
      (λ n b. got (
        note_if (not (n == 40)) (short_commit (text commit))
        ++ note_if b (bad_tip (text tip))
        ++ note_if (not (starts_with (codes "refs/remotes/") ref)) (short_ref ref)))
      full good
    ∙ ap (λ b. got (note_if (not b) (short_ref ref))) under

check_fields-updated :
    (h : Host) (args : Args) (p : Provenance) (m : Manifest) (files : List FileEntry)
    → HasFullIds p
    → starts_with (codes "refs/remotes/") p.full_ref ≡ true
    → check_fields (updated h args p m.fields files) ≡ got []
unfolding check_fields
check_fields-updated h args p m files ids under =
    ap₂ (λ c t. judge_fields c t (get (codes "source_ref") (updated h args p m.fields files)))
      (get-updated-commit h args p m.fields files) (get-updated-tip h args p m.fields files)
    ∙ ap (judge_fields (text p.commit) (text p.tip)) (get-updated-ref h args p m.fields files)
    ∙ judge_fields-ids p.commit p.tip p.full_ref ids.commit
        (is_bad_tip-sha p.tip ids.tip ids.some_tip) under

remote_main-under : (remote : Str) → starts_with (codes "refs/remotes/") (remote_main remote) ≡ true
unfolding starts_with
remote_main-under remote = refl

All-In : {A : Type 0} (P : A → Type 0) (xs : List A) → ((a : A) → In a xs → P a) → All P xs
All-In P [] f = tt
All-In P (x ∷ xs) f = (f x (here refl), All-In P xs (λ a m. f a (there m)))

-- The files and the manifest that `vendor` leaves.
pub record IsConsistent (h : Host) (core : Checkout) (args : Args) (m : Manifest) (p : Provenance)
    (disk : Files) : Type 0 where
  pub loaded : load_manifest h disk ≡ got (written_manifest h core args p m)
  pub fields : check_fields (written_manifest h core args p m).fields ≡ got []
  pub files : check_files h disk (written_manifest h core args p m).files ≡ got []

-- The files after the run, for the manifest that was loaded and what git said.
vendored-files :
    (h : Host) (core : Checkout) (args : Args) (m : Manifest) (p : Provenance) (disk after : Files)
    → load_manifest h disk ≡ got m
    → measure core args ≡ got p
    → IsVendored h core args disk after
    → ((raw : List ℕ) × (h.dumps (object (written_manifest h core args p m).fields) ≡ some raw)
        × (after
            ≡ overwrite manifest_path raw
                (copy_all (core_bytes core p.commit) (map path_of m.files) disk)))
vendored-files h core args m p disk after loaded measured v =
    let same_m : v.manifest ≡ m = got-inj (sym v.loaded ∙ loaded) in
    let same_p : v.provenance ≡ p = got-inj (sym v.measured ∙ measured) in
    (
      v.raw,
      ap₂ (λ q n. h.dumps (object (written_manifest h core args q n).fields)) (sym same_p)
            (sym same_m)
          ∙ v.printed,
      v.files_are
          ∙ ap₂
              (λ (q : Provenance) (n : Manifest).
                overwrite manifest_path v.raw
                  (copy_all (core_bytes core q.commit) (map path_of n.files) disk))
              same_p same_m,
    )

-- The manifest that was written is the one that is read.
pub load_manifest-written :
    (h : Host) (core : Checkout) (args : Args) (m : Manifest) (p : Provenance) (disk after : Files)
    → ReadsBack h (object (written_manifest h core args p m).fields)
    → load_manifest h disk ≡ got m
    → measure core args ≡ got p
    → IsVendored h core args disk after
    → load_manifest h after ≡ check_manifest (object (written_manifest h core args p m).fields)
load_manifest-written h core args m p disk after back loaded measured v =
    let (raw, printed, files_are) = vendored-files h core args m p disk after loaded measured v in
    load_manifest-check_manifest h after raw (object (written_manifest h core args p m).fields)
      (ap (λ f. f manifest_path) files_are
        ∙ overwritten manifest_path raw
            (copy_all (core_bytes core p.commit) (map path_of m.files) disk))
      (back raw printed)

pub vendored-IsConsistent :
    (h : Host) (core : Checkout) (args : Args) (m : Manifest) (p : Provenance) (disk after : Files)
    → ReadsBack h (object (written_manifest h core args p m).fields)
    → load_manifest h disk ≡ got m
    → measure core args ≡ got p
    → p.owner_repo ≡ canonical_owner_repo
    → HasFullIds p
    → mem_str manifest_path (map path_of m.files) ≡ false
    → IsVendored h core args disk after
    → IsConsistent h core args m p after
vendored-IsConsistent h core args m p disk after back loaded measured spelled ids apart v =
    let (raw, printed, files_are) = vendored-files h core args m p disk after loaded measured v in
    let facts = measure-IsMeasured core args measured in
    record {
      loaded =
          load_manifest-written h core args m p disk after back loaded measured v
          ∙ IsManifest-check_manifest (written_manifest h core args p m) (
              written_manifest-IsManifest h core args p m spelled
                (load_manifest-IsManifest h disk loaded));
      fields = check_fields-updated h args p m _ ids (
          ap (starts_with (codes "refs/remotes/")) facts.full_name ∙ remote_main-under args.remote);
      files = check_files-pinned h core p.commit after m.files (
          All-In (λ e. after e.path ≡ bytes (core_bytes core p.commit e.path)) m.files
            (λ e i.
              ap (λ f. f e.path) files_are
              ∙ copied_file (core_bytes core p.commit) raw e m.files disk i apart));
    }
