-- ===== src/VendorContract/Tests.antt =====
-- Runs of scripts/vendor-contract.py on a small checkout.
use vizra_search.VendorContract.Touches.{main-touches}
use vizra_search.VendorContract.Check.OfCore.{check-IsCurrent, IsCurrent}
use vizra_search.VendorContract.Manifest.Inserted.{insert_after-IsInserted, IsInserted}
use vizra_search.VendorContract.RoundTrip.Core.{KnowsTip}
use vizra_search.VendorContract.RoundTrip.Respelled.{load_manifest-vendor_respelled}
use vizra_search.VendorContract.Refs.Unshadowed.{
  resolve_ref-IsUnshadowed, IsUnshadowed, default_ref,
}
use vizra_search.VendorContract.Manifest.Valid.{check_manifest_iff, IsManifest}
use vizra_search.VendorContract.Refs.{remote_main, resolve_ref}
use vizra_search.VendorContract.Check.Intact.{check-IsIntact, IsPinned, IsIntact}
use vizra_search.VendorContract.RoundTrip.Kept.{ReadsBack}
use vizra_search.VendorContract.Vendor.Refines.{vendor-IsVendored, IsPrepared, IsVendored}
use vizra_search.VendorContract.RoundTrip.Consistent.{HasFullIds}
use vizra_search.VendorContract.RoundTrip.{check-vendor, check_core-vendor, checking}
use vizra_search.Base.{
  Option-some, mem_str, ◌↔◌, starts_with, ℕ, Bool, true, false, ◌≡◌, ◌≢◌, refl, sym, ap, ◌∙◌,
  Option, none, some, List, [], ◌∷◌, ◌++◌, map, if◌then◌else◌, Str, codes, str_eq, length, All,
}
use vizra_search.Json.{Json, null, text, array, object, no_value, value, no_entry, entry}
use vizra_search.Makegate.Pin.{missing, bytes}
use vizra_search.VendorContract.Attempt.{got, died, foreign_manifest}
use vizra_search.VendorContract.Git.{Answer, Checkout}
use vizra_search.VendorContract.Url.{canonical_owner_repo}
use vizra_search.VendorContract.Manifest.{
  Files, Host, FileEntry, Manifest, manifest_path, load_manifest, insert_after, check_manifest,
}
use vizra_search.VendorContract.Vendor.{pin_entry, updated, Args, Provenance, vendor, measure}
use vizra_search.VendorContract.Vendor.Copied.{path_of, overwrite}
use vizra_search.VendorContract.Vendor.Updated.{written_manifest}
use vizra_search.VendorContract.Check.{is_sha, check, main}

abbrev yes : List ℕ → Option Answer
yes out = some (record { ok = true; stdout = out })

abbrev commit_id : Str
commit_id = codes "0123456789abcdef0123456789abcdef01234567"

abbrev tip_id : Str
tip_id = codes "89abcdef0123456789abcdef0123456789abcdef"

abbrev answer_log : List Str → Option Answer
answer_log (one ∷ format ∷ more) =
    if str_eq format (codes "--format=%H") then yes commit_id else yes (codes "contract: pin")
answer_log more = none

-- Git's answers in a checkout whose remote has this URL.
abbrev answer : Str → List Str → Option Answer
answer url [] = none
answer url (command ∷ more) =
    if str_eq command (codes "remote")
    then yes url
    else if str_eq command (codes "rev-parse")
    then yes (codes "false")
    else if str_eq command (codes "for-each-ref")
    then yes (codes "refs/remotes/origin/main\tcommit\t" ++ tip_id)
    else if str_eq command (codes "log")
    then answer_log more
    else if str_eq command (codes "show")
    then yes (codes "openapi")
    else yes []

abbrev core_at : Str → Checkout
core_at url = record { has_git = true; run = answer url }

abbrev core : Checkout
core = core_at (codes "https://u:t@github.com/yegamble/vizra-core.git")

abbrev respelled_core : Checkout
respelled_core = core_at (codes "git@github.com:Yegamble/Vizra-Core.git")

abbrev args_for : Bool → Checkout → Args
args_for checks given = record {
  core = some given;
  remote = codes "origin";
  ref = none;
  commit = [];
  note = [];
  check = checks;
}

abbrev provenance_of : Str → Provenance
provenance_of owner_repo = record {
  owner_repo = owner_repo;
  full_ref = codes "refs/remotes/origin/main";
  tip = tip_id;
  commit = commit_id;
}

abbrev file_entry : Str → FileEntry
file_entry path = record {
  path = path;
  fields = entry (codes "source_path") (text path) (
      entry (codes "vendored_path") (text path)
        (entry (codes "role") (text (codes "contract")) no_entry));
}

abbrev two_entries : List FileEntry
two_entries = file_entry (codes "api/a.yaml") ∷ file_entry (codes "api/b.json") ∷ []

abbrev old_manifest : Manifest
old_manifest = record {
  fields = entry (codes "source_repository") (text canonical_owner_repo) (
      entry (codes "source_ref") (text (codes "main")) (
        entry (codes "files")
          (array (
            value (object (file_entry (codes "api/a.yaml")).fields)
              (value (object (file_entry (codes "api/b.json")).fields) no_value)))
          no_entry));
  files = two_entries;
}

-- A file system, a digest, and `1` and `2` for the two manifests that are read.
abbrev host_for : Json → Host
host_for written = record {
  loads = λ raw. if str_eq raw (1 ∷ []) then some (object old_manifest.fields) else some written;
  dumps = λ v. some (2 ∷ []);
  sha256 = λ raw. length raw ∷ raw;
  today = codes "2026-01-01";
  show = λ v. [];
  write = λ path raw disk. (true, overwrite path raw disk);
}

-- The manifest that is written does not depend on what `loads` gives.
abbrev host : Checkout → Str → Host
host given owner_repo = host_for (
    object
      (written_manifest (host_for null) given (args_for false given) (provenance_of owner_repo)
        old_manifest).fields)

abbrev disk : Files
disk path = if str_eq path manifest_path then bytes (1 ∷ []) else missing

vendors : (vendor (host core canonical_owner_repo) core (args_for false core) disk).0 ≡ got 0
unfolding vendor
vendors = refl

loads_old : load_manifest (host core canonical_owner_repo) disk ≡ got old_manifest
unfolding load_manifest
loads_old = refl

measures : measure core (args_for false core) ≡ got (provenance_of canonical_owner_repo)
unfolding measure
measures = refl

abbrev good : Host
good = host core canonical_owner_repo

abbrev run_args : Args
run_args = args_for false core

abbrev after_run : Files
after_run = (vendor good core run_args disk).1

bytes-ne-missing_lem : {raw : List ℕ} → bytes raw ≡ missing → ⊥
bytes-ne-missing_lem e = cc

changed : (main good run_args disk).1 ≢ disk
unfolding main
changed = λ e. bytes-ne-missing_lem (ap (λ (f : Files). f (codes "api/a.yaml")) e)

ids : HasFullIds (provenance_of canonical_owner_repo)
unfolding is_sha str_eq
ids = record { tip = refl; some_tip = refl; commit = refl }

apart : mem_str manifest_path (map path_of old_manifest.files) ≡ false
unfolding mem_str
apart = refl

knows : KnowsTip core (provenance_of canonical_owner_repo)
unfolding str_eq
knows = record { known = ([], refl); on_ref = ([], refl); contained = ([], refl) }

good-ReadsBack : ReadsBack good (
    object
      (written_manifest good core run_args
        (provenance_of canonical_owner_repo)
        old_manifest).fields)
unfolding str_eq updated pin_entry
good-ReadsBack raw e = ap (λ r. good.loads r) (sym (Option-some e)) ∙ second
  where
    second :
        good.loads (2 ∷ [])
        ≡ some (
            object
              (written_manifest good core run_args
                (provenance_of canonical_owner_repo)
                old_manifest).fields)
    second = refl

main-touches_example :
    (false ≡ false)
    × ((given : Checkout) × (some core ≡ some given) × IsPrepared good given run_args disk)
main-touches_example = main-touches good run_args disk changed

vendor-IsVendored_example : IsVendored good core run_args disk after_run
vendor-IsVendored_example =
    vendor-IsVendored good core run_args disk (λ path raw before ok. refl) vendors

check-vendor_example : check good (checking run_args none) after_run ≡ got 0
check-vendor_example =
    check-vendor good core run_args disk old_manifest (provenance_of canonical_owner_repo)
      (λ path raw before ok. refl) (λ raw e. good-ReadsBack raw e) loads_old measures refl ids apart
      vendors

check_core-vendor_example : check good (checking run_args (some core)) after_run ≡ got 0
check_core-vendor_example =
    check_core-vendor good core run_args disk old_manifest (provenance_of canonical_owner_repo)
      (λ path raw before ok. refl) (λ raw e. good-ReadsBack raw e) loads_old measures refl ids apart
      knows vendors

checks : check good (checking run_args (some core)) after_run ≡ got 0
unfolding check vendor
checks = refl

check-IsIntact_example : IsIntact good after_run
check-IsIntact_example = check-IsIntact good (checking run_args (some core)) after_run checks

check-IsCurrent_example :
    (m : Manifest) × (load_manifest good after_run ≡ got m)
    × All (IsPinned good after_run) m.files
    × IsCurrent good core (checking run_args (some core)) m
check-IsCurrent_example =
    check-IsCurrent good core (checking run_args (some core)) after_run refl checks

short : starts_with (codes "refs/") (default_ref (codes "origin")) ≡ false
unfolding starts_with
short = refl

resolve_ref-IsUnshadowed_example :
    (resolve_ref core (codes "origin") (default_ref (codes "origin"))
      ≡ got (remote_main (codes "origin"), tip_id))
    ↔ IsUnshadowed core (codes "origin") tip_id
resolve_ref-IsUnshadowed_example = resolve_ref-IsUnshadowed core (codes "origin") tip_id short

keys_differ : str_eq (codes "source_ref") (codes "source_ref_tip") ≡ false
unfolding str_eq
keys_differ = refl

insert_after-IsInserted_example :
    IsInserted old_manifest.fields
      (codes "source_ref")
      (codes "source_ref_tip")
      (text tip_id)
      (insert_after old_manifest.fields (codes "source_ref") (codes "source_ref_tip") (text tip_id))
insert_after-IsInserted_example =
    insert_after-IsInserted old_manifest.fields (codes "source_ref") (codes "source_ref_tip")
      (text tip_id) keys_differ

check_manifest_iff_example :
    (check_manifest (object old_manifest.fields) ≡ got old_manifest)
    ↔ ((object old_manifest.fields ≡ object old_manifest.fields) × IsManifest old_manifest)
check_manifest_iff_example = check_manifest_iff (object old_manifest.fields) old_manifest

abbrev bad_host : Host
bad_host = host respelled_core (codes "Yegamble/Vizra-Core")

bad-ReadsBack : ReadsBack bad_host (
    object
      (written_manifest bad_host respelled_core
        (args_for false respelled_core)
        (provenance_of (codes "Yegamble/Vizra-Core"))
        old_manifest).fields)
unfolding str_eq updated pin_entry
bad-ReadsBack raw e = ap (λ r. bad_host.loads r) (sym (Option-some e)) ∙ second
  where
    second :
        bad_host.loads (2 ∷ [])
        ≡ some (
            object
              (written_manifest bad_host respelled_core
                (args_for false respelled_core)
                (provenance_of (codes "Yegamble/Vizra-Core"))
                old_manifest).fields)
    second = refl

bad_vendors : (vendor bad_host respelled_core (args_for false respelled_core) disk).0 ≡ got 0
unfolding vendor
bad_vendors = refl

bad_loads_old : load_manifest bad_host disk ≡ got old_manifest
unfolding load_manifest
bad_loads_old = refl

bad_measures :
    measure respelled_core (args_for false respelled_core)
    ≡ got (provenance_of (codes "Yegamble/Vizra-Core"))
unfolding measure
bad_measures = refl

spelled_otherwise : str_eq (codes "Yegamble/Vizra-Core") canonical_owner_repo ≡ false
unfolding str_eq
spelled_otherwise = refl

load_manifest-vendor_respelled_example :
    load_manifest bad_host (vendor bad_host respelled_core (args_for false respelled_core) disk).1
    ≡ died foreign_manifest
load_manifest-vendor_respelled_example =
    load_manifest-vendor_respelled bad_host respelled_core (args_for false respelled_core) disk
      old_manifest (provenance_of (codes "Yegamble/Vizra-Core")) (λ path raw before ok. refl)
      (λ raw e. bad-ReadsBack raw e) bad_loads_old bad_measures spelled_otherwise bad_vendors
