-- ===== src/VendorContract/Vendor.antt =====
-- scripts/vendor-contract.py, `vendor`: the copies and the manifest are written. The files come back
-- beside a refusal too, since what was written before it stays written.
pub mod Measured
pub mod Copied
pub mod Refines
pub mod Updated
use vizra_search.Base.{
  ◌++◌, ℕ, Bool, true, false, not, Option, none, some, List, [], ◌∷◌, length, Str, codes, str_eq,
}
use vizra_search.Json.{natural, text, array, Values, no_value, value, Dict, put}
use vizra_search.Makegate.Pin.{Fetched, missing, unreadable, bytes}
use vizra_search.VendorContract.Attempt.{
  no_checkout, not_read_back, Attempt, got, died, raised, ◌>>=◌, ◌>>◌, die_if,
}
use vizra_search.VendorContract.Git.{Checkout, gits}
use vizra_search.VendorContract.Refs.{
  check_remote_is_canonical, resolve_ref, refuse_shallow, choose_commit,
}
use vizra_search.VendorContract.Manifest.{
  Files, Host, FileEntry, Manifest, values_of, read_file, load_manifest, insert_after,
  write_manifest, read_from_core,
}

-- The command line behind the parser. `--core` is a path: the checkout at it, and `none` for no path or
-- an empty one; `--commit` is `[]` and `--note` is `[]` if they are not given.
pub record Args : Type 0 where
  pub core : Option Checkout
  pub remote : Str
  pub ref : Option Str
  pub commit : Str
  pub note : List Str
  pub check : Bool

-- What the checkout is found to be before anything is written.
pub record Provenance : Type 0 where
  pub owner_repo : Str
  pub full_ref : Str
  pub tip : Str
  pub commit : Str

-- `args.ref`, after `main` has set it.
abbrev pub ref_of : Args → Str
ref_of args = elim args.ref [ none ↦ args.remote ++ codes "/main" | some r ↦ r ]

-- What `vendor` and `check --core` ask of the checkout.
unfoldable pub measure : Checkout → Args → Attempt Provenance
unfolding check_remote_is_canonical refuse_shallow resolve_ref choose_commit
measure core args = do
  die_if (not core.has_git) no_checkout
  owner_repo ← check_remote_is_canonical core args.remote
  refuse_shallow core
  found ← resolve_ref core args.remote (ref_of args)
  commit ← choose_commit core found.0 args.commit
  got (record { owner_repo = owner_repo; full_ref = found.0; tip = found.1; commit = commit })

-- `before`: a file that exists is read.
abbrev pub read_before : Fetched → Attempt Unit
read_before missing = got tt
read_before unreadable = raised
read_before (bytes raw) = got tt

abbrev pub subject_args : Str → List Str
subject_args commit = codes "log" ∷ codes "-1" ∷ codes "--format=%s" ∷ commit ∷ []

-- The entry with the digest and the length of what is on disk.
unfoldable pub pin_entry : Host → FileEntry → List ℕ → FileEntry
unfolding put
pin_entry h e written = record e {
  fields =
      put (codes "bytes") (natural (length written))
        (put (codes "sha256") (text (h.sha256 written)) e.fields);
}

-- From the read after the write on; `ok`: the write raised nothing.
unfoldable pub read_back : Host → FileEntry → List ℕ → Bool → Fetched → Attempt FileEntry
unfolding pin_entry str_eq
read_back h e raw false found = raised
read_back h e raw true found = do
  written ← read_file found
  die_if (not (str_eq written raw)) (not_read_back e.path)
  got (pin_entry h e written)

-- One round of the loop.
abbrev pub store_file : Host → FileEntry → Attempt (List ℕ) → Files → Attempt FileEntry × Files
store_file h e (died r) disk = (died r, disk)
store_file h e raised disk = (raised, disk)
store_file h e (got raw) disk =
    let (ok, after) = h.write e.path raw disk in (read_back h e raw ok (after e.path), after)

unfoldable pub vendor_file : Host → Checkout → Str → FileEntry → Files → Attempt FileEntry × Files
unfolding read_from_core read_back
vendor_file h core commit e disk =
    store_file h e (read_before (disk e.path) >> read_from_core core commit e.path) disk

-- The further rounds, after one that ended with `first` and left the files `after`.
abbrev pub further_files :
    Attempt FileEntry → Files → Attempt (List FileEntry) × Files → Attempt (List FileEntry) × Files
further_files (got e) after onward = (onward.0 >>= λ es. got (e ∷ es), onward.1)
further_files (died r) after onward = (died r, after)
further_files raised after onward = (raised, after)

unfoldable pub vendor_files :
    Host → Checkout → Str → List FileEntry → Files → Attempt (List FileEntry) × Files
unfolding vendor_file
vendor_files h core commit [] disk = (got [], disk)
vendor_files h core commit (e ∷ es) disk =
    let (first, after) = vendor_file h core commit e disk in
    further_files first after (vendor_files h core commit es after)

abbrev pub texts_of : List Str → Values
texts_of [] = no_value
texts_of (s ∷ ss) = value (text s) (texts_of ss)

abbrev pub with_note : List Str → Dict → Dict
with_note [] m = m
with_note (s ∷ ss) m = put (codes "$provenance_note") (array (texts_of (s ∷ ss))) m

-- The manifest with the entries that the loop has changed in place, and the provenance.
unfoldable pub updated : Host → Args → Provenance → Dict → List FileEntry → Dict
unfolding put insert_after
updated h args p m files =
    let m1 = put (codes "files") (array (values_of files)) m in
    let m2 = put (codes "source_repository") (text p.owner_repo) m1 in
    let m3 = put (codes "source_ref") (text p.full_ref) m2 in
    let m4 = put (codes "source_commit") (text p.commit) m3 in
    let m5 = put (codes "vendored_at") (text h.today) m4 in
    insert_after (with_note args.note m5) (codes "source_ref") (codes "source_ref_tip") (text p.tip)

abbrev pub finish_vendor :
    Host → Args → Provenance → Dict → Attempt (List FileEntry) → Files → Attempt ℕ × Files
finish_vendor h args p m (died r) disk = (died r, disk)
finish_vendor h args p m raised disk = (raised, disk)
finish_vendor h args p m (got files) disk =
    let (end, last) = write_manifest h (updated h args p m files) disk in (end >> got 0, last)

-- What is found before the first write; the subject of the commit is only printed.
unfoldable pub prepare : Host → Checkout → Args → Files → Attempt (Manifest × Provenance)
unfolding load_manifest measure gits
prepare h core args disk = do
  m ← load_manifest h disk
  p ← measure core args
  subject ← gits core (subject_args p.commit)
  got (m, p)

abbrev pub run_vendor :
    Host → Checkout → Args → Attempt (Manifest × Provenance) → Files → Attempt ℕ × Files
run_vendor h core args (died r) disk = (died r, disk)
run_vendor h core args raised disk = (raised, disk)
run_vendor h core args (got (m, p)) disk =
    let (end, copied) = vendor_files h core p.commit m.files disk in
    finish_vendor h args p m.fields end copied

unfoldable pub vendor : Host → Checkout → Args → Files → Attempt ℕ × Files
unfolding prepare vendor_files write_manifest updated
vendor h core args disk = run_vendor h core args (prepare h core args disk) disk
