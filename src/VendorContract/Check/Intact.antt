-- ===== src/VendorContract/Check/Intact.antt =====
-- scripts/vendor-contract.py, `check`: what a status of 0 says.
use vizra_search.Base.{
  ℕ, Bool, true, false, not, ◌≡◌, refl, sym, ap, ◌∙◌, Option, none, some, List, [], ◌∷◌, ◌++◌, ◌==◌,
  ==_iff, length, All, Str, codes, str_eq, str_eq_iff, starts_with, append-eq-nil_left,
  append-eq-nil_right,
}
use vizra_search.Json.{Json, text, get}
use vizra_search.Makegate.Pin.{Fetched, missing, unreadable, bytes}
use vizra_search.VendorContract.Attempt.{got, bind-got, got-inj}
use vizra_search.VendorContract.Manifest.{Files, Host, FileEntry, Manifest, load_manifest}
use vizra_search.VendorContract.Vendor.{Args}
use vizra_search.VendorContract.Check.{
  bad_tip, digest_differs, short_commit, Problem, note_if, length_of, text_of, null_id, sha_of,
  is_bad_tip, is_text, is_number, check_content, check_files, judge_fields, check_fields,
  check_with, check_problems, check_status, check,
}

-- The file has the digest and the size that the entry pins.
pub record IsPinned (h : Host) (disk : Files) (e : FileEntry) : Type 0 where
  pub raw : List ℕ
  pub found : disk e.path ≡ bytes raw
  pub digest : get (codes "sha256") e.fields ≡ text (h.sha256 raw)
  pub size : is_number (length raw) (get (codes "bytes") e.fields) ≡ true

pub note_if-nil : (b : Bool) (p : Problem) → note_if (not b) p ≡ [] → b ≡ true
note_if-nil true p h = refl
note_if-nil false p h = cc

note_if-nil_plain : (b : Bool) (p : Problem) → note_if b p ≡ [] → b ≡ false
note_if-nil_plain true p h = cc
note_if-nil_plain false p h = refl

pub is_text-eq : (s : Str) (v : Json) → is_text s v ≡ true → v ≡ text s
is_text-eq s (text t) h = ap text (sym ((str_eq_iff s t).0 h))
is_text-eq s v h = cc

check_content-nil :
    (h : Host) (disk : Files) (e : FileEntry) (found : Fetched)
    → disk e.path ≡ found
    → check_content h e found ≡ got []
    → IsPinned h disk e
unfolding check_content
check_content-nil h disk e missing at k = cc
check_content-nil h disk e unreadable at k = cc
check_content-nil h disk e (bytes raw) at k =
    let none_found = got-inj k in
    record {
      raw = raw;
      found = at;
      digest = is_text-eq _ _ (note_if-nil _ _ (append-eq-nil_left _ _ none_found));
      size = note_if-nil _ _ (append-eq-nil_right (note_if _ (digest_differs e.path)) _ none_found);
    }

pub check_files-nil :
    (h : Host) (disk : Files) (es : List FileEntry)
    → check_files h disk es ≡ got []
    → All (IsPinned h disk) es
unfolding check_files
check_files-nil h disk [] k = tt
check_files-nil h disk (e ∷ es) k =
    let (found, first, k1) = bind-got (check_content h e (disk e.path)) _ k in
    let (rest, more, k2) = bind-got (check_files h disk es) _ k1 in
    let nothing = got-inj k2 in
    (
      check_content-nil h disk e _ refl (first ∙ ap got (append-eq-nil_left found rest nothing)),
      check_files-nil h disk es (more ∙ ap got (append-eq-nil_right found rest nothing)),
    )

-- The values at `source_commit`, `source_ref_tip` and `source_ref`.
pub record HasProvenance (commit tip ref : Json) : Type 0 where
  pub commit_size : length_of commit ≡ got 40
  pub tip_id : Str
  pub tip_is : sha_of tip ≡ some tip_id
  pub tip_exists : str_eq tip_id null_id ≡ false
  pub full_ref : Str
  pub ref_is : text_of ref ≡ got full_ref
  pub remote_ref : starts_with (codes "refs/remotes/") full_ref ≡ true

is_bad_tip-false :
    (tip : Json) (o : Option Str)
    → sha_of tip ≡ o
    → (elim o [ none ↦ true | some s ↦ str_eq s null_id ]) ≡ false
    → ((s : Str) × (sha_of tip ≡ some s) × (str_eq s null_id ≡ false))
is_bad_tip-false tip none is k = cc
is_bad_tip-false tip (some s) is k = (s, is, k)

is_bad_tip-sha_of :
    (tip : Json)
    → is_bad_tip tip ≡ false
    → ((s : Str) × (sha_of tip ≡ some s) × (str_eq s null_id ≡ false))
unfolding is_bad_tip
is_bad_tip-sha_of tip k = is_bad_tip-false tip (sha_of tip) refl k

judge_fields-nil :
    (commit tip ref : Json) → judge_fields commit tip ref ≡ got [] → HasProvenance commit tip ref
unfolding judge_fields
judge_fields-nil commit tip ref k =
    let (n, size, k1) = bind-got (length_of commit) _ k in
    let (full_ref, is_ref, k2) = bind-got (text_of ref) _ k1 in
    let nothing = got-inj k2 in
    let front =
      append-eq-nil_left
        (note_if (not (n == 40)) (short_commit commit) ++ note_if (is_bad_tip tip) (bad_tip tip)) _
        nothing in
    let (tip_id, tip_is, tip_exists) = is_bad_tip-sha_of tip (
      note_if-nil_plain _ _
        (append-eq-nil_right (note_if (not (n == 40)) (short_commit commit)) _ front)) in
    record {
      commit_size =
          size ∙ ap got ((==_iff n 40).0 (note_if-nil _ _ (append-eq-nil_left _ _ front)));
      tip_id = tip_id;
      tip_is = tip_is;
      tip_exists = tip_exists;
      full_ref = full_ref;
      ref_is = is_ref;
      remote_ref = note_if-nil _ _ (
          append-eq-nil_right
            (note_if (not (n == 40)) (short_commit commit)
              ++ note_if (is_bad_tip tip) (bad_tip tip))
            _ nothing);
    }

-- What `check` reads of the manifest and the files on its own.
pub record IsIntact (h : Host) (disk : Files) : Type 0 where
  pub manifest : Manifest
  pub loaded : load_manifest h disk ≡ got manifest
  pub provenance :
      HasProvenance
        (get (codes "source_commit") manifest.fields)
        (get (codes "source_ref_tip") manifest.fields)
        (get (codes "source_ref") manifest.fields)
  pub files : All (IsPinned h disk) manifest.files

check_status-nil : (ps : List Problem) → check_status ps ≡ 0 → ps ≡ []
check_status-nil [] k = refl
check_status-nil (p ∷ ps) k = cc

-- A check with status 0 found no problem.
pub check-parts :
    (h : Host) (args : Args) (disk : Files)
    → check h args disk ≡ got 0
    → ((m : Manifest) × (load_manifest h disk ≡ got m)
        × (check_fields m.fields ≡ got [])
        × (check_files h disk m.files ≡ got [])
        × (check_with h args m args.core ≡ got []))
unfolding check check_problems
check-parts h args disk k =
    let (problems, all, k1) = bind-got (check_problems h args disk) _ k in
    let (m, loaded, k2) = bind-got (load_manifest h disk) _ all in
    let (a, of_fields, k3) = bind-got (check_fields m.fields) _ k2 in
    let (b, of_files, k4) = bind-got (check_files h disk m.files) _ k3 in
    let (c, of_core, k5) = bind-got (check_with h args m args.core) _ k4 in
    let nothing = got-inj k5 ∙ check_status-nil problems (got-inj k1) in
    let front = append-eq-nil_left (a ++ b) c nothing in
    (
      m,
      loaded,
      of_fields ∙ ap got (append-eq-nil_left a b front),
      of_files ∙ ap got (append-eq-nil_right a b front),
      of_core ∙ ap got (append-eq-nil_right (a ++ b) c nothing),
    )

-- If `--check` ends with status 0, the manifest loaded, its source_commit has 40 elements, its
-- source_ref_tip is a full id other than the null id, its source_ref is under refs/remotes/, and
-- every listed file exists with the pinned digest and size.
pub check-IsIntact :
    (h : Host) (args : Args) (disk : Files) → check h args disk ≡ got 0 → IsIntact h disk
unfolding check_fields
check-IsIntact h args disk k =
    let (m, loaded, fields, files, of_core) = check-parts h args disk k in
    record {
      manifest = m;
      loaded = loaded;
      provenance = judge_fields-nil _ _ _ fields;
      files = check_files-nil h disk m.files files;
    }
