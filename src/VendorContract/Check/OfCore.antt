-- ===== src/VendorContract/Check/OfCore.antt =====
-- scripts/vendor-contract.py, `check --core`: what a status of 0 says of the checkout.
use vizra_search.Base.{
  if◌then◌else◌, ℕ, Bool, true, false, not, ◌&&◌, ◌≡◌, refl, sym, ap, ap₂, ◌∙◌, some, List, [], ◌∷◌,
  ◌++◌, All, Str, codes, str_eq, str_eq_iff, append-eq-nil_left, append-eq-nil_right,
}
use vizra_search.Json.{Dict, Json, text, get, contains}
use vizra_search.VendorContract.Attempt.{some_or_raise-got, Attempt, got, raised, bind-got, got-inj}
use vizra_search.VendorContract.Git.{Answer, Checkout, git_raw}
use vizra_search.VendorContract.Refs.{ancestry}
use vizra_search.VendorContract.Refs.Resolved.{Answers, IsOnRef}
use vizra_search.VendorContract.Manifest.{
  Files, Host, FileEntry, Manifest, load_manifest, read_from_core,
}
use vizra_search.VendorContract.Vendor.{Args, Provenance, measure}
use vizra_search.VendorContract.Vendor.Measured.{IsMeasured, measure-IsMeasured}
use vizra_search.VendorContract.Check.{
  unknown_tip, core_differs, tip_not_on_ref, ref_differs, Problem, note_if, text_of, sha_of,
  is_text, tip_args, check_tip, check_recorded_tip, commit_text, check_bytes, check_against,
  check_provenance, check_core, check_with, check,
}
use vizra_search.VendorContract.Check.Intact.{
  check_files-nil, IsPinned, check-parts, note_if-nil, is_text-eq,
}

-- Core's file at the commit has the digest that the entry pins.
pub record IsCores (h : Host) (core : Checkout) (commit : Str) (e : FileEntry) : Type 0 where
  pub raw : List ℕ
  pub shown : read_from_core core commit e.path ≡ got raw
  pub digest : get (codes "sha256") e.fields ≡ text (h.sha256 raw)

-- The recorded tip is a commit on the ref, with the pinned commit in its history.
pub record IsTip (core : Checkout) (full_ref commit tip : Str) : Type 0 where
  pub known : (out : List ℕ) × Answers core (tip_args tip) out
  pub on_ref : IsOnRef core tip full_ref
  pub contained : IsOnRef core commit tip

succeeded :
    (core : Checkout) (args : List Str) (a : Answer)
    → git_raw core args ≡ got a
    → a.ok ≡ true
    → (out : List ℕ) × Answers core args out
unfolding git_raw
succeeded core args a asked ok =
    (a.stdout, some_or_raise-got _ asked ∙ ap (λ b. some (record { ok = b; stdout = a.stdout })) ok)

unless_known-nil :
    (ok : Bool) (tip : Str) (onward : Attempt (List Problem))
    → (if not ok then got (unknown_tip tip ∷ []) else onward) ≡ got []
    → (ok ≡ true) × (onward ≡ got [])
unless_known-nil true tip onward k = (refl, k)
unless_known-nil false tip onward k = cc

check_tip-nil :
    (core : Checkout) (full_ref commit tip : Str)
    → check_tip core full_ref (text commit) tip ≡ got []
    → IsTip core full_ref commit tip
unfolding check_tip
check_tip-nil core full_ref commit tip k =
    let (known, asked, k1) = bind-got (git_raw core (tip_args tip)) _ k in
    let (is_known, k2) = unless_known-nil known.ok tip _ k1 in
    let (on_ref, asked_ref, k3) = bind-got (git_raw core (ancestry tip full_ref)) _ k2 in
    let (contained, asked_commit, k4) = bind-got (git_raw core (ancestry commit tip)) _ k3 in
    let nothing = got-inj k4 in
    record {
      known = succeeded core _ known asked is_known;
      on_ref = succeeded core _ on_ref asked_ref (note_if-nil _ _ (append-eq-nil_left _ _ nothing));
      contained = succeeded core _ contained asked_commit (
          note_if-nil _ _
            (append-eq-nil_right (note_if (not on_ref.ok) (tip_not_on_ref tip)) _ nothing));
    }

differs_lem :
    (b : Bool) (path : Str)
    → (if not b && not true then raised else got (note_if (not b) (core_differs path))) ≡ got []
    → b ≡ true
differs_lem true path k = refl
differs_lem false path k = cc

commit_text-eq :
    (h : Host) (has : Bool) (v : Json) (commit : Str) {c : Str}
    → v ≡ text commit
    → commit_text h has v ≡ got c
    → commit ≡ c
commit_text-eq h false v commit is k = cc
commit_text-eq h true v commit is k = got-inj (ap (commit_text h true) (sym is) ∙ k)

check_bytes-nil :
    (h : Host) (commit : Str) (e : FileEntry) (raw : List ℕ)
    → check_bytes h (text commit) e raw ≡ got []
    → get (codes "sha256") e.fields ≡ text (h.sha256 raw)
unfolding check_bytes
check_bytes-nil h commit e raw k =
    is_text-eq _ _ (differs_lem (is_text (h.sha256 raw) (get (codes "sha256") e.fields)) e.path k)

check_against-nil :
    (h : Host) (core : Checkout) (commit : Str) (m : Dict) (es : List FileEntry)
    → get (codes "source_commit") m ≡ text commit
    → check_against h core m es ≡ got []
    → All (IsCores h core commit) es
unfolding check_against
check_against-nil h core commit m [] is k = tt
check_against-nil h core commit m (e ∷ es) is k =
    let (c, is_commit, k1) =
      bind-got (commit_text h (contains (codes "source_commit") m) (get (codes "source_commit") m))
        _ k in
    let same = commit_text-eq h _ _ commit is is_commit in
    let (raw, shown, k2) = bind-got (read_from_core core c e.path) _ k1 in
    let (found, first, k3) = bind-got (check_bytes h (get (codes "source_commit") m) e raw) _ k2 in
    let (rest, more, k4) = bind-got (check_against h core m es) _ k3 in
    let nothing = got-inj k4 in
    (
      record {
        raw = raw;
        shown = ap (λ d. read_from_core core d e.path) same ∙ shown;
        digest = check_bytes-nil h commit e raw (
            ap (λ v. check_bytes h v e raw) (sym is)
            ∙ first
            ∙ ap got (append-eq-nil_left found rest nothing));
      },
      check_against-nil h core commit m es is
          (more ∙ ap got (append-eq-nil_right found rest nothing)),
    )

-- The manifest and the files agree with what the script would choose in the checkout now.
pub record IsCurrent (h : Host) (core : Checkout) (args : Args) (m : Manifest) : Type 0 where
  pub provenance : Provenance
  pub measured : IsMeasured core args provenance
  pub commit_is : get (codes "source_commit") m.fields ≡ text provenance.commit
  pub ref_is : text_of (get (codes "source_ref") m.fields) ≡ got provenance.full_ref
  pub tip_is :
      (tip : Str)
      → sha_of (get (codes "source_ref_tip") m.fields) ≡ some tip
      → IsTip core provenance.full_ref provenance.commit tip
  pub files : All (IsCores h core provenance.commit) m.files

check_core-nil :
    (h : Host) (args : Args) (m : Manifest) (core : Checkout)
    → check_core h args m core ≡ got []
    → IsCurrent h core args m
unfolding check_core check_provenance
check_core-nil h args m core k =
    let (p, measured, k1) = bind-got (measure core args) _ k in
    let commit = get (codes "source_commit") m.fields in
    let tip = get (codes "source_ref_tip") m.fields in
    let ref = get (codes "source_ref") m.fields in
    let (a, of_provenance, k2) = bind-got (check_provenance core p ref tip commit) _ k1 in
    let (b, of_files, k3) = bind-got (check_against h core m.fields m.files) _ k2 in
    let nothing = got-inj k3 in
    let (full_ref, is_ref, k4) = bind-got (text_of ref) _ of_provenance in
    let (of_tip, tip_found, k5) =
      bind-got (check_recorded_tip core p.full_ref commit (sha_of tip)) _ k4 in
    let clean = got-inj k5 ∙ append-eq-nil_left a b nothing in
    let front =
      append-eq-nil_left
        (note_if (not (str_eq p.full_ref full_ref)) (ref_differs full_ref p.full_ref) ++ of_tip) _
        clean in
    let commit_is = is_text-eq p.commit commit (
      note_if-nil _ _ (
        append-eq-nil_right
          (note_if (not (str_eq p.full_ref full_ref)) (ref_differs full_ref p.full_ref) ++ of_tip) _
          clean)) in
    let same_ref =
      (str_eq_iff p.full_ref full_ref).0
        (note_if-nil _ (ref_differs full_ref p.full_ref) (append-eq-nil_left _ of_tip front)) in
    record {
      provenance = p;
      measured = measure-IsMeasured core args measured;
      commit_is = commit_is;
      ref_is = is_ref ∙ ap got (sym same_ref);
      tip_is = λ t is_tip. check_tip-nil core p.full_ref p.commit t (
          ap₂ (λ v o. check_recorded_tip core p.full_ref v o) (sym commit_is) (sym is_tip)
          ∙ tip_found
          ∙ ap got (
              append-eq-nil_right
                (note_if (not (str_eq p.full_ref full_ref)) (ref_differs full_ref p.full_ref))
                of_tip front));
      files =
          check_against-nil h core p.commit m.fields m.files commit_is
            (of_files ∙ ap got (append-eq-nil_right a b nothing));
    }

-- If `--check` with a checkout ends with status 0, the manifest pins the commit that the script
-- would choose there and the ref it resolves, a recorded tip of full form is a commit on the ref
-- with the pinned commit in its history, every listed file has its digest and size, and core's file
-- at that commit has the digest too.
pub check-IsCurrent :
    (h : Host) (core : Checkout) (args : Args) (disk : Files)
    → args.core ≡ some core
    → check h args disk ≡ got 0
    → ((m : Manifest) × (load_manifest h disk ≡ got m)
        × All (IsPinned h disk) m.files
        × IsCurrent h core args m)
check-IsCurrent h core args disk given k =
    let (m, loaded, fields, files, of_core) = check-parts h args disk k in
    (
      m,
      loaded,
      check_files-nil h disk m.files files,
      check_core-nil h args m core (ap (check_with h args m) (sym given) ∙ of_core),
    )
