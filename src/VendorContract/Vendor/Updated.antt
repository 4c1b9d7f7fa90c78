-- ===== src/VendorContract/Vendor/Updated.antt =====
-- scripts/vendor-contract.py: the manifest that `vendor` writes, field by field.
use vizra_search.Base.{
  ◌≤◌, suc, ℕ, subst, true, false, ◌≡◌, refl, sym, ap, ◌∙◌, List, [], ◌∷◌, map, length, All, Str,
  codes, str_eq,
}
use vizra_search.Json.{
  natural, text, array, Dict, get, contains, put, get-put, get-put_ne, contains-put,
  contains-put_ne,
}
use vizra_search.VendorContract.Git.{Checkout}
use vizra_search.VendorContract.Url.{canonical_owner_repo}
use vizra_search.VendorContract.Manifest.{is_missing, Host, FileEntry, Manifest, values_of}
use vizra_search.VendorContract.Manifest.Inserted.{
  get-insert_after, get-insert_after_ne, contains-insert_after_ne,
}
use vizra_search.VendorContract.Manifest.Valid.{IsPlain, IsManifest}
use vizra_search.VendorContract.Vendor.{Args, Provenance, pin_entry, with_note, updated}
use vizra_search.VendorContract.Vendor.Copied.{pinned}

get-with_note :
    (k : Str) (notes : List Str) (m : Dict)
    → str_eq k (codes "$provenance_note") ≡ false
    → get k (with_note notes m) ≡ get k m
get-with_note k [] m h = refl
get-with_note k (s ∷ ss) m h = get-put_ne k (codes "$provenance_note") _ m h

contains-with_note :
    (k : Str) (notes : List Str) (m : Dict)
    → str_eq k (codes "$provenance_note") ≡ false
    → contains k (with_note notes m) ≡ contains k m
contains-with_note k [] m h = refl
contains-with_note k (s ∷ ss) m h = contains-put_ne k (codes "$provenance_note") _ m h

-- The manifest after each of the assignments.
module _ (h : Host) (args : Args) (p : Provenance) (m : Dict) (files : List FileEntry) where
  abbrev with_files : Dict
  with_files = put (codes "files") (array (values_of files)) m

  abbrev with_repository : Dict
  with_repository = put (codes "source_repository") (text p.owner_repo) with_files

  abbrev with_ref : Dict
  with_ref = put (codes "source_ref") (text p.full_ref) with_repository

  abbrev with_commit : Dict
  with_commit = put (codes "source_commit") (text p.commit) with_ref

  abbrev with_date : Dict
  with_date = put (codes "vendored_at") (text h.today) with_commit

  -- A key that none of the later assignments writes.
  past_tip :
      (k : Str)
      → str_eq k (codes "source_ref_tip") ≡ false
      → str_eq k (codes "$provenance_note") ≡ false
      → str_eq k (codes "vendored_at") ≡ false
      → get k (updated h args p m files) ≡ get k with_commit
  unfolding updated
  past_tip k tip note at =
      get-insert_after_ne (codes "source_ref") (codes "source_ref_tip") (text p.tip) k
        (with_note args.note with_date) tip
      ∙ get-with_note k args.note with_date note
      ∙ get-put_ne k (codes "vendored_at") (text h.today) with_commit at

  pub get-updated-tip : get (codes "source_ref_tip") (updated h args p m files) ≡ text p.tip
  unfolding updated
  get-updated-tip =
      get-insert_after (codes "source_ref") (codes "source_ref_tip") (text p.tip)
        (with_note args.note with_date)

  pub get-updated-commit : get (codes "source_commit") (updated h args p m files) ≡ text p.commit
  unfolding str_eq
  get-updated-commit =
      past_tip (codes "source_commit") refl refl refl
      ∙ get-put (codes "source_commit") (text p.commit) with_ref

  pub contains-updated-commit : contains (codes "source_commit") (updated h args p m files) ≡ true
  unfolding updated str_eq
  contains-updated-commit =
      contains-insert_after_ne (codes "source_ref") (codes "source_ref_tip") (text p.tip)
        (codes "source_commit") (with_note args.note with_date) refl
      ∙ contains-with_note (codes "source_commit") args.note with_date refl
      ∙ contains-put_ne (codes "source_commit") (codes "vendored_at") (text h.today) with_commit
          refl
      ∙ contains-put (codes "source_commit") (text p.commit) with_ref

  -- A key that the assignment of the commit does not write either.
  past_commit :
      (k : Str)
      → str_eq k (codes "source_ref_tip") ≡ false
      → str_eq k (codes "$provenance_note") ≡ false
      → str_eq k (codes "vendored_at") ≡ false
      → str_eq k (codes "source_commit") ≡ false
      → get k (updated h args p m files) ≡ get k with_ref
  past_commit k tip note at commit =
      past_tip k tip note at ∙ get-put_ne k (codes "source_commit") (text p.commit) with_ref commit

  pub get-updated-ref : get (codes "source_ref") (updated h args p m files) ≡ text p.full_ref
  unfolding str_eq
  get-updated-ref =
      past_commit (codes "source_ref") refl refl refl refl
      ∙ get-put (codes "source_ref") (text p.full_ref) with_repository

  pub get-updated-repository :
      get (codes "source_repository") (updated h args p m files) ≡ text p.owner_repo
  unfolding str_eq
  get-updated-repository =
      past_commit (codes "source_repository") refl refl refl refl
      ∙ get-put_ne (codes "source_repository") (codes "source_ref") (text p.full_ref)
          with_repository refl
      ∙ get-put (codes "source_repository") (text p.owner_repo) with_files

  pub get-updated-files : get (codes "files") (updated h args p m files) ≡ array (values_of files)
  unfolding str_eq
  get-updated-files =
      past_commit (codes "files") refl refl refl refl
      ∙ get-put_ne (codes "files") (codes "source_ref") (text p.full_ref) with_repository refl
      ∙ get-put_ne (codes "files") (codes "source_repository") (text p.owner_repo) with_files refl
      ∙ get-put (codes "files") (array (values_of files)) m

module _ (h : Host) (e : FileEntry) (written : List ℕ) where
  abbrev with_digest : Dict
  with_digest = put (codes "sha256") (text (h.sha256 written)) e.fields

  get-pin_entry :
      (k : Str)
      → str_eq k (codes "bytes") ≡ false
      → str_eq k (codes "sha256") ≡ false
      → get k (pin_entry h e written).fields ≡ get k e.fields
  unfolding pin_entry
  get-pin_entry k size digest =
      get-put_ne k (codes "bytes") (natural (length written)) with_digest size
      ∙ get-put_ne k (codes "sha256") (text (h.sha256 written)) e.fields digest

  pub get-pin_entry-digest :
      get (codes "sha256") (pin_entry h e written).fields ≡ text (h.sha256 written)
  unfolding pin_entry str_eq
  get-pin_entry-digest =
      get-put_ne (codes "sha256") (codes "bytes") (natural (length written)) with_digest refl
      ∙ get-put (codes "sha256") (text (h.sha256 written)) e.fields

  pub get-pin_entry-size :
      get (codes "bytes") (pin_entry h e written).fields ≡ natural (length written)
  unfolding pin_entry
  get-pin_entry-size = get-put (codes "bytes") (natural (length written)) with_digest

  pub pin_entry-IsPlain : IsPlain e → IsPlain (pin_entry h e written)
  unfolding pin_entry str_eq
  pin_entry-IsPlain plain = record {
    source = get-pin_entry (codes "source_path") refl refl ∙ plain.source;
    vendored = get-pin_entry (codes "vendored_path") refl refl ∙ plain.vendored;
    named = plain.named;
    role = ap is_missing (get-pin_entry (codes "role") refl refl) ∙ plain.role;
    relative = plain.relative;
    normal = plain.normal;
    inside = plain.inside;
  }

map_pinned-IsPlain :
    (h : Host) (core : Checkout) (commit : Str) (es : List FileEntry)
    → All IsPlain es
    → All IsPlain (map (pinned h core commit) es)
map_pinned-IsPlain h core commit [] plain = tt
map_pinned-IsPlain h core commit (e ∷ es) plain =
    (pin_entry-IsPlain h e _ plain.0, map_pinned-IsPlain h core commit es plain.1)

length-map_pinned :
    (h : Host) (core : Checkout) (commit : Str) (es : List FileEntry)
    → length (map (pinned h core commit) es) ≡ length es
length-map_pinned h core commit [] = refl
length-map_pinned h core commit (e ∷ es) = ap suc (length-map_pinned h core commit es)

-- The manifest that is written, with the entries that it lists.
abbrev pub written_manifest : Host → Checkout → Args → Provenance → Manifest → Manifest
written_manifest h core args p m =
    let files = map (pinned h core p.commit) m.files in
    record { fields = updated h args p m.fields files; files = files }

-- A valid manifest stays valid, where the repository is spelled the canonical way.
pub written_manifest-IsManifest :
    (h : Host) (core : Checkout) (args : Args) (p : Provenance) (m : Manifest)
    → p.owner_repo ≡ canonical_owner_repo
    → IsManifest m
    → IsManifest (written_manifest h core args p m)
written_manifest-IsManifest h core args p m spelled valid = record {
  repository = get-updated-repository h args p m.fields _ ∙ ap text spelled;
  listed = get-updated-files h args p m.fields _;
  enough = subst (λ n. 2 ≤ n) (sym (length-map_pinned h core p.commit m.files)) valid.enough;
  plain = map_pinned-IsPlain h core p.commit m.files valid.plain;
}
