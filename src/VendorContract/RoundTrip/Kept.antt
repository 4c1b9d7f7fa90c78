-- ===== src/VendorContract/RoundTrip/Kept.antt =====
-- scripts/vendor-contract.py: the manifest and the copies that `vendor` leaves are loaded and found intact.
use vizra_search.Base.{
  ℕ, Bool, true, false, not, ◌||◌, ◌≡◌, refl, sym, ap, ap₂, ◌∙◌, some, List, [], ◌∷◌, ◌++◌, map,
  length, All, Str, str_eq, str_eq_refl, mem_str, ==_refl, In, here, there, or_left, or_right,
  str_eq_ne_sym,
}
use vizra_search.Json.{Json}
use vizra_search.Makegate.Pin.{bytes}
use vizra_search.VendorContract.Attempt.{bind-got, got, ◌>>=◌}
use vizra_search.VendorContract.Git.{Checkout}
use vizra_search.VendorContract.Manifest.{
  Files, Host, FileEntry, Manifest, manifest_path, load_manifest, check_manifest, parsed, read_file,
}
use vizra_search.VendorContract.Manifest.Valid.{IsManifest, check_manifest-IsManifest}
use vizra_search.VendorContract.Vendor.{pin_entry}
use vizra_search.VendorContract.Vendor.Copied.{overwrite, core_bytes, copy_all, path_of, pinned}
use vizra_search.VendorContract.Vendor.Updated.{get-pin_entry-digest, get-pin_entry-size}
use vizra_search.VendorContract.Check.{
  size_differs, digest_differs, note_if, is_text, is_number, check_content, check_files,
}

-- What json.dumps writes for the value, json.loads reads back as the value.
abbrev pub ReadsBack : Host → Json → Type 0
ReadsBack h v = (raw : List ℕ) → h.dumps v ≡ some raw → h.loads raw ≡ some v

pub load_manifest-IsManifest :
    (h : Host) (disk : Files) {m : Manifest} → load_manifest h disk ≡ got m → IsManifest m
unfolding load_manifest
load_manifest-IsManifest h disk e =
    let (raw, found, e1) = bind-got (read_file (disk manifest_path)) _ e in
    let (v, decoded, e2) = bind-got (parsed (h.loads raw)) _ e1 in
    (check_manifest-IsManifest v e2).1

-- What is on disk is checked.
pub load_manifest-check_manifest :
    (h : Host) (disk : Files) (raw : List ℕ) (v : Json)
    → disk manifest_path ≡ bytes raw
    → h.loads raw ≡ some v
    → load_manifest h disk ≡ check_manifest v
unfolding load_manifest
load_manifest-check_manifest h disk raw v found decoded =
    ap (λ f. read_file f >>= λ r. parsed (h.loads r) >>= check_manifest) found
    ∙ ap (λ v. parsed v >>= check_manifest) decoded

-- The listed files hold core's bytes.
abbrev Holds : Checkout → Str → Files → List FileEntry → Type 0
Holds core commit disk = All (λ e. disk e.path ≡ bytes (core_bytes core commit e.path))

or_true_lem : (b : Bool) → (b || true) ≡ true
or_true_lem true = refl
or_true_lem false = refl

mem_str-path :
    (e : FileEntry) (es : List FileEntry) → In e es → mem_str e.path (map path_of es) ≡ true
unfolding mem_str
mem_str-path e [] m = elim m [ ]
mem_str-path e (f ∷ es) (here same) =
    ap (λ (g : FileEntry). str_eq e.path g.path || mem_str e.path (map path_of es)) (sym same)
    ∙ ap (λ b. b || mem_str e.path (map path_of es)) (str_eq_refl e.path)
mem_str-path e (f ∷ es) (there m) =
    ap (λ b. str_eq e.path f.path || b) (mem_str-path e es m) ∙ or_true_lem (str_eq e.path f.path)

not_manifest :
    (e : FileEntry) (es : List FileEntry)
    → In e es
    → mem_str manifest_path (map path_of es) ≡ false
    → str_eq e.path manifest_path ≡ false
unfolding mem_str
not_manifest e [] m h = elim m [ ]
not_manifest e (f ∷ es) (here same) h =
    ap (λ (g : FileEntry). str_eq g.path manifest_path) same
    ∙ str_eq_ne_sym manifest_path f.path (or_left (str_eq manifest_path f.path) _ h)
not_manifest e (f ∷ es) (there m) h =
    not_manifest e es m (or_right (str_eq manifest_path f.path) _ h)

pub overwritten :
    (path : Str) (raw : List ℕ) (disk : Files) → overwrite path raw disk path ≡ bytes raw
overwritten path raw disk = rw (str_eq_refl path) refl

pub copied_file :
    (content : Str → List ℕ) (raw : List ℕ) (e : FileEntry) (es : List FileEntry) (disk : Files)
    → In e es
    → mem_str manifest_path (map path_of es) ≡ false
    → overwrite manifest_path raw (copy_all content (map path_of es) disk) e.path
      ≡ bytes (content e.path)
copied_file content raw e es disk m h = rw (not_manifest e es m h, mem_str-path e es m) refl

check_content-pinned :
    (h : Host) (core : Checkout) (commit : Str) (e : FileEntry)
    → check_content h (pinned h core commit e) (bytes (core_bytes core commit e.path)) ≡ got []
unfolding check_content pin_entry
check_content-pinned h core commit e =
    let raw : List ℕ = core_bytes core commit e.path in
    ap₂
      (λ d n. got (
        note_if (not (is_text (h.sha256 raw) d)) (digest_differs e.path)
        ++ note_if (not (is_number (length raw) n)) (size_differs e.path)))
      (get-pin_entry-digest h e raw) (get-pin_entry-size h e raw)
    ∙ ap₂
        (λ a b.
          got (note_if (not a) (digest_differs e.path) ++ note_if (not b) (size_differs e.path)))
        (str_eq_refl (h.sha256 raw)) (==_refl (length raw))

pub check_files-pinned :
    (h : Host) (core : Checkout) (commit : Str) (disk : Files) (es : List FileEntry)
    → Holds core commit disk es
    → check_files h disk (map (pinned h core commit) es) ≡ got []
unfolding check_files pin_entry
check_files-pinned h core commit disk [] held = refl
check_files-pinned h core commit disk (e ∷ es) (found, held) =
    ap₂ (λ a b. a >>= λ x. b >>= λ xs. got (x ++ xs))
      (ap (check_content h (pinned h core commit e)) found ∙ check_content-pinned h core commit e)
      (check_files-pinned h core commit disk es held)
