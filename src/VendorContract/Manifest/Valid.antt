-- ===== src/VendorContract/Manifest/Valid.antt =====
-- scripts/vendor-contract.py, `load_manifest`: what an accepted manifest holds.
use vizra_search.Base.{
  ◌↔◌, if◌then◌else◌, subst, ℕ, zero, suc, ◌≤◌, Bool, true, false, not, ◌||◌, ◌≡◌, ◌≢◌, str_eq_refl,
  refl, sym, ap, ap₂, ◌∙◌, List, [], ◌∷◌, ltb, arith, length, All, Str, codes, str_eq, str_eq_iff,
  starts_with, normpath, is_absolute, or_left, or_right, not-false,
}
use vizra_search.Json.{Json, text, array, object, Values, no_value, value, get, is_true}
use vizra_search.VendorContract.Attempt.{
  Attempt, got, died, raised, ◌>>=◌, ◌>>◌, bind-got, then-got, die_if, die_if-got, got-inj,
  died-not-got, raised-not-got, moved_file, not_plain, few_files, Refusal,
}
use vizra_search.VendorContract.Url.{canonical_owner_repo}
use vizra_search.VendorContract.Manifest.{
  FileEntry, Manifest, is_missing, unless_text, is_not_plain, check_paths, entry_path, check_entry,
  check_entries, count_values, count_entries, no_dicts, check_files, names_repository, manifest_of,
  check_manifest, values_of,
}

-- The entry names one path, relative, in its normal form and inside the repository.
pub record IsPlain (e : FileEntry) : Type 0 where
  pub source : get (codes "source_path") e.fields ≡ text e.path
  pub vendored : get (codes "vendored_path") e.fields ≡ text e.path
  pub named : is_missing (text e.path) ≡ false
  pub role : is_missing (get (codes "role") e.fields) ≡ false
  pub relative : is_absolute e.path ≡ false
  pub normal : normpath e.path ≡ e.path
  pub inside : starts_with (codes "..") e.path ≡ false

pub record IsManifest (m : Manifest) : Type 0 where
  pub repository : get (codes "source_repository") m.fields ≡ text canonical_owner_repo
  pub listed : get (codes "files") m.fields ≡ array (values_of m.files)
  pub enough : 2 ≤ length m.files
  pub plain : All IsPlain m.files

unless_text-not-got : (v : Json) {path : Str} → unless_text v ≢ got path
unless_text-not-got (text s) = λ e. cc
unless_text-not-got v = λ e. cc

-- The path is relative, in its normal form and inside the repository.
abbrev PlainPath : Str → Type 0
PlainPath path =
    (is_absolute path ≡ false) × (normpath path ≡ path) × (starts_with (codes "..") path ≡ false)

is_not_plain-PlainPath : (path : Str) → is_not_plain path ≡ false → PlainPath path
unfolding is_not_plain
is_not_plain-PlainPath path h =
    let front = or_left (is_absolute path || not (str_eq (normpath path) path)) _ h in
    (
      or_left (is_absolute path) _ front,
      (str_eq_iff (normpath path) path).0 (not-false _ (or_right (is_absolute path) _ front)),
      or_right (is_absolute path || not (str_eq (normpath path) path)) _ h,
    )

PlainPath-is_not_plain : (path : Str) → PlainPath path → is_not_plain path ≡ false
unfolding is_not_plain
PlainPath-is_not_plain path (relative, normal, inside) =
    ap₂ (λ a b. a || b)
      (ap₂ (λ a b. a || b) relative (ap not ((str_eq_iff (normpath path) path).1 normal))) inside

check_paths-text :
    (source vendored : Json) {path : Str}
    → check_paths source vendored ≡ got path
    → (source ≡ text path) × (vendored ≡ text path) × PlainPath path
unfolding check_paths
check_paths-text (text s) (text v) {path} e =
    let (same, e1) = then-got _ _ e in
    let (plain, e2) = then-got _ _ e1 in
    subst (λ p. (text s ≡ text p) × (text v ≡ text p) × PlainPath p) (got-inj e2)
      (
        ap text ((str_eq_iff s v).0 (not-false _ (die_if-got _ _ same))),
        refl,
        is_not_plain-PlainPath v (die_if-got _ _ plain),
      )
check_paths-text (text s) v e = absurd (died-not-got e)
check_paths-text s v e = absurd (unless_text-not-got v e)

check_entry-IsPlain :
    (v : Json) {e : FileEntry} → check_entry v ≡ got e → (v ≡ object e.fields) × IsPlain e
unfolding check_entry entry_path
check_entry-IsPlain (object fields) {e} h =
    let (path, h1, same) = bind-got _ _ h in
    let (source, h2) = then-got _ _ h1 in
    let (vendored, h3) = then-got _ _ h2 in
    let (role, h4) = then-got _ _ h3 in
    let (is_source, is_vendored, (relative, normal, inside)) =
      check_paths-text (get (codes "source_path") fields) (get (codes "vendored_path") fields) h4 in
    subst (λ (f : FileEntry). (object fields ≡ object f.fields) × IsPlain f) (got-inj same)
      (
        refl,
        record {
          source = is_source;
          vendored = is_vendored;
          named = ap is_missing (sym is_vendored) ∙ die_if-got _ _ vendored;
          role = die_if-got _ _ role;
          relative = relative;
          normal = normal;
          inside = inside;
        },
      )
check_entry-IsPlain v h = cc

check_paths-plain : (path : Str) → PlainPath path → check_paths (text path) (text path) ≡ got path
unfolding check_paths
check_paths-plain path plain =
    ap₂ (λ a b. die_if (not a) moved_file >> (die_if b (not_plain path) >> got path))
      (str_eq_refl path) (PlainPath-is_not_plain path plain)

check_entry-plain : (e : FileEntry) → IsPlain e → check_entry (object e.fields) ≡ got e
unfolding check_entry entry_path
check_entry-plain e p =
    rw (p.source, p.vendored, p.named, p.role)
      (ap (λ (a : Attempt Str). a >>= λ path. got (record { path = path; fields = e.fields }))
        (check_paths-plain e.path (p.relative, p.normal, p.inside)))

check_entries-values :
    (vs : Values) {es : List FileEntry}
    → check_entries vs ≡ got es
    → (vs ≡ values_of es) × All IsPlain es × (count_values vs ≡ length es)
unfolding check_entries
check_entries-values no_value e =
    subst (λ es. (no_value ≡ values_of es) × All IsPlain es × (0 ≡ length es)) (got-inj e)
      (refl, tt, refl)
check_entries-values (value v vs) h =
    let (e, is_plain, h1) = bind-got _ _ h in
    let (es, are_plain, h2) = bind-got _ _ h1 in
    let (is_object, plain) = check_entry-IsPlain v is_plain in
    let (are_objects, all_plain, count) = check_entries-values vs are_plain in
    subst (λ fs. (value v vs ≡ values_of fs) × All IsPlain fs × (suc (count_values vs) ≡ length fs))
      (got-inj h2) (ap₂ value is_object are_objects, (plain, all_plain), ap suc count)

check_entries-plain :
    (es : List FileEntry)
    → All IsPlain es
    → (check_entries (values_of es) ≡ got es) × (count_values (values_of es) ≡ length es)
unfolding check_entries
check_entries-plain [] h = (refl, refl)
check_entries-plain (e ∷ es) (plain, all_plain) =
    let (rest, count) = check_entries-plain es all_plain in
    (
      ap₂ (λ a b. a >>= λ x. b >>= λ xs. got (x ∷ xs)) (check_entry-plain e plain) rest,
      ap suc count,
    )

names_repository-text : (v : Json) → names_repository v ≡ true → v ≡ text canonical_owner_repo
names_repository-text (text s) h = ap text ((str_eq_iff s canonical_owner_repo).0 h)
names_repository-text v h = cc

two_le : (n : ℕ) → ltb n 2 ≡ false → 2 ≤ n
two_le zero h = cc
two_le (suc zero) h = cc
two_le (suc (suc n)) h = omega arith

ltb_two : (n : ℕ) → 2 ≤ n → ltb n 2 ≡ false
ltb_two n h = ground arith

no_dicts-not-got : (n : ℕ) {es : List FileEntry} → no_dicts n ≢ got es
no_dicts-not-got n = λ e. absurd (raised-not-got (then-got _ _ e).1)

either-not-got :
    (b : Bool) (r : Refusal) {es : List FileEntry} → (if b then raised else died r) ≢ got es
either-not-got true r = λ e. cc
either-not-got false r = λ e. cc

-- What a value of `files` that is accepted is.
check_files-array :
    (v : Json) {es : List FileEntry}
    → check_files v ≡ got es
    → (v ≡ array (values_of es)) × (2 ≤ length es) × All IsPlain es
unfolding check_files
check_files-array (array vs) h =
    let (enough, h1) = then-got _ _ h in
    let (are_values, plain, count) = check_entries-values vs h1 in
    (ap array are_values, subst (λ n. 2 ≤ n) count (two_le _ (die_if-got _ _ enough)), plain)
check_files-array (text s) h = absurd (no_dicts-not-got (length s) h)
check_files-array (object d) h = absurd (no_dicts-not-got (count_entries d) h)
check_files-array v h = absurd (either-not-got (is_true v) few_files h)

check_files-plain :
    (es : List FileEntry)
    → 2 ≤ length es
    → All IsPlain es
    → check_files (array (values_of es)) ≡ got es
unfolding check_files
check_files-plain es enough plain =
    let (entries, count) = check_entries-plain es plain in
    ap₂ (λ n a. die_if (ltb n 2) few_files >> a) count entries
    ∙ ap (λ b. die_if b few_files >> got es) (ltb_two (length es) enough)

-- What check_manifest accepts is a manifest in the sense of `IsManifest`.
pub check_manifest-IsManifest :
    (v : Json) {m : Manifest} → check_manifest v ≡ got m → (v ≡ object m.fields) × IsManifest m
unfolding check_manifest manifest_of
check_manifest-IsManifest (object fields) {m} h =
    let (named, h1) = then-got _ _ h in
    let (files, accepted, h2) = bind-got (check_files (get (codes "files") fields)) _ h1 in
    let (listed, enough, plain) = check_files-array (get (codes "files") fields) accepted in
    subst (λ (n : Manifest). (object fields ≡ object n.fields) × IsManifest n) (got-inj h2)
      (
        refl,
        record {
          repository = names_repository-text _ (not-false _ (die_if-got _ _ named));
          listed = listed;
          enough = enough;
          plain = plain;
        },
      )
check_manifest-IsManifest v h = cc

pub IsManifest-check_manifest :
    (m : Manifest) → IsManifest m → check_manifest (object m.fields) ≡ got m
unfolding check_manifest manifest_of
IsManifest-check_manifest m h =
    ap₂ (λ r l. manifest_of m.fields r l) h.repository h.listed
    ∙ ap
        (λ (a : Attempt (List FileEntry)).
          a >>= λ files. got (record { fields = m.fields; files = files }))
        (check_files-plain m.files h.enough h.plain)

-- A decoded manifest is accepted, with its entries, exactly when it is a dict that names the
-- canonical repository and lists at least two dicts, each with a role and with one plain relative
-- path under both keys.
pub check_manifest_iff :
    (v : Json) (m : Manifest) → (check_manifest v ≡ got m) ↔ ((v ≡ object m.fields) × IsManifest m)
check_manifest_iff v m = (
  check_manifest-IsManifest v,
  λ (same, valid). ap check_manifest same ∙ IsManifest-check_manifest m valid,
)
