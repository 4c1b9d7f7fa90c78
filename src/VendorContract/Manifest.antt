-- ===== src/VendorContract/Manifest.antt =====
-- scripts/vendor-contract.py, `load_manifest`, `insert_after`, `write_manifest` and `read_from_core`.
-- A manifest's path is the path from the repository's root, as `os.path.join(REPO, path)` opens it.
use Prim.Native.String.{String}
pub mod Inserted
pub mod Valid
use vizra_search.Base.{
  ◌==◌, ℕ, suc, Bool, true, false, not, ◌||◌, Option, none, some, List, [], ◌∷◌, ◌++◌, ltb,
  if◌then◌else◌, length, Str, codes, str_eq, starts_with, is_space, strip, normpath, is_absolute,
}
use vizra_search.Json.{
  Json, text, array, object, Values, no_value, value, Dict, no_entry, entry, get, is_true,
}
use vizra_search.Makegate.Pin.{Fetched, bytes}
use vizra_search.VendorContract.Attempt.{
  bad_json, foreign_manifest, few_files, lacks_key, moved_file, not_plain, empty_file, Attempt, got,
  died, raised, ◌>>=◌, ◌>>◌, die_if,
}
use vizra_search.VendorContract.Url.{canonical_owner_repo}
use vizra_search.VendorContract.Git.{Checkout, git}

-- The files by their paths: what opening and reading one gives.
abbrev pub Files : Type 0
Files = Str → Fetched

-- What the script asks of its surroundings: `json.loads` of decoded bytes, where `none` is a
-- ValueError; `json.dumps` with the line feed, encoded, where `none` is an exception; sha256; the
-- date; the text of a value that is none, as `%s` shows it; and writing a file, with whether
-- that raised nothing and the files after it.
pub record Host : Type 0 where
  pub loads : List ℕ → Option Json
  pub dumps : Json → Option (List ℕ)
  pub sha256 : List ℕ → Str
  pub today : Str
  pub show : Json → Str
  pub write : Str → List ℕ → Files → Bool × Files

abbrev pub manifest_path : Str
manifest_path = codes "api/CONTRACT-SOURCE.json"

abbrev pub min_vendored_files : ℕ
min_vendored_files = 2

-- An entry of `files` that passed the checks: its path, under both keys, and the dict.
pub record FileEntry : Type 0 where
  pub path : Str
  pub fields : Dict

pub record Manifest : Type 0 where
  pub fields : Dict
  pub files : List FileEntry

-- `not str(v or "").strip()`: only a text can be blank.
unfoldable pub is_missing : Json → Bool
unfolding strip is_space
is_missing (text s) = elim (strip is_space s) [ [] ↦ true | c ∷ t ↦ false ]
is_missing v = not (is_true v)

-- `isabs(path) or normpath(path) != path or path.startswith("..")`
unfoldable pub is_not_plain : Str → Bool
unfolding str_eq is_absolute normpath starts_with
is_not_plain path =
    is_absolute path || not (str_eq (normpath path) path) || starts_with (codes "..") path

abbrev pub unless_text : Json → Attempt Str
unless_text (text path) = died moved_file
unless_text v = raised

-- The checks on the path. Where neither value is a text, the comparison refuses them or `isabs` raises
-- an exception, both with status 1: `raised` stands for either.
unfoldable pub check_paths : Json → Json → Attempt Str
unfolding str_eq is_not_plain
check_paths (text source) (text vendored) = do
  die_if (not (str_eq source vendored)) moved_file
  die_if (is_not_plain vendored) (not_plain vendored)
  got vendored
check_paths (text source) vendored = died moved_file
check_paths source vendored = unless_text vendored

abbrev pub need_key : String → Json → Attempt Unit
need_key key v = die_if (is_missing v) (lacks_key (codes key))

-- The path of an entry, from its values at `source_path`, `vendored_path` and `role`.
unfoldable pub entry_path : Json → Json → Json → Attempt Str
unfolding is_missing check_paths
entry_path source vendored role = do
  need_key "source_path" source
  need_key "vendored_path" vendored
  need_key "role" role
  check_paths source vendored

unfoldable pub check_entry : Json → Attempt FileEntry
unfolding get entry_path
check_entry (object fields) = do
  path ←
      entry_path (get (codes "source_path") fields) (get (codes "vendored_path") fields)
        (get (codes "role") fields)
  got (record { path = path; fields = fields })
check_entry v = raised

unfoldable pub check_entries : Values → Attempt (List FileEntry)
unfolding check_entry
check_entries no_value = got []
check_entries (value v vs) = do e ← check_entry v; es ← check_entries vs; got (e ∷ es)

abbrev pub count_values : Values → ℕ
count_values no_value = 0
count_values (value v vs) = suc (count_values vs)

abbrev pub count_entries : Dict → ℕ
count_entries no_entry = 0
count_entries (entry k v d) = suc (count_entries d)

-- A sequence that holds no dict: too short, or its first element has no `get`.
abbrev pub no_dicts : ℕ → Attempt (List FileEntry)
no_dicts n = die_if (ltb n min_vendored_files) few_files >> raised

-- `m.get("files") or []`
unfoldable pub check_files : Json → Attempt (List FileEntry)
unfolding check_entries
check_files (array vs) =
    die_if (ltb (count_values vs) min_vendored_files) few_files >> check_entries vs
check_files (text s) = no_dicts (length s)
check_files (object d) = no_dicts (count_entries d)
check_files v = if is_true v then raised else died few_files

abbrev pub names_repository : Json → Bool
names_repository (text s) = str_eq s canonical_owner_repo
names_repository v = false

-- The manifest, from its values at `source_repository` and `files`.
unfoldable pub manifest_of : Dict → Json → Json → Attempt Manifest
unfolding check_files str_eq
manifest_of fields repository listed = do
  die_if (not (names_repository repository)) foreign_manifest
  files ← check_files listed
  got (record { fields = fields; files = files })

unfoldable pub check_manifest : Json → Attempt Manifest
unfolding get manifest_of
check_manifest (object m) =
    manifest_of m (get (codes "source_repository") m) (get (codes "files") m)
check_manifest v = raised

-- The list that holds the dicts of the entries.
abbrev pub values_of : List FileEntry → Values
values_of [] = no_value
values_of (e ∷ es) = value (object e.fields) (values_of es)

abbrev pub parsed : Option Json → Attempt Json
parsed none = died bad_json
parsed (some v) = got v

-- `open(...)` and `read()`
abbrev pub read_file : Fetched → Attempt (List ℕ)
read_file (bytes raw) = got raw
read_file f = raised

unfoldable pub load_manifest : Host → Files → Attempt Manifest
unfolding check_manifest
load_manifest h disk = do
  raw ← read_file (disk manifest_path)
  v ← parsed (h.loads raw)
  check_manifest v

-- The loop over the entries, each key once; `placed` as in the code.
unfoldable pub insert_from : Bool → Str → Str → Json → Dict → Dict
unfolding str_eq
insert_from placed anchor key v no_entry = if placed then no_entry else entry key v no_entry
insert_from placed anchor key v (entry k w d) =
    let rest = insert_from placed anchor key v d in
    let behind = insert_from true anchor key v d in
    if str_eq k key
    then rest
    else if str_eq k anchor
    then entry k w (entry key v behind)
    else entry k w rest

unfoldable pub insert_after : Dict → Str → Str → Json → Dict
unfolding insert_from
insert_after d anchor key v = insert_from false anchor key v d

abbrev pub ended : Bool → Attempt Unit
ended true = got tt
ended false = raised

-- An open file is empty before anything is written to it.
abbrev pub write_printed : Host → Option (List ℕ) → Files → Attempt Unit × Files
write_printed h none disk = (raised, (h.write manifest_path [] disk).1)
write_printed h (some raw) disk =
    let (ok, after) = h.write manifest_path raw disk in (ended ok, after)

unfoldable pub write_manifest : Host → Dict → Files → Attempt Unit × Files
write_manifest h m disk = write_printed h (h.dumps (object m)) disk

-- `git show <commit>:<path>`
abbrev pub show_args : Str → Str → List Str
show_args commit path = codes "show" ∷ (commit ++ codes ":" ++ path) ∷ []

unfoldable pub read_from_core : Checkout → Str → Str → Attempt (List ℕ)
unfolding git
read_from_core core commit path = do
  raw ← git core (show_args commit path)
  die_if (length raw == 0) (empty_file path)
  got raw
