-- ===== src/VendorContract/Check.antt =====
-- scripts/vendor-contract.py, `check` and `main`.
pub mod Intact
pub mod OfCore
use vizra_search.Base.{
  ℕ, Bool, true, false, not, ◌&&◌, ◌||◌, Option, none, some, List, [], ◌∷◌, ◌++◌, ◌==◌, between,
  if◌then◌else◌, length, Str, codes, str_eq, starts_with,
}
use vizra_search.Json.{
  Json, bool, natural, negative, fraction, text, array, object, Dict, get, contains, is_true,
}
use vizra_search.Makegate.Pin.{Fetched, missing, unreadable, bytes}
use vizra_search.VendorContract.Attempt.{
  Refusal, core_required, Attempt, got, died, raised, ◌>>=◌, ◌>>◌,
}
use vizra_search.VendorContract.Git.{Checkout, git_raw}
use vizra_search.VendorContract.Refs.{ancestry}
use vizra_search.VendorContract.Manifest.{
  Files, Host, FileEntry, Manifest, count_values, count_entries, load_manifest, read_from_core,
}
use vizra_search.VendorContract.Vendor.{Args, Provenance, measure, vendor}

-- One constructor for each message, with the value or the path that it names.
pub data Problem : Type 0 where
  short_commit bad_tip : Json → Problem
  short_ref : Str → Problem
  missing_file digest_differs size_differs : Str → Problem
  -- the ref of the manifest, the ref of the checkout
  ref_differs : Str → Str → Problem
  unknown_tip tip_not_on_ref commit_not_in_tip : Str → Problem
  stale_commit : Str → Problem
  core_differs : Str → Problem

-- `[p]` if `b`
abbrev pub note_if : Bool → Problem → List Problem
note_if true p = p ∷ []
note_if false p = []

-- `len(v or "")`
abbrev pub length_of : Json → Attempt ℕ
length_of (text s) = got (length s)
length_of (array vs) = got (count_values vs)
length_of (object d) = got (count_entries d)
length_of v = if is_true v then raised else got 0

-- `v or ""`, where only a text can be used
abbrev pub text_of : Json → Attempt Str
text_of (text s) = got s
text_of v = if is_true v then raised else got []

abbrev hex_digit : ℕ → Bool
hex_digit c = between b'0' b'9' c || between b'a' b'f' c

all_hex : Str → Bool
all_hex [] = true
all_hex (c ∷ s) = hex_digit c && all_hex s

-- `re.fullmatch(r"[0-9a-f]{40}", s)`
unfoldable pub is_sha : Str → Bool
unfolding all_hex
is_sha s = length s == 40 && all_hex s

abbrev pub null_id : Str
null_id = codes "0000000000000000000000000000000000000000"

-- The tip, if it is a text of that form.
unfoldable pub sha_of : Json → Option Str
unfolding is_sha
sha_of (text s) = if is_sha s then some s else none
sha_of v = none

unfoldable pub is_bad_tip : Json → Bool
unfolding sha_of str_eq
is_bad_tip v = elim (sha_of v) [ none ↦ true | some s ↦ str_eq s null_id ]

-- `s == v`, for a text
abbrev pub is_text : Str → Json → Bool
is_text s (text t) = str_eq s t
is_text s v = false

-- `n == v`, for a number of at least 0; True is 1 and False is 0.
abbrev pub is_number : ℕ → Json → Bool
is_number n (natural m) = n == m
is_number n (negative m) = n == 0 && m == 0
is_number n (fraction shown (some m)) = n == m
is_number n (bool b) = n == (if b then 1 else 0)
is_number n v = false

unfoldable pub check_content : Host → FileEntry → Fetched → Attempt (List Problem)
unfolding get str_eq
check_content h e missing = got (missing_file e.path ∷ [])
check_content h e unreadable = raised
check_content h e (bytes raw) = got (
    note_if (not (is_text (h.sha256 raw) (get (codes "sha256") e.fields))) (digest_differs e.path)
    ++ note_if (not (is_number (length raw) (get (codes "bytes") e.fields))) (size_differs e.path))

unfoldable pub check_files : Host → Files → List FileEntry → Attempt (List Problem)
unfolding check_content
check_files h disk [] = got []
check_files h disk (e ∷ es) = do
  found ← check_content h e (disk e.path)
  rest ← check_files h disk es
  got (found ++ rest)

-- The fields of the manifest on their own: the values at `source_commit`, `source_ref_tip` and
-- `source_ref`.
unfoldable pub judge_fields : Json → Json → Json → Attempt (List Problem)
unfolding is_bad_tip starts_with
judge_fields commit tip ref = do
  n ← length_of commit
  recorded_ref ← text_of ref
  got (
      note_if (not (n == 40)) (short_commit commit)
      ++ note_if (is_bad_tip tip) (bad_tip tip)
      ++ note_if (not (starts_with (codes "refs/remotes/") recorded_ref)) (short_ref recorded_ref))

unfoldable pub check_fields : Dict → Attempt (List Problem)
unfolding get judge_fields
check_fields m =
    judge_fields (get (codes "source_commit") m) (get (codes "source_ref_tip") m)
      (get (codes "source_ref") m)

-- The question whether the tip is a commit.
abbrev pub tip_args : Str → List Str
tip_args tip = codes "cat-file" ∷ codes "-e" ∷ (tip ++ codes "^{commit}") ∷ []

-- A recorded tip of the right form, against the checkout.
unfoldable pub check_tip : Checkout → Str → Json → Str → Attempt (List Problem)
unfolding git_raw
check_tip core full_ref source_commit tip = do
  known ← git_raw core (tip_args tip)
  if not known.ok then got (unknown_tip tip ∷ []) else do
    on_ref ← git_raw core (ancestry tip full_ref)
    commit ← text_of source_commit
    contained ← git_raw core (ancestry commit tip)
    got (
        note_if (not on_ref.ok) (tip_not_on_ref tip)
        ++ note_if (not contained.ok) (commit_not_in_tip commit))

abbrev pub check_recorded_tip : Checkout → Str → Json → Option Str → Attempt (List Problem)
check_recorded_tip core full_ref source_commit none = got []
check_recorded_tip core full_ref source_commit (some tip) =
    check_tip core full_ref source_commit tip

-- `"%s" % m["source_commit"]`, from whether the key is there and its value
abbrev pub commit_text : Host → Bool → Json → Attempt Str
commit_text h false v = raised
commit_text h true (text s) = got s
commit_text h true v = got (h.show v)

-- `m["source_commit"][:7]`, in the message
abbrev pub can_slice : Json → Bool
can_slice (text s) = true
can_slice (array vs) = true
can_slice v = false

-- One entry, with the value of `source_commit` and what core has at that commit.
unfoldable pub check_bytes : Host → Json → FileEntry → List ℕ → Attempt (List Problem)
unfolding get str_eq
check_bytes h commit e raw =
    let differs = not (is_text (h.sha256 raw) (get (codes "sha256") e.fields)) in
    if differs && not (can_slice commit)
    then raised
    else got (note_if differs (core_differs e.path))

unfoldable pub check_against : Host → Checkout → Dict → List FileEntry → Attempt (List Problem)
unfolding get contains read_from_core check_bytes
check_against h core m [] = got []
check_against h core m (e ∷ es) = do
  commit ← commit_text h (contains (codes "source_commit") m) (get (codes "source_commit") m)
  raw ← read_from_core core commit e.path
  found ← check_bytes h (get (codes "source_commit") m) e raw
  rest ← check_against h core m es
  got (found ++ rest)

-- What the checkout is found to be, against the values at `source_ref`, `source_ref_tip` and
-- `source_commit`.
unfoldable pub check_provenance :
    Checkout → Provenance → Json → Json → Json → Attempt (List Problem)
unfolding sha_of check_tip str_eq
check_provenance core p ref tip commit = do
  recorded_ref ← text_of ref
  of_tip ← check_recorded_tip core p.full_ref commit (sha_of tip)
  got (
      note_if (not (str_eq p.full_ref recorded_ref)) (ref_differs recorded_ref p.full_ref)
      ++ of_tip
      ++ note_if (not (is_text p.commit commit)) (stale_commit p.commit))

unfoldable pub check_core : Host → Args → Manifest → Checkout → Attempt (List Problem)
unfolding measure get check_provenance check_against
check_core h args m core = do
  p ← measure core args
  of_provenance ←
      check_provenance core p (get (codes "source_ref") m.fields)
        (get (codes "source_ref_tip") m.fields) (get (codes "source_commit") m.fields)
  of_files ← check_against h core m.fields m.files
  got (of_provenance ++ of_files)

abbrev pub check_with : Host → Args → Manifest → Option Checkout → Attempt (List Problem)
check_with h args m none = got []
check_with h args m (some core) = check_core h args m core

-- Every problem, in the order of the code.
unfoldable pub check_problems : Host → Args → Files → Attempt (List Problem)
unfolding load_manifest check_fields check_files check_core
check_problems h args disk = do
  m ← load_manifest h disk
  of_fields ← check_fields m.fields
  of_files ← check_files h disk m.files
  of_core ← check_with h args m args.core
  got (of_fields ++ of_files ++ of_core)

abbrev pub check_status : List Problem → ℕ
check_status [] = 0
check_status (p ∷ ps) = 1

unfoldable pub check : Host → Args → Files → Attempt ℕ
unfolding check_problems
check h args disk = do problems ← check_problems h args disk; got (check_status problems)

-- Without `--check`: a checkout has to be given.
abbrev pub run_given : Host → Args → Option Checkout → Files → Attempt ℕ × Files
run_given h args none disk = (died core_required, disk)
run_given h args (some core) disk = vendor h core args disk

-- The status, and the files after the run.
unfoldable pub main : Host → Args → Files → Attempt ℕ × Files
unfolding check vendor
main h args disk = if args.check then (check h args disk, disk) else run_given h args args.core disk

abbrev pub refusal_status : Refusal → ℕ
refusal_status core_required = 2
refusal_status r = 1

-- The exit status of the process.
abbrev pub exit_status : Attempt ℕ → ℕ
exit_status (got n) = n
exit_status (died r) = refusal_status r
exit_status raised = 1
