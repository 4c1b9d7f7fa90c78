-- ===== src/VendorContract/Vendor/Copied.antt =====
-- scripts/vendor-contract.py, the loop of `vendor` as a change to a function from paths to files.
use mathlib.Core.Path.{fun_ext}
use vizra_search.Base.{
  Option, none, some, not-false, subst, ℕ, Bool, true, false, ◌≡◌, refl, sym, ap, ap₂, ◌∙◌, inl,
  inr, List, [], ◌∷◌, map, Str, str_eq, str_eq_iff, mem_str, Bool-cases, if◌then◌else◌, All,
}
use vizra_search.Makegate.Pin.{Fetched, missing, unreadable, bytes}
use vizra_search.VendorContract.Attempt.{
  Attempt, got, died, raised, ◌>>◌, bind-got, then-got, die_if-got, got-inj,
}
use vizra_search.VendorContract.Git.{Answer, Checkout, git, git_raw}
use vizra_search.VendorContract.Manifest.{Files, Host, FileEntry, read_from_core, show_args}
use vizra_search.VendorContract.Vendor.{
  further_files, pin_entry, read_before, read_back, store_file, vendor_file, vendor_files,
}
use vizra_search.VendorContract.Refs.Resolved.{Answers, answered}

-- One path holds these bytes, every other one what it held.
abbrev pub overwrite : Str → List ℕ → Files → Files
overwrite path raw disk q = if str_eq q path then bytes raw else disk q

-- What the operating system promises: a write that raises nothing changes that file and no other.
abbrev pub WritesOneFile : Host → Type 0
WritesOneFile h =
    (path : Str) (raw : List ℕ) (disk : Files)
    → (h.write path raw disk).0 ≡ true
    → (h.write path raw disk).1 ≡ overwrite path raw disk

abbrev stdout_of : Option Answer → List ℕ
stdout_of none = []
stdout_of (some a) = a.stdout

-- What `git show <commit>:<path>` prints.
abbrev pub core_bytes : Checkout → Str → Str → List ℕ
core_bytes core commit path = stdout_of (core.run (show_args commit path))

-- Every listed path holds core's bytes, every other one what it held.
abbrev pub copy_all : (Str → List ℕ) → List Str → Files → Files
copy_all content paths disk q = if mem_str q paths then bytes (content q) else disk q

abbrev pub path_of : FileEntry → Str
path_of e = e.path

abbrev pub pinned : Host → Checkout → Str → FileEntry → FileEntry
pinned h core commit e = pin_entry h e (core_bytes core commit e.path)

pub read_from_core-bytes :
    (core : Checkout) (commit path : Str) {raw : List ℕ}
    → read_from_core core commit path ≡ got raw
    → Answers core (show_args commit path) raw
unfolding read_from_core git
read_from_core-bytes core commit path e =
    let (out, shown, e1) = bind-got (git core (show_args commit path)) _ e in
    let (nonempty, e2) = then-got _ _ e1 in
    let (a, asked, e3) = bind-got (git_raw core (show_args commit path)) _ shown in
    let (ok, e4) = then-got _ _ e3 in
    subst (Answers core (show_args commit path)) (got-inj e4 ∙ got-inj e2)
      (answered core (show_args commit path) _ asked ok)

pub core_bytes-answer :
    (core : Checkout) (commit path : Str) {raw : List ℕ}
    → Answers core (show_args commit path) raw
    → core_bytes core commit path ≡ raw
core_bytes-answer core commit path e = ap stdout_of e

copy_all-cons :
    (content : Str → List ℕ) (path : Str) (paths : List Str) (disk : Files)
    → copy_all content paths (overwrite path (content path) disk)
      ≡ copy_all content (path ∷ paths) disk
unfolding mem_str
copy_all-cons content path paths disk = fun_ext λ q. elim (Bool-cases (str_eq q path)) [
  | inl e ↦ elim (Bool-cases (mem_str q paths)) [
    | inl m ↦ rw (m, e) refl
    | inr m ↦ rw (m, e) (ap (λ p. bytes (content p)) (sym ((str_eq_iff q path).0 e)))
  ]
  | inr e ↦ rw e refl
]

read_back-got :
    (h : Host) (e : FileEntry) (raw : List ℕ) (ok : Bool) (found : Fetched) {e' : FileEntry}
    → read_back h e raw ok found ≡ got e'
    → (ok ≡ true) × (e' ≡ pin_entry h e raw)
unfolding read_back
read_back-got h e raw false found k = cc
read_back-got h e raw true missing k = cc
read_back-got h e raw true unreadable k = cc
read_back-got h e raw true (bytes written) k =
    let (same, k1) = then-got _ _ k in
    (
      refl,
      sym (got-inj k1)
          ∙ ap (pin_entry h e) ((str_eq_iff written raw).0 (not-false _ (die_if-got _ _ same))),
    )

vendor_file-got :
    (h : Host) (core : Checkout) (commit : Str) (e : FileEntry) (disk : Files) {e' : FileEntry}
    → WritesOneFile h
    → (vendor_file h core commit e disk).0 ≡ got e'
    → (read_from_core core commit e.path ≡ got (core_bytes core commit e.path))
      × (e' ≡ pinned h core commit e)
      × ((vendor_file h core commit e disk).1
          ≡ overwrite e.path (core_bytes core commit e.path) disk)
unfolding vendor_file
vendor_file-got h core commit e disk {e'} law k =
    go (read_before (disk e.path) >> read_from_core core commit e.path) refl k
  where
    go :
        (shown : Attempt (List ℕ))
        → (read_before (disk e.path) >> read_from_core core commit e.path) ≡ shown
        → (store_file h e shown disk).0 ≡ got e'
        → (read_from_core core commit e.path ≡ got (core_bytes core commit e.path))
          × (e' ≡ pinned h core commit e)
          × ((store_file h e shown disk).1 ≡ overwrite e.path (core_bytes core commit e.path) disk)
    go (died r) same k = cc
    go raised same k = cc
    go (got raw) same k =
        let shown = (then-got _ _ same).1 in
        let is_raw =
          core_bytes-answer core commit e.path (read_from_core-bytes core commit e.path shown) in
        let (ok, e1) = read_back-got h e raw _ _ k in
        (
          shown ∙ ap got (sym is_raw),
          e1 ∙ ap (pin_entry h e) (sym is_raw),
          law e.path raw disk ok ∙ ap (λ b. overwrite e.path b disk) (sym is_raw),
        )

-- Every file was shown by git.
abbrev pub ShownAll : Checkout → Str → List FileEntry → Type 0
ShownAll core commit =
    All (λ e. read_from_core core commit e.path ≡ got (core_bytes core commit e.path))

further_files-got :
    (first : Attempt FileEntry) (after : Files) (onward : Attempt (List FileEntry) × Files)
    {es' : List FileEntry}
    → (further_files first after onward).0 ≡ got es'
    → ((e' : FileEntry) × (rest : List FileEntry) × (first ≡ got e')
        × (onward.0 ≡ got rest)
        × (e' ∷ rest ≡ es')
        × ((further_files first after onward).1 ≡ onward.1))
further_files-got (died r) after onward k = cc
further_files-got raised after onward k = cc
further_files-got (got e') after onward k =
    let (rest, more, k1) = bind-got onward.0 _ k in (e', rest, refl, more, got-inj k1, refl)

pub vendor_files-got :
    (h : Host) (core : Checkout) (commit : Str) (es : List FileEntry) (disk : Files)
    {es' : List FileEntry}
    → WritesOneFile h
    → (vendor_files h core commit es disk).0 ≡ got es'
    → ShownAll core commit es
      × (es' ≡ map (pinned h core commit) es)
      × ((vendor_files h core commit es disk).1
          ≡ copy_all (core_bytes core commit) (map path_of es) disk)
unfolding vendor_files mem_str
vendor_files-got h core commit [] disk law k = (tt, sym (got-inj k), refl)
vendor_files-got h core commit (e ∷ es) disk {es'} law k =
    let after : Files = (vendor_file h core commit e disk).1 in
    let (e', rest, first, more, whole, last) =
      further_files-got (vendor_file h core commit e disk).0 after
        (vendor_files h core commit es after) k in
    let (shown, is_pinned, stored) = vendor_file-got h core commit e disk law first in
    let (all_shown, are_pinned, copied) = vendor_files-got h core commit es after law more in
    (
      (shown, all_shown),
      sym whole ∙ ap₂ (λ x y. x ∷ y) is_pinned are_pinned,
      last
          ∙ copied
          ∙ ap (copy_all (core_bytes core commit) (map path_of es)) stored
          ∙ copy_all-cons (core_bytes core commit) e.path (map path_of es) disk,
    )
