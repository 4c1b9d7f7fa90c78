-- ===== src/VendorContract/Refs.antt =====
-- scripts/vendor-contract.py: the remote, the ref and the commit that the contract is copied from.
pub mod Resolved
pub mod Unshadowed
use vizra_search.Base.{
  Bool, true, false, not, ◌&&◌, Option, none, some, List, [], ◌∷◌, ◌++◌, ◌==◌, if◌then◌else◌,
  length, Str, codes, str_eq, starts_with, split_on, split_lines, lower,
}
use vizra_search.VendorContract.Attempt.{
  Refusal, no_remote, foreign_remote, no_main, not_a_commit, unknown_ref, other_ref, shallow,
  no_such_commit, no_api_commit, not_ancestor, Attempt, got, died, ◌>>=◌, ◌>>◌, die_if,
}
use vizra_search.VendorContract.Url.{parse_remote_url, canonical_host, canonical_owner_repo}
use vizra_search.VendorContract.Git.{Checkout, git_raw, gits, strict_text, stripped}

-- The refusal for a repository that is not the canonical one; the comparison of the host is exact.
abbrev pub judge_remote : Str → Option Str → Option Str → Attempt Str
judge_remote url (some host) (some owner_repo) =
    let is_canonical =
      str_eq host canonical_host && str_eq (lower owner_repo) canonical_owner_repo in
    die_if (not is_canonical) (foreign_remote url) >> got owner_repo
judge_remote url _ _ = died (foreign_remote url)

-- What is returned is `owner_repo`; the URL beside it is only printed.
unfoldable pub check_remote_is_canonical : Checkout → Str → Attempt Str
unfolding git_raw parse_remote_url str_eq lower
check_remote_is_canonical core remote = do
  answer ← git_raw core (codes "remote" ∷ codes "get-url" ∷ remote ∷ [])
  die_if (not answer.ok) (no_remote remote)
  let url = stripped answer.stdout
  let remote_url = parse_remote_url url
  judge_remote url remote_url.host remote_url.owner_repo

-- A ref as `for-each-ref` prints it.
pub record Ref : Type 0 where
  pub refname : Str
  pub objecttype : Str
  pub objectname : Str

-- A line with three fields.
abbrev ref_of : List Str → List Ref
ref_of (name ∷ kind ∷ object ∷ []) =
    (record { refname = name; objecttype = kind; objectname = object }) ∷ []
ref_of _ = []

unfoldable pub refs_of : List Str → List Ref
unfolding split_on
refs_of [] = []
refs_of (line ∷ lines) = ref_of (split_on b'\t' line) ++ refs_of lines

unfoldable pub all_refs : Checkout → Attempt (List Ref)
unfolding gits split_lines refs_of
all_refs core = do
  out ←
      gits core
        (codes "for-each-ref" ∷ codes "--format=%(refname)%09%(objecttype)%09%(objectname)" ∷ [])
  got (refs_of (split_lines out))

-- `refs[name]`: of two lines with one name the later one is in the dict.
unfoldable pub ref_named : Str → List Ref → Option Ref
unfolding str_eq
ref_named name [] = none
ref_named name (r ∷ refs) = elim (ref_named name refs) [
  | some later ↦ some later
  | none ↦ if str_eq name r.refname then some r else none
]

abbrev pub is_listed : List Ref → Str → Bool
is_listed refs name = elim (ref_named name refs) [ some r ↦ true | none ↦ false ]

unfoldable pub candidates_for : Str → List Str
unfolding starts_with
candidates_for ref =
    if starts_with (codes "refs/") ref
    then ref ∷ []
    else (codes "refs/" ++ ref)
      ∷ (codes "refs/tags/" ++ ref)
      ∷ (codes "refs/heads/" ++ ref)
      ∷ (codes "refs/remotes/" ++ ref)
      ∷ (codes "refs/remotes/" ++ ref ++ codes "/HEAD")
      ∷ []

-- `matches[0]`
unfoldable pub first_listed : List Ref → List Str → Option Str
unfolding ref_named
first_listed refs [] = none
first_listed refs (c ∷ cs) =
    let rest = first_listed refs cs in if is_listed refs c then some c else rest

-- `refs/remotes/<remote>/main`
abbrev pub remote_main : Str → Str
remote_main remote = codes "refs/remotes/" ++ remote ++ codes "/main"

abbrev pub or_die : {A : Type 0} → Option A → Refusal → Attempt A
or_die none r = died r
or_die (some a) r = got a

-- From `matches` on.
unfoldable pub judge_ref : List Ref → Str → Str → Ref → Attempt (Str × Str)
unfolding first_listed str_eq candidates_for
judge_ref refs want ref r = do
  die_if (not (str_eq r.objecttype (codes "commit"))) (not_a_commit want r.objecttype)
  resolved ← or_die (first_listed refs (candidates_for ref)) (unknown_ref ref)
  die_if (not (str_eq resolved want)) (other_ref ref resolved want)
  got (want, r.objectname)

-- The full name of the ref, and its tip.
unfoldable pub resolve_ref : Checkout → Str → Str → Attempt (Str × Str)
unfolding all_refs ref_named judge_ref
resolve_ref core remote ref = do
  refs ← all_refs core
  r ← or_die (ref_named (remote_main remote) refs) (no_main (remote_main remote))
  judge_ref refs (remote_main remote) ref r

unfoldable pub refuse_shallow : Checkout → Attempt Unit
unfolding git_raw strict_text str_eq
refuse_shallow core = do
  answer ← git_raw core (codes "rev-parse" ∷ codes "--is-shallow-repository" ∷ [])
  if not answer.ok
      then got tt
      else do out ← strict_text answer.stdout; die_if (str_eq out (codes "true")) shallow

-- `explicit` is --commit, and `[]` if it is not given.
unfoldable pub named_commit : Checkout → Str → Str → Attempt Str
unfolding git_raw gits strict_text
named_commit core full_ref [] = do
  commit ←
      gits core
        (codes "log" ∷ codes "-1" ∷ codes "--format=%H" ∷ full_ref ∷ codes "--" ∷ codes "api/" ∷ [])
  die_if (not (length commit == 40)) (no_api_commit full_ref)
  got commit
named_commit core full_ref (c ∷ cs) = do
  answer ←
      git_raw core (codes "rev-parse" ∷ codes "--verify" ∷ ((c ∷ cs) ++ codes "^{commit}") ∷ [])
  die_if (not answer.ok) (no_such_commit (c ∷ cs))
  strict_text answer.stdout

-- The question `merge-base --is-ancestor`.
abbrev pub ancestry : Str → Str → List Str
ancestry commit ref = codes "merge-base" ∷ codes "--is-ancestor" ∷ commit ∷ ref ∷ []

unfoldable pub choose_commit : Checkout → Str → Str → Attempt Str
unfolding named_commit git_raw
choose_commit core full_ref explicit = do
  commit ← named_commit core full_ref explicit
  answer ← git_raw core (ancestry commit full_ref)
  die_if (not answer.ok) (not_ancestor commit full_ref)
  got commit
