-- ===== src/CheckWorkflows/Status.antt =====
-- scripts/check-workflows.py, `main`: the files one after the other, and the exit status.
use vizra_search.Base.{
  ℕ, Bool, true, false, Option, some, List, [], ◌∷◌, ◌++◌, if◌then◌else◌, Str, codes, str_eq,
  is_space, strip, split_lines,
}
use vizra_search.CheckWorkflows.Search.{
  Key, Yaml, null, mapping, Entries, no_entry, entry, shown_key, find_forbidden, has_part,
  ValueKind, value_kind, spelling_in, named,
}

-- What `open` and `read` give.
pub data Content : Type 0 where
  unreadable not_utf8 : Content
  read : Str → Content

pub record Violation : Type 0 where
  pub path : Str
  pub at_step : Bool
  pub spelling : Str
  pub kind : ValueKind
  pub place : Str

-- One file: the reason for status 2, an exception, or its violations.
pub data Outcome : Type 0 where
  unevaluable raised : Outcome
  found : List Violation → Outcome

abbrev pub violations_of : Str → Str → List (Str × Yaml) → List Violation
violations_of path spelling [] = []
violations_of path spelling ((place, value) ∷ hits) =
    (record {
      path = path;
      at_step = has_part (codes ".steps[") place;
      spelling = spelling;
      kind = value_kind value;
      place = place;
    })
    ∷ violations_of path spelling hits

-- `jobs.items()`, each job searched
unfoldable pub job_hits : Str → Entries → List (Str × Yaml)
unfolding find_forbidden
job_hits path no_entry = []
job_hits path (entry name job jobs) =
    find_forbidden job (path ++ (codes ":jobs." ++ shown_key name)) ++ job_hits path jobs

abbrev pub is_jobs : Key → Bool
is_jobs (named s) = str_eq s (codes "jobs")
is_jobs _ = false

-- `doc.get("jobs")`, with null for a missing key
unfoldable pub jobs_of : Entries → Yaml
unfolding str_eq
jobs_of no_entry = null
jobs_of (entry key value m) = let rest = jobs_of m in if is_jobs key then value else rest

abbrev pub check_jobs : Str → Str → Yaml → Outcome
check_jobs path content (mapping (entry name job jobs)) =
    found
      (violations_of path (spelling_in (split_lines content)) (job_hits path (entry name job jobs)))
check_jobs path content _ = unevaluable

abbrev pub check_document : Str → Str → Option Yaml → Outcome
check_document path content (some (mapping m)) = check_jobs path content (jobs_of m)
check_document path content _ = unevaluable

abbrev pub is_empty : Str → Bool
is_empty [] = true
is_empty (c ∷ s) = false

-- The body of the loop; `safe_load` gives none for a YAMLError.
unfoldable pub check_file : (Str → Option Yaml) → Str → Content → Outcome
unfolding strip is_space split_lines spelling_in has_part value_kind job_hits jobs_of
check_file safe_load path unreadable = unevaluable
check_file safe_load path not_utf8 = raised
check_file safe_load path (read content) =
    if is_empty (strip is_space content)
    then unevaluable
    else check_document path content (safe_load content)

abbrev pub end_status : List Violation → ℕ
end_status [] = 0
end_status (v ∷ vs) = 1

-- `return 2`, an exception, which ends the program with status 1, or the rest of the loop.
abbrev pub after_file : Outcome → (List Violation → ℕ) → ℕ
after_file unevaluable onward = 2
after_file raised onward = 1
after_file (found vs) onward = onward vs

-- The loop with the violations so far.
unfoldable pub check_files : (Str → Option Yaml) → List Violation → List (Str × Content) → ℕ
unfolding check_file
check_files safe_load violations [] = end_status violations
check_files safe_load violations ((path, content) ∷ files) =
    after_file (check_file safe_load path content)
      (λ vs. check_files safe_load (violations ++ vs) files)

-- `main`, the files being those of the arguments or of the directory.
unfoldable pub main : (Str → Option Yaml) → List (Str × Content) → ℕ
unfolding check_files
main safe_load [] = 2
main safe_load (f ∷ files) = check_files safe_load [] (f ∷ files)
