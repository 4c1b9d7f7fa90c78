-- ===== src/CheckWorkflows/Clean.antt =====
-- What the exit status 0 says of the workflows.
use vizra_search.Base.{
  ℕ, ◌≡◌, ◌≢◌, refl, subst, inl, inr, Option, none, some, List, [], ◌∷◌, ◌++◌, Bool-cases,
  append-eq-nil_left, append-eq-nil_right, Str, codes, is_space, strip, split_lines, arith, All,
}
use vizra_search.CheckWorkflows.Search.{
  Key, Yaml, truth, text, null, scalar, array, mapping, Entries, no_entry, entry, forbidden,
  normalise, shown_key, find_forbidden, spelling_in,
}
use vizra_search.CheckWorkflows.Status.{
  Content, unreadable, not_utf8, read, Violation, Outcome, unevaluable, raised, found,
  violations_of, job_hits, jobs_of, check_jobs, check_document, is_empty, check_file, after_file,
  end_status, check_files, main,
}
use vizra_search.CheckWorkflows.Found.{Below, find_forbidden-nil}

-- `job` is the value of one of the entries.
pub data IsJob (job : Yaml) : Entries → Type 0 where
  first : {name : Key} {jobs : Entries} → IsJob job (entry name job jobs)
  next :
      {name : Key} {other : Yaml} {jobs : Entries}
      → IsJob job jobs
      → IsJob job (entry name other jobs)

-- The file is read and parsed and has a job, and no key at any depth below a job is the forbidden one.
pub record IsClean (safe_load : Str → Option Yaml) (file : Str × Content) : Type 0 where
  pub content : Str
  pub document : Entries
  pub jobs : Entries
  pub is_read : file.1 ≡ read content
  pub is_parsed : safe_load content ≡ some (mapping document)
  pub has_jobs : jobs_of document ≡ mapping jobs
  pub some_job : jobs ≢ no_entry
  pub lacks : (job : Yaml) (k : Key) → IsJob job jobs → Below k job → normalise k ≢ forbidden

job_hits-nil :
    (path : Str) (jobs : Entries) (job : Yaml) (k : Key)
    → job_hits path jobs ≡ []
    → IsJob job jobs
    → Below k job
    → normalise k ≢ forbidden
unfolding job_hits
job_hits-nil path no_entry job k e i b = elim i [ ]
job_hits-nil path (entry name value jobs) job k e first b =
    find_forbidden-nil value (path ++ (codes ":jobs." ++ shown_key name))
      (append-eq-nil_left _ (job_hits path jobs) e) b
job_hits-nil path (entry name value jobs) job k e (next i) b =
    job_hits-nil path jobs job k
      (append-eq-nil_right (find_forbidden value (path ++ (codes ":jobs." ++ shown_key name))) _ e)
      i b

violations_of-nil :
    (path spelling : Str) (hits : List (Str × Yaml))
    → violations_of path spelling hits ≡ []
    → hits ≡ []
violations_of-nil path spelling [] e = refl
violations_of-nil path spelling (h ∷ hits) e = cc

-- What is claimed of a file without violations.
abbrev Finds : (Str → Option Yaml) → Str × Content → Outcome → Type 0
Finds safe_load file unevaluable = Unit
Finds safe_load file raised = Unit
Finds safe_load file (found vs) = vs ≡ [] → IsClean safe_load file

entry-ne-none : (name : Key) (job : Yaml) (jobs : Entries) → entry name job jobs ≢ no_entry
entry-ne-none name job jobs e = cc

check_jobs-Finds :
    (safe_load : Str → Option Yaml) (path content : Str) (document : Entries) (jobs : Yaml)
    → safe_load content ≡ some (mapping document)
    → jobs_of document ≡ jobs
    → Finds safe_load (path, read content) (check_jobs path content jobs)
check_jobs-Finds safe_load path content document (mapping (entry name job jobs)) p j = λ e.
    let hits =
      violations_of-nil path (spelling_in (split_lines content))
        (job_hits path (entry name job jobs)) e in
    record {
      content = content;
      document = document;
      jobs = entry name job jobs;
      is_read = refl;
      is_parsed = p;
      has_jobs = j;
      some_job = entry-ne-none name job jobs;
      lacks = λ one k i b. job_hits-nil path (entry name job jobs) one k hits i b;
    }
check_jobs-Finds safe_load path content document (mapping no_entry) p j = tt
check_jobs-Finds safe_load path content document (truth b) p j = tt
check_jobs-Finds safe_load path content document (text s) p j = tt
check_jobs-Finds safe_load path content document null p j = tt
check_jobs-Finds safe_load path content document scalar p j = tt
check_jobs-Finds safe_load path content document (array vs) p j = tt

check_document-Finds :
    (safe_load : Str → Option Yaml) (path content : Str) (o : Option Yaml)
    → safe_load content ≡ o
    → Finds safe_load (path, read content) (check_document path content o)
check_document-Finds safe_load path content none p = tt
check_document-Finds safe_load path content (some (mapping m)) p =
    check_jobs-Finds safe_load path content m (jobs_of m) p refl
check_document-Finds safe_load path content (some (truth b)) p = tt
check_document-Finds safe_load path content (some (text s)) p = tt
check_document-Finds safe_load path content (some null) p = tt
check_document-Finds safe_load path content (some scalar) p = tt
check_document-Finds safe_load path content (some (array vs)) p = tt

check_file-Finds :
    (safe_load : Str → Option Yaml) (path : Str) (content : Content)
    → Finds safe_load (path, content) (check_file safe_load path content)
unfolding check_file
check_file-Finds safe_load path unreadable = tt
check_file-Finds safe_load path not_utf8 = tt
check_file-Finds safe_load path (read content) =
    elim (Bool-cases (is_empty (strip is_space content))) [
      | inl e ↦ rw e tt
      | inr e ↦ rw e (check_document-Finds safe_load path content (safe_load content) refl)
    ]

after_file-found :
    (o : Outcome) (onward : List Violation → ℕ)
    → after_file o onward ≡ 0
    → (vs : List Violation) × (o ≡ found vs) × (onward vs ≡ 0)
after_file-found unevaluable onward e = absurd (omega (arith, e))
after_file-found raised onward e = absurd (omega (arith, e))
after_file-found (found vs) onward e = (vs, refl, e)

end_status-nil : (vs : List Violation) → end_status vs ≡ 0 → vs ≡ []
end_status-nil [] e = refl
end_status-nil (v ∷ vs) e = absurd (omega (arith, e))

check_files-IsClean :
    (safe_load : Str → Option Yaml) (vs : List Violation) (files : List (Str × Content))
    → check_files safe_load vs files ≡ 0
    → (vs ≡ []) × All (IsClean safe_load) files
unfolding check_files
check_files-IsClean safe_load vs [] e = (end_status-nil vs e, tt)
check_files-IsClean safe_load vs ((path, content) ∷ files) e =
    let (ws, o, e2) =
      after_file-found (check_file safe_load path content)
        (λ ws. check_files safe_load (vs ++ ws) files) e in
    let (none_so_far, others) = check_files-IsClean safe_load (vs ++ ws) files e2 in
    let finds =
      subst (Finds safe_load (path, content)) o (check_file-Finds safe_load path content) in
    (append-eq-nil_left vs ws none_so_far, (finds (append-eq-nil_right vs ws none_so_far), others))

-- If check-workflows ends with status 0, there was a workflow, every one was read, parsed and has a
-- job, and no key at any depth below a job is continue-on-error after unquoting, stripping and
-- lowering.
pub main-IsClean :
    (safe_load : Str → Option Yaml) (files : List (Str × Content))
    → main safe_load files ≡ 0
    → (files ≢ []) × All (IsClean safe_load) files
unfolding main
main-IsClean safe_load [] e = absurd (omega (arith, e))
main-IsClean safe_load (f ∷ files) e = (λ k. cc, (check_files-IsClean safe_load [] (f ∷ files) e).1)
