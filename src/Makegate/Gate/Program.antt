-- ===== src/Makegate/Gate/Program.antt =====
-- scripts/makegate.py, `resolve_make` and `check_environment`.
use vizra_search.Base.{
  split_lines, not, none, some, List, [], ◌∷◌, if◌then◌else◌, Str, codes, str_eq, mem_str, is_space,
  strip, dirname, basename,
}
use vizra_search.Makegate.Environ.{Env, clean_env, assigns, value_of}
use vizra_search.Makegate.Gate.Machine.{
  Host, GateProblem, makefiles_set, cannot_ask, no_make, not_a_file, not_executable, not_approved,
  not_named_make, Outcome, done, gate_refused, make_was_not_invoked,
}

abbrev pub approved_make_dirs : List Str
approved_make_dirs =
    codes "/usr/bin"
    ∷ codes "/bin"
    ∷ codes "/usr/local/bin"
    ∷ codes "/opt/homebrew/bin"
    ∷ codes "/usr/sbin"
    ∷ codes "/sbin"
    ∷ []

-- `[l.strip() for l in lines if l.strip()]`
unfoldable pub shown_lines : List Str → List Str
unfolding strip is_space
shown_lines [] = []
shown_lines (l ∷ ls) =
    let rest = shown_lines ls in elim (strip is_space l) [ [] ↦ rest | c ∷ s ↦ (c ∷ s) ∷ rest ]

abbrev pub refuse_make : GateProblem → Outcome Str
refuse_make p = gate_refused (p ∷ []) make_was_not_invoked

-- From `real = os.path.realpath(path)` on.
unfoldable pub check_program : Host → Str → Outcome Str
unfolding dirname basename mem_str
check_program h real =
    if not (h.is_executable real)
    then refuse_make (not_executable real)
    else if not (mem_str (dirname real) approved_make_dirs)
    then refuse_make (not_approved real)
    else if not (mem_str (basename real) (codes "make" ∷ codes "gmake" ∷ []))
    then refuse_make (not_named_make real)
    else done real

unfoldable pub read_answer : Host → Str → List Str → Outcome Str
unfolding check_program str_eq
read_answer h out (kind ∷ path ∷ more) =
    if not (str_eq kind (codes "file"))
    then refuse_make (not_a_file kind)
    else check_program h (h.realpath path)
read_answer h out _ = refuse_make (no_make out)

unfoldable pub resolve_make : Host → Outcome Str
unfolding clean_env read_answer shown_lines split_lines
resolve_make h = elim (h.ask_shell (clean_env h.environ [])) [
  | none ↦ refuse_make cannot_ask
  | some out ↦ read_answer h out (shown_lines (split_lines out))
]

unfoldable pub check_environment : Env → Outcome Unit
unfolding assigns value_of
check_environment environ =
    if assigns (codes "MAKEFILES") environ
    then gate_refused (makefiles_set (value_of (codes "MAKEFILES") environ) ∷ [])
        make_was_not_invoked
    else done tt
