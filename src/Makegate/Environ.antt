-- ===== src/Makegate/Environ.antt =====
-- scripts/makegate.py, `clean_env`, `environment_taken`, `environment_words` and what they read: the
-- environment that a process started by the gate gets. A dict of the environment is the list of its
-- entries; a set of names is a list that only membership reads.
pub mod Cleaned
pub mod Words
use vizra_search.Base.{
  ℕ, zero, suc, ◌-◌, Bool, true, false, not, ◌&&◌, ◌||◌, Option, none, some, List, [], ◌∷◌, ◌++◌,
  ◌==◌, if◌then◌else◌, length, Str, codes, str_eq, mem_str, char_in, is_space, normpath, dirname,
  basename,
}
use vizra_search.Regex.{
  Regex, char, seq, alt, star, group, not_behind, lit, opt, plus, matches, match_re, group_of,
  first,
}
use vizra_search.Makegate.Lines.{LogicalLine}
use vizra_search.Makegate.Patterns.{spaces, ident, name_start, name_char, is_bracket}

abbrev pub Env : Type 0
Env = List (Str × Str)

abbrev pub runner_command_files : List Str
runner_command_files =
    codes "GITHUB_ENV"
    ∷ codes "GITHUB_PATH"
    ∷ codes "GITHUB_OUTPUT"
    ∷ codes "GITHUB_STATE"
    ∷ codes "GITHUB_STEP_SUMMARY"
    ∷ []

abbrev pub runner_file_commands_dir : Str
runner_file_commands_dir = codes "_runner_file_commands"

abbrev pub always_dropped : List Str
always_dropped =
    codes "MAKEFLAGS"
    ∷ codes "MFLAGS"
    ∷ codes "GNUMAKEFLAGS"
    ∷ codes "MAKELEVEL"
    ∷ codes "MAKEFILES"
    ∷ codes "BASH_ENV"
    ∷ codes "ENV"
    ∷ []

-- `env.get(n)`, the empty text where it has no such name
unfoldable pub value_of : Str → Env → Str
unfolding str_eq
value_of n [] = []
value_of n ((k, v) ∷ env) = if str_eq n k then v else value_of n env

abbrev pub is_empty : Str → Bool
is_empty [] = true
is_empty (c ∷ s) = false

unfoldable pub is_runner_command_file : Str → List Str → Bool
unfolding char_in normpath dirname basename str_eq mem_str
is_runner_command_file value command_dirs =
    if is_empty value || char_in b':' value || char_in b'\n' value
    then false
    else let parent = dirname (normpath value) in
      not (is_empty parent)
      && (str_eq (basename parent) runner_file_commands_dir || mem_str parent command_dirs)

-- The directories of the runner's own variables, `{""}` taken out.
unfoldable pub command_dirs_of : List Str → Env → List Str
unfolding value_of dirname normpath
command_dirs_of [] env = []
command_dirs_of (n ∷ names) env =
    let rest = command_dirs_of names env in
    let value = value_of n env in
    let dir = dirname (normpath value) in
    if is_empty value || is_empty dir then rest else dir ∷ rest

unfoldable pub all_name_chars : Str → Bool
all_name_chars [] = true
all_name_chars (c ∷ s) = name_char c && all_name_chars s

-- `re.fullmatch(r"[A-Za-z_][A-Za-z0-9_]*", k)`
unfoldable pub is_name : Str → Bool
unfolding all_name_chars
is_name [] = false
is_name (c ∷ s) = name_start c && all_name_chars s

-- Whether the entry is in the final `drop`.
unfoldable pub is_dropped : List Str → List Str → Str → Str → Bool
unfolding mem_str is_runner_command_file is_name
is_dropped drop command_dirs k v =
    mem_str k drop
    || mem_str k always_dropped
    || mem_str k runner_command_files
    || is_runner_command_file v command_dirs
    || not (is_name k)

unfoldable pub keep_entries : List Str → List Str → Env → Env
unfolding is_dropped
keep_entries drop command_dirs [] = []
keep_entries drop command_dirs ((k, v) ∷ env) =
    let rest = keep_entries drop command_dirs env in
    if is_dropped drop command_dirs k v then rest else (k, v) ∷ rest

unfoldable pub clean_env : Env → List Str → Env
unfolding keep_entries command_dirs_of
clean_env env drop = keep_entries drop (command_dirs_of runner_command_files env) env

-- `r.findall(s)` for a pattern with the one group `g` that takes a character at least: the position
-- is behind `p`, and `skip` characters still belong to the last match.
unfoldable pub find_all : Regex → ℕ → ℕ → Option ℕ → Str → List Str
unfolding matches group_of
find_all r g skip p [] = []
find_all r g zero p (c ∷ s) =
    let later = find_all r g zero (some c) s in
    elim (first (matches r p (c ∷ s))) [
      | none ↦ later
      | some m ↦ group_of g m.caps ∷ find_all r g (length m.word - 1) (some c) s
    ]
find_all r g (suc skip) p (c ∷ s) = find_all r g skip (some c) s

-- `_ASSIGN_RE`
abbrev pub assign_re : Regex
assign_re = seq spaces (
    seq
      (star (
        alt (seq (lit "export") (plus (char is_space)))
          (seq (lit "override") (plus (char is_space)))))
      (seq (group 1 (seq (char name_start) (star (char (λ c. name_char c || c == b'.'))))) (
        seq spaces (
          group 2 (
            alt (lit "?=") (
              alt (seq (lit ":") (seq (opt (lit ":")) (seq (opt (lit ":")) (lit "="))))
                (alt (lit "+=") (alt (lit "!=") (lit "=")))))))))

-- `_REF_RE`
abbrev pub ref_re : Regex
ref_re = seq (not_behind (λ c. c == b'$')) (
    seq (lit "$")
      (seq (char is_bracket) (seq (group 1 ident) (char (λ c. c == b')' || c == b'}')))))

abbrev pub make_builtin_vars : List Str
make_builtin_vars =
    codes "MAKE"
    ∷ codes "MAKEFILE_LIST"
    ∷ codes "CURDIR"
    ∷ codes "MAKEFLAGS"
    ∷ codes "MAKECMDGOALS"
    ∷ codes "SHELL"
    ∷ codes "MAKELEVEL"
    ∷ codes ".SHELLFLAGS"
    ∷ codes "MAKE_VERSION"
    ∷ codes "MAKE_HOST"
    ∷ codes ".DEFAULT_GOAL"
    ∷ codes "MFLAGS"
    ∷ codes "MAKEFILES"
    ∷ codes "VPATH"
    ∷ codes ".RECIPEPREFIX"
    ∷ codes ".VARIABLES"
    ∷ codes ".FEATURES"
    ∷ codes ".INCLUDE_DIRS"
    ∷ codes "SUFFIXES"
    ∷ []

abbrev pub functions : List Str
functions =
    codes "shell"
    ∷ codes "wildcard"
    ∷ codes "eval"
    ∷ codes "info"
    ∷ codes "error"
    ∷ codes "warning"
    ∷ codes "foreach"
    ∷ codes "call"
    ∷ codes "patsubst"
    ∷ codes "subst"
    ∷ codes "filter"
    ∷ codes "filter-out"
    ∷ codes "sort"
    ∷ codes "dir"
    ∷ codes "notdir"
    ∷ codes "strip"
    ∷ codes "word"
    ∷ codes "words"
    ∷ codes "firstword"
    ∷ codes "lastword"
    ∷ codes "abspath"
    ∷ codes "realpath"
    ∷ codes "if"
    ∷ codes "or"
    ∷ codes "and"
    ∷ codes "origin"
    ∷ codes "value"
    ∷ codes "addprefix"
    ∷ codes "addsuffix"
    ∷ codes "basename"
    ∷ codes "suffix"
    ∷ codes "join"
    ∷ codes "findstring"
    ∷ codes "flavor"
    ∷ codes "file"
    ∷ []

unfoldable pub assigns : Str → Env → Bool
unfolding str_eq
assigns n [] = false
assigns n ((k, op) ∷ m) = str_eq n k || assigns n m

-- `assigned[name] = op`
unfoldable pub assign : Str → Str → Env → Env
unfolding str_eq
assign n op [] = (n, op) ∷ []
assign n op ((k, old) ∷ m) = if str_eq n k then (k, op) ∷ m else (k, old) ∷ assign n op m

-- The two readings of one line.
unfoldable pub note_assignment : Str → Env → Env
unfolding match_re group_of assigns assign str_eq
note_assignment raw assigned = elim (match_re assign_re raw) [
  | none ↦ assigned
  | some m ↦
      if not (assigns (group_of 1 m.caps) assigned) || str_eq (group_of 2 m.caps) (codes "?=")
      then assign (group_of 1 m.caps) (group_of 2 m.caps) assigned
      else assigned
]

unfoldable pub assigned_by : List LogicalLine → Env → Env
unfolding note_assignment
assigned_by [] assigned = assigned
assigned_by (rec ∷ lines) assigned = assigned_by lines (note_assignment rec.raw assigned)

unfoldable pub refs_of : List LogicalLine → List Str
unfolding find_all
refs_of [] = []
refs_of (rec ∷ lines) = find_all ref_re 1 0 none rec.raw ++ refs_of lines

-- `{n for n, op in assigned.items() if op == "?="}`
unfoldable pub conditional : Env → List Str
unfolding str_eq
conditional [] = []
conditional ((n, op) ∷ m) =
    let rest = conditional m in if str_eq op (codes "?=") then n ∷ rest else rest

unfoldable pub unassigned : List Str → Env → List Str
unfolding assigns mem_str
unassigned [] assigned = []
unassigned (n ∷ refs) assigned =
    let rest = unassigned refs assigned in
    if assigns n assigned || mem_str n make_builtin_vars || mem_str n functions
    then rest
    else n ∷ rest

-- The lines are those of all the files, one after the other.
unfoldable pub environment_taken : List LogicalLine → List Str
unfolding conditional unassigned assigned_by refs_of
environment_taken lines =
    let assigned = assigned_by lines [] in
    codes "GOFLAGS" ∷ (conditional assigned ++ unassigned (refs_of lines) assigned)

abbrev pub keep_env : List Str
keep_env =
    codes "PATH"
    ∷ codes "HOME"
    ∷ codes "TMPDIR"
    ∷ codes "USER"
    ∷ codes "LOGNAME"
    ∷ codes "LANG"
    ∷ codes "LANGUAGE"
    ∷ codes "LC_ALL"
    ∷ codes "LC_CTYPE"
    ∷ codes "TERM"
    ∷ codes "SHELL"
    ∷ codes "PWD"
    ∷ codes "TZ"
    ∷ []

-- The rest of a word that has begun.
unfoldable pub word_run : Str → Str
word_run [] = []
word_run (c ∷ s) = let rest = word_run s in if name_char c then c ∷ rest else []

-- `_WORD_RE.findall(s)`; the first argument says whether the position is inside a match.
unfoldable pub find_words : Bool → Str → List Str
unfolding word_run
find_words inside [] = []
find_words true (c ∷ s) =
    let onward = find_words true s in
    let out = find_words false s in if name_char c then onward else out
find_words false (c ∷ s) =
    let begun = find_words true s in
    let out = find_words false s in if name_start c then (c ∷ word_run s) ∷ begun else out

unfoldable pub minus : List Str → List Str → List Str
unfolding mem_str
minus [] taken = []
minus (w ∷ ws) taken = let rest = minus ws taken in if mem_str w taken then rest else w ∷ rest

unfoldable pub words_of : List LogicalLine → List Str
unfolding find_words
words_of [] = []
words_of (rec ∷ lines) = find_words false rec.raw ++ words_of lines

unfoldable pub environment_words : List LogicalLine → List Str
unfolding minus words_of
environment_words lines = minus (words_of lines) keep_env
