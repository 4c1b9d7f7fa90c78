-- ===== src/MakeIntegrity/Resolver.antt =====
-- scripts/make-integrity-guard.py, `resolve_database` and `check_resolved` on what make printed, and the
-- warnings that `check_warnings` looks for.
pub mod Flags
pub mod Approved
use vizra_search.Base.{
  ◌+◌, ℕ, Bool, true, false, not, ◌&&◌, ◌||◌, Option, none, some, List, [], ◌∷◌, ◌++◌, ◌==◌,
  between, if◌then◌else◌, Str, codes, str_eq, mem_str, char_in, starts_with, is_space, strip,
  split_lines, words,
}
use vizra_search.Regex.{
  Regex, empty, char, seq, alt, star, group, lit, opt, plus, dollar, Match, match_re, does_search,
  group_of,
}
use vizra_search.Makegate.Patterns.{spaces}
use vizra_search.Makegate.Environ.{Env, assigns, value_of}
use vizra_search.MakeIntegrity.Recipe.{fail_if, is_nil}
use vizra_search.MakeIntegrity.Text.{approved_shell, approved_shellflags}

-- Each names the target.
pub data ResolverFailure : Type 0 where
  no_shell other_shell no_shellflags other_shellflags oneshell_in_effect : Str → ResolverFailure
  flags_added : Str → Str → ResolverFailure
  duplicate_definition : Str → ResolverFailure

-- The dict, without `__ONESHELL__`, which is the flag.
pub record Database : Type 0 where
  pub variables : Env
  pub oneshell : Bool

abbrev is_letter : ℕ → Bool
is_letter c = between b'A' b'Z' c || between b'a' b'z' c

-- The pattern of a variable in the database: group 1 is the name, group 2 the value.
abbrev pub variable_re : Regex
variable_re =
    seq
      (group 1 (
        seq (char (λ c. is_letter c || c == b'_' || c == b'.'))
          (star (char (λ c. is_letter c || between b'0' b'9' c || char_in c (codes "_.-"))))))
      (seq spaces (
        seq (opt (char (λ c. char_in c (codes ":+?")))) (
          seq (lit "=") (
            seq (opt (char is_space))
              (seq (group 2 (star (char (λ c. not (c == b'\n'))))) dollar)))))

-- A variable that is not in the dict yet.
abbrev pub note_variable : Option Match → Env → Env
note_variable none variables = variables
note_variable (some m) variables =
    if assigns (group_of 1 m.caps) variables
    then variables
    else variables ++ (group_of 1 m.caps, group_of 2 m.caps) ∷ []

unfoldable pub read_database : List Str → Env → Bool → Database
unfolding starts_with match_re group_of assigns
read_database [] variables oneshell = record { variables = variables; oneshell = oneshell }
read_database (line ∷ lines) variables oneshell =
    if starts_with (codes ".ONESHELL:") line
    then read_database lines variables true
    else read_database lines (note_variable (match_re variable_re line) variables) oneshell

-- `resolve_database` on the stdout of a make that ended with status 0.
unfoldable pub database_of : Str → Database
unfolding read_database split_lines
database_of stdout = read_database (split_lines stdout) [] false

-- `variables.get("MAKEFILE_LIST", "").split()`
unfoldable pub files_read : Database → List Str
unfolding words value_of
files_read d = words (value_of (codes "MAKEFILE_LIST") d.variables)

abbrev pub dangerous_flag_words : List Str
dangerous_flag_words =
    codes "--ignore-errors"
    ∷ codes "--keep-going"
    ∷ codes "--touch"
    ∷ codes "--question"
    ∷ codes "--dry-run"
    ∷ codes "--just-print"
    ∷ codes "--recon"
    ∷ codes "--old-file"
    ∷ codes "--assume-old"
    ∷ []

abbrev pub short_flag_words : List Str
short_flag_words = codes "-i" ∷ codes "-k" ∷ codes "-t" ∷ codes "-q" ∷ []

-- The loop over the words: the cluster of letters, and the other words.
unfoldable pub split_flags : Str → List Str → Str × List Str
unfolding starts_with char_in
split_flags cluster [] = (cluster, [])
split_flags cluster (w ∷ ws) =
    let (kept, rest) = split_flags cluster ws in
    let taken = split_flags w ws in
    if is_nil cluster && not (starts_with (codes "-") w) && not (char_in b'=' w)
    then taken
    else (kept, w ∷ rest)

-- `set(cluster) - set("pn")`
abbrev pub extra_letters : Str → Str
extra_letters [] = []
extra_letters (c ∷ s) = if char_in c (codes "pn") then extra_letters s else c ∷ extra_letters s

unfoldable pub has_bad_word : List Str → Bool
unfolding mem_str
has_bad_word [] = false
has_bad_word (w ∷ ws) =
    mem_str w dangerous_flag_words || mem_str w short_flag_words || has_bad_word ws

-- MAKEFLAGS carries something beyond the guard's own `-pn`.
unfoldable pub adds_flags : Str → Bool
unfolding words split_flags has_bad_word
adds_flags raw =
    let (cluster, rest) = split_flags [] (words raw) in
    not (is_nil (extra_letters cluster)) || has_bad_word rest

-- A variable has to be there, with this value.
unfoldable pub check_variable :
    Str → Str → Env → ResolverFailure → ResolverFailure → List ResolverFailure
unfolding assigns value_of strip is_space str_eq
check_variable name want variables absent other =
    if not (assigns name variables)
    then absent ∷ []
    else fail_if (not (str_eq (strip is_space (value_of name variables)) want)) other

unfoldable pub check_resolved : Str → Database → List ResolverFailure
unfolding check_variable adds_flags value_of
check_resolved target d =
    check_variable (codes "SHELL") approved_shell d.variables (no_shell target) (other_shell target)
    ++ check_variable (codes ".SHELLFLAGS") approved_shellflags d.variables (no_shellflags target)
        (other_shellflags target)
    ++ fail_if d.oneshell (oneshell_in_effect target)
    ++ fail_if (adds_flags (value_of (codes "MAKEFLAGS") d.variables))
        (flags_added target (value_of (codes "MAKEFLAGS") d.variables))

-- A character that `re.I` takes for the small letter `l`.
abbrev pub same_letter : ℕ → ℕ → Bool
same_letter l c =
    c == l
    || c + 32 == l
    || (l == b'i' && (c == 0x130 || c == 0x131))
    || (l == b's' && c == 0x17f)
    || (l == b'k' && c == 0x212a)

abbrev pub word_re : Str → Regex
word_re [] = empty
word_re (l ∷ s) = seq (char (same_letter l)) (word_re s)

-- `DUPLICATE_TARGET_RE`
abbrev pub duplicate_target_re : Regex
duplicate_target_re =
    seq
      (alt (word_re (codes "overriding"))
        (seq (word_re (codes "ignoring")) (seq (lit " ") (word_re (codes "old")))))
      (seq (plus (char is_space)) (
        seq (alt (word_re (codes "commands")) (word_re (codes "recipe"))) (
          seq (plus (char is_space))
            (seq (word_re (codes "for")) (seq (plus (char is_space)) (word_re (codes "target")))))))

-- `check_warnings` on the stderr of the dry run.
unfoldable pub warns_of_duplicate : Str → Bool
unfolding does_search
warns_of_duplicate stderr = does_search duplicate_target_re stderr
