-- ===== src/MakeIntegrity/Text.antt =====
-- scripts/make-integrity-guard.py, `check_text`: the reading of the files that make read.
pub mod Clean
pub mod Pins
pub mod Once
pub mod Whole
use vizra_search.Base.{
  ℕ, zero, suc, ◌+◌, ◌-◌, Bool, true, false, not, ◌&&◌, ◌||◌, Option, none, some, List, [], ◌∷◌,
  ◌++◌, ◌==◌, ltb, if◌then◌else◌, length, drop, Str, codes, str_eq, mem_str, char_in, starts_with,
  is_space, strip, lstrip, split_on, is_absolute, decode_utf8,
}
use vizra_search.Regex.{
  Regex, char, seq, alt, star, group, lit, opt, plus, match_re, does_match, group_of,
}
use vizra_search.Makegate.Lines.{LogicalLine, makefile_lines, recipe_lines}
use vizra_search.Makegate.Patterns.{spaces}
use vizra_search.Makegate.Pin.{Fetched, missing, unreadable, bytes}
use vizra_search.MakeIntegrity.Recipe.{RecipeFailure, fail_if, check_recipe}

-- A failure names the file and the line, or the target.
pub data TextFailure : Type 0 where
  reads_nothing not_both_pinned : TextFailure
  cannot_read : Str → TextFailure
  assigns_flags not_in_root not_approved oneshell second_expansion recipe_prefix :
      Str → ℕ → TextFailure
  in_conditional : Str → ℕ → Str → TextFailure
  not_defined : Str → TextFailure
  defined_twice : Str → ℕ → TextFailure
  of_recipe : RecipeFailure → TextFailure

abbrev pub approved_shell : Str
approved_shell = codes "/bin/bash"

abbrev pub approved_shellflags : Str
approved_shellflags = codes "-eu -o pipefail -c"

-- `assignment_re` up to the value: group 1 is the name, group 2 the operator. What follows them is the
-- value with white space around it, which the rest of the pattern takes off.
abbrev pub assignment_re : Regex
assignment_re = seq spaces (
    seq
      (star (
        alt (seq (lit "export") (plus (char is_space)))
          (seq (lit "override") (plus (char is_space)))))
      (seq
        (group 1 (
          alt (lit "SHELL") (
            alt (lit ".SHELLFLAGS")
              (alt (lit "MAKEFLAGS") (alt (lit "GNUMAKEFLAGS") (lit "MFLAGS"))))))
        (seq spaces (group 2 (seq (opt (char (λ c. char_in c (codes ":+?!")))) (lit "="))))))

-- `^\s*(?:override\s+)?\.RECIPEPREFIX\s*[:+?!]?=`
abbrev pub recipe_prefix_re : Regex
recipe_prefix_re = seq spaces (
    seq (opt (seq (lit "override") (plus (char is_space)))) (
      seq (lit ".RECIPEPREFIX")
        (seq spaces (seq (opt (char (λ c. char_in c (codes ":+?!")))) (lit "=")))))

abbrev pub colon_follows : Str → Bool
colon_follows [] = false
colon_follows (c ∷ []) = c == b':'
colon_follows (c ∷ d ∷ s) = c == b':' && not (d == b'=')

-- `re.match(r"^%s\s*:(?!=)" % re.escape(t), line)`
unfoldable pub defines : Str → Str → Bool
unfolding starts_with lstrip is_space
defines t line = starts_with t line && colon_follows (lstrip is_space (drop (length t) line))

-- The parts of `Path(rel)`
abbrev pub path_parts : List Str → List Str
path_parts [] = []
path_parts (w ∷ ws) =
    let rest = path_parts ws in if str_eq w [] || str_eq w (codes ".") then rest else w ∷ rest

abbrev is_makefile : List Str → Bool
is_makefile (w ∷ []) = str_eq w (codes "Makefile")
is_makefile ws = false

-- `Path(rel).name == "Makefile" and Path(rel).parent in (Path("."), Path(""))`
unfoldable pub is_root : Str → Bool
unfolding is_absolute split_on str_eq
is_root rel = not (is_absolute rel) && is_makefile (path_parts (split_on b'/' rel))

abbrev pub first_word : List Str → Str
first_word [] = []
first_word (w ∷ ws) = w

abbrev pub make_conditionals : List Str
make_conditionals = codes "ifeq" ∷ codes "ifneq" ∷ codes "ifdef" ∷ codes "ifndef" ∷ []

-- The loop over the lines in front, with its `depth`.
unfoldable pub depth_after : ℕ → List LogicalLine → ℕ
unfolding strip is_space split_on mem_str str_eq
depth_after depth [] = depth
depth_after depth (prev ∷ lines) =
    let head = first_word (split_on 32 (strip is_space prev.raw)) in
    depth_after
      (if mem_str head make_conditionals
        then depth + 1
        else if str_eq head (codes "endif")
        then depth - 1
        else depth)
      lines

-- What the loops have found: the failures, `seen_shell`, `seen_shellflags`, and the target of each entry
-- of `definitions`.
pub record Found : Type 0 where
  pub failures : List TextFailure
  pub shell : Bool
  pub shellflags : Bool
  pub defined : List Str

abbrev pub nothing_found : Found
nothing_found = record { failures = []; shell = false; shellflags = false; defined = [] }

abbrev pub join_found : Found → Found → Found
join_found a b = record {
  failures = a.failures ++ b.failures;
  shell = a.shell || b.shell;
  shellflags = a.shellflags || b.shellflags;
  defined = a.defined ++ b.defined;
}

abbrev pub found_failure : TextFailure → Found
found_failure f = record nothing_found { failures = f ∷ [] }

-- An assignment to one of the five variables.
unfoldable pub check_assignment : Str → ℕ → Str → Str → Str → Found
unfolding is_root str_eq
check_assignment rel n name op val =
    if not (str_eq name (codes "SHELL") || str_eq name (codes ".SHELLFLAGS"))
    then found_failure (assigns_flags rel n)
    else if not (is_root rel)
    then found_failure (not_in_root rel n)
    else if not (str_eq op (codes ":="))
        || not (
            str_eq val
              (if str_eq name (codes "SHELL") then approved_shell else approved_shellflags))
    then found_failure (not_approved rel n)
    else if str_eq name (codes "SHELL")
    then record nothing_found { shell = true }
    else record nothing_found { shellflags = true }

abbrev pub recipe_failures : List RecipeFailure → List TextFailure
recipe_failures [] = []
recipe_failures (f ∷ fs) = of_recipe f ∷ recipe_failures fs

-- The line defines the target `t`; `before` and `after` are the lines around it.
unfoldable pub check_definition : Str → ℕ → Str → List LogicalLine → List LogicalLine → Found
unfolding depth_after check_recipe recipe_lines
check_definition rel n t before after = record {
  failures =
      fail_if (ltb 0 (depth_after 0 before)) (in_conditional rel n t)
      ++ recipe_failures (check_recipe rel t (recipe_lines after));
  shell = false;
  shellflags = false;
  defined = t ∷ [];
}

unfoldable pub check_targets :
    Str → ℕ → Str → List LogicalLine → List LogicalLine → List Str → Found
unfolding defines check_definition
check_targets rel n line before after [] = nothing_found
check_targets rel n line before after (t ∷ targets) =
    let rest = check_targets rel n line before after targets in
    if defines t line then join_found (check_definition rel n t before after) rest else rest

-- The declarations that are refused on a line that is no such assignment.
unfoldable pub check_declarations : Str → ℕ → Str → List TextFailure
unfolding starts_with strip is_space does_match
check_declarations rel n line =
    fail_if (starts_with (codes ".ONESHELL") (strip is_space line)) (oneshell rel n)
    ++ fail_if (starts_with (codes ".SECONDEXPANSION") (strip is_space line))
        (second_expansion rel n)
    ++ fail_if (does_match recipe_prefix_re line) (recipe_prefix rel n)

unfoldable pub check_line :
    Str → List Str → List LogicalLine → LogicalLine → List LogicalLine → Found
unfolding match_re group_of strip is_space check_assignment check_declarations check_targets
check_line rel targets before rec after =
    let others =
      join_found (record nothing_found { failures = check_declarations rel rec.n rec.raw })
        (check_targets rel rec.n rec.raw before after targets) in
    if rec.tab then nothing_found else elim (match_re assignment_re rec.raw) [
      | none ↦ others
      | some m ↦
          check_assignment rel rec.n (group_of 1 m.caps) (group_of 2 m.caps) (strip is_space m.rest)
    ]

unfoldable pub check_lines : Str → List Str → List LogicalLine → List LogicalLine → Found
unfolding check_line
check_lines rel targets before [] = nothing_found
check_lines rel targets before (rec ∷ after) =
    join_found (check_line rel targets before rec after)
      (check_lines rel targets (before ++ rec ∷ []) after)

abbrev lines_or : Option Str → Option (List LogicalLine)
lines_or none = none
lines_or (some s) = some (makefile_lines s)

-- `makegate.read_makefile_lines(path)`, with `none` for an OSError and for a text that is not UTF-8.
unfoldable pub text_lines : Fetched → Option (List LogicalLine)
unfolding decode_utf8 makefile_lines
text_lines missing = none
text_lines unreadable = none
text_lines (bytes raw) = lines_or (decode_utf8 raw)

abbrev pub check_file : Str → List Str → Option (List LogicalLine) → Found
check_file rel targets none = found_failure (cannot_read rel)
check_file rel targets (some lines) = check_lines rel targets [] lines

unfoldable pub check_files : (Str → Fetched) → List Str → List Str → Found
unfolding text_lines check_lines
check_files read targets [] = nothing_found
check_files read targets (rel ∷ files) =
    join_found (check_file rel targets (text_lines (read rel))) (check_files read targets files)

-- `len(definitions[t])`
unfoldable pub times_defined : Str → List Str → ℕ
unfolding str_eq
times_defined t [] = 0
times_defined t (d ∷ ds) = let rest = times_defined t ds in if str_eq t d then suc rest else rest

abbrev pub judge_count : List Str → Str → ℕ → List TextFailure
judge_count seeds t zero = fail_if (mem_str t seeds) (not_defined t)
judge_count seeds t (suc zero) = []
judge_count seeds t (suc (suc n)) = defined_twice t (suc (suc n)) ∷ []

unfoldable pub judge_targets : List Str → List Str → List Str → List TextFailure
unfolding times_defined mem_str
judge_targets seeds defined [] = []
judge_targets seeds defined (t ∷ targets) =
    judge_count seeds t (times_defined t defined) ++ judge_targets seeds defined targets

abbrev pub judge_found : List Str → List Str → Found → List TextFailure
judge_found targets seeds f =
    f.failures
    ++ fail_if (not f.shell || not f.shellflags) not_both_pinned
    ++ judge_targets seeds f.defined targets

unfoldable pub check_text : (Str → Fetched) → List Str → List Str → List Str → List TextFailure
unfolding check_files judge_targets
check_text read [] targets seeds = reads_nothing ∷ []
check_text read (rel ∷ files) targets seeds =
    judge_found targets seeds (check_files read targets (rel ∷ files))
