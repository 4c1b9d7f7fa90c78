-- ===== src/Makegate/Reviewed.antt =====
-- scripts/makegate.py, `reviewed_bytes_problems`: the constructs that are refused by name.
mod Tests
use vizra_search.Base.{
  ℕ, Bool, false, not, ◌&&◌, ◌||◌, Option, none, some, List, [], ◌∷◌, ◌++◌, ◌==◌, if◌then◌else◌,
  take, Str, codes, mem_str, char_in, is_space, strip, rstrip,
}
use vizra_search.Regex.{
  Regex, char, seq, alt, star, group, dollar, lit, opt, plus, Match, match_re, does_search,
  group_of,
}
use vizra_search.Makegate.Lines.{LogicalLine, makefile_lines}
use vizra_search.Makegate.Patterns.{spaces}
use vizra_search.Makegate.Rules.{
  NamedProblem, named, plus_prefix, make_in_recipe, make_in_line, begins_with_expansion,
  assigns_controlled, special_target, when, computed_name_problems, rule_line_problems,
}

abbrev pub approved_shell_lines : List Str
approved_shell_lines = codes "SHELL := /bin/bash" ∷ codes ".SHELLFLAGS := -eu -o pipefail -c" ∷ []

-- `_CONTROLLED_VARS`
abbrev pub controlled_vars : Regex
controlled_vars = group 1 (
    alt (lit "SHELL") (
      alt (lit ".SHELLFLAGS") (
        alt (lit "MAKEFLAGS") (
          alt (lit "GNUMAKEFLAGS")
            (alt (lit "MFLAGS") (alt (lit ".RECIPEPREFIX") (lit ".EXTRA_PREREQS")))))))

-- `_MODIFIERS`
abbrev pub modifiers : Regex
modifiers = star (
    seq (alt (lit "export") (alt (lit "override") (alt (lit "private") (lit "unexport"))))
      (plus (char is_space)))

abbrev pub no_target_char : ℕ → Bool
no_target_char c = c == b':' || c == b'=' || c == b'#'

-- `_ASSIGN_CONTROLLED_RE`
abbrev pub assign_controlled_re : Regex
assign_controlled_re = seq spaces (
    seq
      (opt (
        seq (char (λ c. not (is_space c || no_target_char c)))
          (seq (star (char (λ c. not (no_target_char c)))) (seq (lit ":") spaces))))
      (seq modifiers (
        seq controlled_vars (
          seq spaces (
            seq (opt (alt (char (λ c. char_in c (codes ":+?!"))) (alt (lit "::") (lit ":::"))))
              (lit "="))))))

-- `_DEFINE_CONTROLLED_RE`
abbrev pub define_controlled_re : Regex
define_controlled_re = seq spaces (
    seq modifiers (
      seq (lit "define")
        (seq (plus (char is_space)) (seq controlled_vars (alt (char is_space) dollar)))))

-- `_SPECIAL_TARGET_RE`
abbrev pub special_target_re : Regex
special_target_re = seq spaces (
    seq
      (group 1 (
        alt (lit ".ONESHELL") (
          alt (lit ".IGNORE")
            (alt (lit ".DEFAULT") (alt (lit ".POSIX") (lit ".SECONDEXPANSION"))))))
      (seq spaces (lit ":")))

-- `_MAKE_VAR_RE`
abbrev pub make_var_re : Regex
make_var_re = seq (lit "$") (
    seq (char (λ c. c == b'(' || c == b'{'))
      (seq (lit "MAKE") (char (λ c. c == b')' || c == b'}'))))

abbrev pub prefix_char : ℕ → Bool
prefix_char c = c == b'@' || c == b'-' || c == b'+' || c == 32 || c == 9

-- The loop over the prefix of a recipe line: the prefix and the body.
unfoldable pub split_prefix : Str → Str × Str
split_prefix [] = ([], [])
split_prefix (c ∷ s) =
    let (prefix, body) = split_prefix s in if prefix_char c then (c ∷ prefix, body) else ([], c ∷ s)

-- `body.startswith("$") and not body.startswith("$$")`
unfoldable pub begins_expansion : Str → Bool
begins_expansion [] = false
begins_expansion (c ∷ []) = c == b'$'
begins_expansion (c ∷ d ∷ s) = c == b'$' && not (d == b'$')

-- A recipe line, `text` behind its TAB.
unfoldable pub recipe_problems : Str → ℕ → Str → Str → List NamedProblem
unfolding split_prefix begins_expansion char_in named does_search
recipe_problems rel n raw text =
    let prefix = (split_prefix text).0 in
    let body = (split_prefix text).1 in
    when (char_in b'+' prefix) (named rel n raw plus_prefix)
    ++ (when (begins_expansion body) (named rel n raw (begins_with_expansion (take 40 body)))
        ++ when (does_search make_var_re raw) (named rel n raw make_in_recipe))

abbrev pub or_else : Option Match → Option Match → Option Match
or_else none m = m
or_else (some m) k = some m

abbrev pub controlled_problem : Str → ℕ → Str → Option Match → List NamedProblem
controlled_problem rel n raw none = []
controlled_problem rel n raw (some m) =
    named rel n raw (assigns_controlled (group_of 1 m.caps)) ∷ []

abbrev pub special_problem : Str → ℕ → Str → Option Match → List NamedProblem
special_problem rel n raw none = []
special_problem rel n raw (some m) = named rel n raw (special_target (group_of 1 m.caps)) ∷ []

abbrev pub first_segment : List Str → Str
first_segment [] = []
first_segment (s ∷ ss) = s

-- A line that is no recipe line.
unfoldable pub other_problems : Str → LogicalLine → Str → List NamedProblem
unfolding mem_str strip is_space rule_line_problems computed_name_problems match_re group_of named
    does_search
other_problems rel rec raw =
    if mem_str (strip is_space raw) approved_shell_lines
    then []
    else rule_line_problems rel rec.n raw (first_segment rec.segments)
      ++ (computed_name_problems rel rec.n raw
          ++ (controlled_problem rel rec.n raw
                (or_else (match_re assign_controlled_re raw) (match_re define_controlled_re raw))
              ++ (special_problem rel rec.n raw (match_re special_target_re raw)
                  ++ when (does_search make_var_re raw) (named rel rec.n raw make_in_line))))

-- One round of the loop; `raw` is `rec.code.rstrip()`.
unfoldable pub reviewed_line : Str → LogicalLine → Str → List NamedProblem
unfolding recipe_problems other_problems
reviewed_line rel rec [] = []
reviewed_line rel rec (c ∷ s) =
    if c == 9 then recipe_problems rel rec.n (c ∷ s) s else other_problems rel rec (c ∷ s)

unfoldable pub reviewed_loop : Str → List LogicalLine → List NamedProblem
unfolding rstrip is_space reviewed_line
reviewed_loop rel [] = []
reviewed_loop rel (rec ∷ lines) =
    reviewed_line rel rec (rstrip is_space rec.code) ++ reviewed_loop rel lines

unfoldable pub reviewed_bytes_problems : Str → Str → List NamedProblem
unfolding reviewed_loop makefile_lines
reviewed_bytes_problems rel text = reviewed_loop rel (makefile_lines text)
