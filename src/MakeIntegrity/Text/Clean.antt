-- ===== src/MakeIntegrity/Text/Clean.antt =====
-- scripts/make-integrity-guard.py, `check_text`: what a reading without a failure says of every line.
use vizra_search.Base.{
  arith, ℕ, zero, suc, Bool, true, false, not, ◌||◌, ◌≡◌, ◌≢◌, ◌⊎◌, inl, inr, refl, sym, ap, ◌∙◌,
  none, some, List, [], ◌∷◌, All, Bool-cases, Str, codes, str_eq, str_eq_iff, is_space, strip,
  starts_with, ltb, append-eq-nil_left, append-eq-nil_right, if◌then◌else◌,
}
use vizra_search.Regex.{Match, match_re, does_match, group_of}
use vizra_search.Makegate.Lines.{LogicalLine, recipe_lines}
use vizra_search.MakeIntegrity.Recipe.{RecipeFailure, fail_if}
use vizra_search.MakeIntegrity.Recipe.Kept.{IsUnswallowed, check_recipe-IsUnswallowed}
use vizra_search.MakeIntegrity.Environment.Strict.{fail_if-nil}
use vizra_search.MakeIntegrity.Text.{
  not_approved, not_in_root, assigns_flags, in_conditional, TextFailure, approved_shell,
  approved_shellflags, assignment_re, recipe_prefix_re, defines, is_root, depth_after, Found,
  join_found, found_failure, check_assignment, recipe_failures, check_definition, check_targets,
}

-- The line assigns the approved value to SHELL or to .SHELLFLAGS, in the root Makefile.
pub record IsApproved (rel : Str) (m : Match) : Type 0 where
  pub in_root : is_root rel ≡ true
  pub operator : group_of 2 m.caps ≡ codes ":="
  pub pins :
      ((group_of 1 m.caps ≡ codes "SHELL") × (strip is_space m.rest ≡ codes "/bin/bash"))
      ⊎ ((group_of 1 m.caps ≡ codes ".SHELLFLAGS")
          × (strip is_space m.rest ≡ codes "-eu -o pipefail -c"))

-- A definition of `t` is unconditional, and its recipe lines are accepted.
pub record IsSound (t : Str) (before after : List LogicalLine) : Type 0 where
  pub unconditional : depth_after 0 before ≡ 0
  pub recipe : All (λ (l : ℕ × Str). IsUnswallowed t l.1) (recipe_lines after)

-- A line that assigns none of the five variables.
pub record IsPlainLine (targets : List Str) (before : List LogicalLine) (line : Str)
    (after : List LogicalLine) : Type 0 where
  pub no_oneshell : starts_with (codes ".ONESHELL") (strip is_space line) ≡ false
  pub no_second : starts_with (codes ".SECONDEXPANSION") (strip is_space line) ≡ false
  pub no_prefix : does_match recipe_prefix_re line ≡ false
  pub definitions : All (λ t. defines t line ≡ true → IsSound t before after) targets

pub data IsCleanLine (rel : Str) (targets : List Str) (before : List LogicalLine)
    (rec : LogicalLine) (after : List LogicalLine) : Type 0 where
  recipe : rec.tab ≡ true → IsCleanLine rel targets before rec after
  approved :
      (m : Match)
      → match_re assignment_re rec.raw ≡ some m
      → IsApproved rel m
      → IsCleanLine rel targets before rec after
  plain :
      match_re assignment_re rec.raw ≡ none
      → IsPlainLine targets before rec.raw after
      → IsCleanLine rel targets before rec after

assignment_lem :
    (a b r o v : Bool) (f1 f2 f3 f4 f5 : Found)
    → f1.failures ≢ []
    → f2.failures ≢ []
    → f3.failures ≢ []
    → (if not (a || b)
        then f1
        else if not r
        then f2
        else if not o || not v
        then f3
        else if a
        then f4
        else f5).failures
      ≡ []
    → ((a || b) ≡ true) × (r ≡ true) × (o ≡ true) × (v ≡ true)
assignment_lem false false r o v f1 f2 f3 f4 f5 n1 n2 n3 k = absurd (n1 k)
assignment_lem true b false o v f1 f2 f3 f4 f5 n1 n2 n3 k = absurd (n2 k)
assignment_lem false true false o v f1 f2 f3 f4 f5 n1 n2 n3 k = absurd (n2 k)
assignment_lem true b true false v f1 f2 f3 f4 f5 n1 n2 n3 k = absurd (n3 k)
assignment_lem true b true true false f1 f2 f3 f4 f5 n1 n2 n3 k = absurd (n3 k)
assignment_lem true b true true true f1 f2 f3 f4 f5 n1 n2 n3 k = (refl, refl, refl, refl)
assignment_lem false true true false v f1 f2 f3 f4 f5 n1 n2 n3 k = absurd (n3 k)
assignment_lem false true true true false f1 f2 f3 f4 f5 n1 n2 n3 k = absurd (n3 k)
assignment_lem false true true true true f1 f2 f3 f4 f5 n1 n2 n3 k = (refl, refl, refl, refl)

-- Which of the two variables, with its value.
pins_lem :
    (name val : Str) (a : Bool)
    → str_eq name (codes "SHELL") ≡ a
    → (a || str_eq name (codes ".SHELLFLAGS")) ≡ true
    → str_eq val (if a then approved_shell else approved_shellflags) ≡ true
    → ((name ≡ codes "SHELL") × (val ≡ approved_shell))
      ⊎ ((name ≡ codes ".SHELLFLAGS") × (val ≡ approved_shellflags))
pins_lem name val true is_shell one is_value =
    inl ((str_eq_iff name (codes "SHELL")).0 is_shell, (str_eq_iff val approved_shell).0 is_value)
pins_lem name val false is_shell one is_value =
    inr (
      (str_eq_iff name (codes ".SHELLFLAGS")).0 one,
      (str_eq_iff val approved_shellflags).0 is_value,
    )

true-ne-false_lem : true ≢ false
true-ne-false_lem = λ e. cc

found_failure-ne-nil : (f : TextFailure) → (found_failure f).failures ≢ []
found_failure-ne-nil f = λ e. cc

pub check_assignment-IsApproved :
    (rel : Str) (n : ℕ) (m : Match)
    → (check_assignment rel n
        (group_of 1 m.caps)
        (group_of 2 m.caps)
        (strip is_space m.rest)).failures
      ≡ []
    → IsApproved rel m
unfolding check_assignment
check_assignment-IsApproved rel n m k =
    let name = group_of 1 m.caps in
    let val = strip is_space m.rest in
    let (one, root, operator, is_value) =
      assignment_lem (str_eq name (codes "SHELL")) (str_eq name (codes ".SHELLFLAGS")) (is_root rel)
        (str_eq (group_of 2 m.caps) (codes ":="))
        (str_eq val (if str_eq name (codes "SHELL") then approved_shell else approved_shellflags)) _
        _ _ _ _ (found_failure-ne-nil (assigns_flags rel n))
        (found_failure-ne-nil (not_in_root rel n)) (found_failure-ne-nil (not_approved rel n)) k in
    record {
      in_root = root;
      operator = (str_eq_iff (group_of 2 m.caps) (codes ":=")).0 operator;
      pins = pins_lem name val (str_eq name (codes "SHELL")) refl one is_value;
    }

recipe_failures-nil : (fs : List RecipeFailure) → recipe_failures fs ≡ [] → fs ≡ []
recipe_failures-nil [] k = refl
recipe_failures-nil (f ∷ fs) k = cc

not_positive : (n : ℕ) → ltb 0 n ≡ false → n ≡ 0
not_positive zero k = refl
not_positive (suc n) k = ground arith

check_definition-IsSound :
    (rel : Str) (n : ℕ) (t : Str) (before after : List LogicalLine)
    → (check_definition rel n t before after).failures ≡ []
    → IsSound t before after
unfolding check_definition
check_definition-IsSound rel n t before after k = record {
  unconditional =
      not_positive (depth_after 0 before)
        (fail_if-nil _ (in_conditional rel n t) (append-eq-nil_left _ _ k));
  recipe = check_recipe-IsUnswallowed rel t (recipe_lines after) (
      recipe_failures-nil _ (
        append-eq-nil_right (fail_if (ltb 0 (depth_after 0 before)) (in_conditional rel n t)) _ k));
}

pub check_targets-IsSound :
    (rel : Str) (n : ℕ) (line : Str) (before after : List LogicalLine) (targets : List Str)
    → (check_targets rel n line before after targets).failures ≡ []
    → All (λ t. defines t line ≡ true → IsSound t before after) targets
unfolding check_targets
check_targets-IsSound rel n line before after [] k = tt
check_targets-IsSound rel n line before after (t ∷ targets) k = elim (Bool-cases (defines t line)) [
  | inl e ↦
      let both =
        ap
          (λ b.
            (if b
              then join_found (check_definition rel n t before after)
                  (check_targets rel n line before after targets)
              else check_targets rel n line before after targets).failures)
          (sym e)
        ∙ k in
      (
        λ _. check_definition-IsSound rel n t before after (append-eq-nil_left _ _ both),
        check_targets-IsSound rel n line before after targets
            (append-eq-nil_right (check_definition rel n t before after).failures _ both),
      )
  | inr e ↦ (
    λ d. absurd (true-ne-false_lem (sym d ∙ e)),
    check_targets-IsSound rel n line before after targets (
        ap
          (λ b.
            (if b
              then join_found (check_definition rel n t before after)
                  (check_targets rel n line before after targets)
              else check_targets rel n line before after targets).failures)
          (sym e)
        ∙ k),
  )
]
