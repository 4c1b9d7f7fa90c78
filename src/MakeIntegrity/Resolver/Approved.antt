-- ===== src/MakeIntegrity/Resolver/Approved.antt =====
-- scripts/make-integrity-guard.py, `check_resolved`: which databases are accepted.
use vizra_search.MakeIntegrity.Resolver.Flags.{IsLetPass, adds_flags-IsLetPass}
use vizra_search.Base.{
  words, ◌≡◌, refl, Bool, true, false, not, List, [], ◌∷◌, ◌++◌, Str, codes, str_eq_iff, is_space,
  strip, if◌then◌else◌,
}
use vizra_search.Makegate.Environ.{Env, assigns, value_of}
use vizra_search.MakeIntegrity.Environment.Strict.{fail_if-nil}
use vizra_search.MakeIntegrity.Recipe.{fail_if}
use vizra_search.MakeIntegrity.Text.{approved_shell, approved_shellflags}
use vizra_search.MakeIntegrity.Resolver.{
  ResolverFailure, no_shell, other_shell, no_shellflags, other_shellflags, oneshell_in_effect,
  flags_added, Database, adds_flags, check_variable, check_resolved,
}

-- The variable is there, with the value up to white space around it.
pub record HasValue (name want : Str) (variables : Env) : Type 0 where
  pub there_is : assigns name variables ≡ true
  pub is_want : strip is_space (value_of name variables) ≡ want

pub record IsApproved (d : Database) : Type 0 where
  pub shell : HasValue (codes "SHELL") (codes "/bin/bash") d.variables
  pub shellflags : HasValue (codes ".SHELLFLAGS") (codes "-eu -o pipefail -c") d.variables
  pub no_oneshell : d.oneshell ≡ false
  pub flags : IsLetPass (words (value_of (codes "MAKEFLAGS") d.variables))

variable_lem :
    (there_is is_want : Bool) (absent other : ResolverFailure)
    → (if not there_is then absent ∷ [] else fail_if (not is_want) other) ≡ []
    → (there_is ≡ true) × (is_want ≡ true)
variable_lem true true absent other k = (refl, refl)
variable_lem true false absent other k = cc
variable_lem false w absent other k = cc

check_variable-HasValue :
    (name want : Str) (variables : Env) (absent other : ResolverFailure)
    → check_variable name want variables absent other ≡ []
    → HasValue name want variables
unfolding check_variable
check_variable-HasValue name want variables absent other k =
    let (there_is, is_want) = variable_lem _ _ absent other k in
    record { there_is = there_is; is_want = (str_eq_iff _ want).0 is_want }

four_nil :
    {A : Type 0} (a b c d : List A)
    → a ++ b ++ c ++ d ≡ []
    → (a ≡ []) × (b ≡ []) × (c ≡ []) × (d ≡ [])
four_nil (x ∷ a) b c d k = cc
four_nil [] (x ∷ b) c d k = cc
four_nil [] [] (x ∷ c) d k = cc
four_nil [] [] [] d k = (refl, refl, refl, k)

pub check_resolved-IsApproved :
    (target : Str) (d : Database) → check_resolved target d ≡ [] → IsApproved d
unfolding check_resolved
check_resolved-IsApproved target d k =
    let raw = value_of (codes "MAKEFLAGS") d.variables in
    let (shell, shellflags, no_oneshell, no_flags) =
      four_nil
        (check_variable (codes "SHELL") approved_shell d.variables (no_shell target)
          (other_shell target))
        (check_variable (codes ".SHELLFLAGS") approved_shellflags d.variables (no_shellflags target)
          (other_shellflags target))
        (fail_if d.oneshell (oneshell_in_effect target))
        (fail_if (adds_flags raw) (flags_added target raw)) k in
    record {
      shell = check_variable-HasValue _ _ _ _ _ shell;
      shellflags = check_variable-HasValue _ _ _ _ _ shellflags;
      no_oneshell = fail_if-nil d.oneshell (oneshell_in_effect target) no_oneshell;
      flags =
          adds_flags-IsLetPass raw (fail_if-nil (adds_flags raw) (flags_added target raw) no_flags);
    }
