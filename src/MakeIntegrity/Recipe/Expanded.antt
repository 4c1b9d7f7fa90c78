-- ===== src/MakeIntegrity/Recipe/Expanded.antt =====
-- scripts/make-integrity-guard.py, `check_expanded_commands`: which dry runs are accepted.
use vizra_search.Base.{
  ◌≡◌, ◌⊎◌, inl, inr, refl, Bool, true, false, not, ◌&&◌, Option, none, some, List, [], ◌∷◌, All,
  Str, is_space, rstrip, split_lines, append-eq-nil_left, append-eq-nil_right,
}
use vizra_search.Regex.{does_match}
use vizra_search.MakeIntegrity.Environment.Strict.{fail_if-nil}
use vizra_search.MakeIntegrity.Recipe.{
  swallowing_suffixes, swallowing, is_swallowing, expanded_exempt_re, expands_to_swallowed, fail_if,
  bad_commands, commands_of, check_expanded_commands,
}
use vizra_search.MakeIntegrity.Recipe.Kept.{listed_suffixes, EndsWithNone, swallowing-none}

-- The command ends with none of the listed suffixes, or it is the exempt command.
abbrev pub IsUnswallowedCommand : Str → Type 0
IsUnswallowedCommand command =
    EndsWithNone listed_suffixes (rstrip is_space command)
    ⊎ (does_match expanded_exempt_re command ≡ true)

swallowing_lem :
    (o : Option Str) (exempt : Bool)
    → (is_swallowing o && not exempt) ≡ false
    → (o ≡ none) ⊎ (exempt ≡ true)
swallowing_lem none exempt k = inl refl
swallowing_lem (some suffix) true k = inr refl
swallowing_lem (some suffix) false k = cc

bad_commands-nil :
    (target : Str) (commands : List Str)
    → bad_commands target commands ≡ []
    → All IsUnswallowedCommand commands
unfolding bad_commands
bad_commands-nil target [] k = tt
bad_commands-nil target (c ∷ commands) k = (
  elim (swallowing_lem (swallowing swallowing_suffixes (rstrip is_space c))
      (does_match expanded_exempt_re c)
      (fail_if-nil _ (expands_to_swallowed target c) (append-eq-nil_left _ _ k))) [
        | inl nothing ↦ inl (swallowing-none swallowing_suffixes (rstrip is_space c) nothing)
        | inr exempt ↦ inr exempt
      ],
  bad_commands-nil target commands (
      append-eq-nil_right
        (fail_if
          (is_swallowing (swallowing swallowing_suffixes (rstrip is_space c))
            && not (does_match expanded_exempt_re c))
          (expands_to_swallowed target c))
        _ k),
)

pub check_expanded_commands-IsUnswallowedCommand :
    (target stdout : Str)
    → check_expanded_commands target stdout ≡ []
    → All IsUnswallowedCommand (commands_of [] (split_lines stdout))
unfolding check_expanded_commands
check_expanded_commands-IsUnswallowedCommand target stdout k = bad_commands-nil target _ k
