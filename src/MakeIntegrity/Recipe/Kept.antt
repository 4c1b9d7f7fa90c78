-- ===== src/MakeIntegrity/Recipe/Kept.antt =====
-- scripts/make-integrity-guard.py, `check_recipe`: which recipes are accepted.
use vizra_search.MakeIntegrity.Environment.Strict.{fail_if-nil}
use vizra_search.Base.{
  codes, and_left, and_right, str_eq, str_eq_iff, ℕ, Bool, true, false, ◌&&◌, ◌≡◌, ◌≢◌, ◌⊎◌, inl,
  inr, refl, sym, ap, ◌∙◌, Option, none, some, List, [], ◌∷◌, ◌++◌, All, Bool-cases, Str, char_in,
  ends_with, is_space, rstrip, append-eq-nil_left, append-eq-nil_right, if◌then◌else◌,
}
use vizra_search.MakeIntegrity.Recipe.{
  RecipeFailure, minus_prefix, plus_prefix, swallowing_suffixes, is_exempt, split_recipe,
  swallowing, fail_if, is_nil, swallow_failure, check_split, check_recipe,
}
use vizra_search.MakeIntegrity.Recipe.Prefix.{Prefixed, split_recipe-Prefixed}

-- None of the suffixes ends the command.
abbrev pub EndsWithNone : List Str → Str → Type 0
EndsWithNone suffixes command = All (λ suffix. ends_with suffix command ≡ false) suffixes

-- The suffixes that are looked for.
abbrev pub listed_suffixes : List Str
listed_suffixes =
    codes "|| true"
    ∷ codes "|| :"
    ∷ codes "|| exit 0"
    ∷ codes "|| /bin/true"
    ∷ codes "|| /usr/bin/true"
    ∷ codes "; true"
    ∷ codes "; :"
    ∷ codes "; exit 0"
    ∷ []

-- The one line that may end so.
abbrev pub IsExempt : Str → Str → Type 0
IsExempt target command =
    (target ≡ codes "contract-drift")
    × (command ≡ codes "go test -count=1 -json $(DRIFT_PKGS) > $(DRIFT_REPORT) || true")

is_exempt-IsExempt :
    (target command : Str) → is_exempt target command ≡ true → IsExempt target command
unfolding is_exempt
is_exempt-IsExempt target command e = (
  (str_eq_iff target _).0 (and_left _ _ e),
  (str_eq_iff command _).0 (and_right (str_eq target (codes "contract-drift")) _ e),
)

-- No prefix `-` or `+`, and the command ends with none of the listed suffixes, or is the exempt command
-- without a prefix. Another way to discard a status, such as `|| echo x`, is not looked for.
pub record IsUnswallowed (target body : Str) : Type 0 where
  pub prefix : Str
  pub command : Str
  pub parts : Prefixed body prefix command
  pub no_minus : char_in b'-' prefix ≡ false
  pub no_plus : char_in b'+' prefix ≡ false
  pub kept :
      (IsExempt target (rstrip is_space command) × (prefix ≡ []))
      ⊎ EndsWithNone listed_suffixes (rstrip is_space command)

some-ne-none_lem : {A : Type 0} {a : A} → some a ≢ none
some-ne-none_lem = λ e. cc

pub swallowing-none :
    (suffixes : List Str) (command : Str)
    → swallowing suffixes command ≡ none
    → EndsWithNone suffixes command
unfolding swallowing
swallowing-none [] command k = tt
swallowing-none (suffix ∷ suffixes) command k = elim (Bool-cases (ends_with suffix command)) [
  | inl e ↦ absurd (
      some-ne-none_lem
        (sym (ap (λ b. if b then some suffix else swallowing suffixes command) e) ∙ k))
  | inr e ↦ (
    e,
    swallowing-none suffixes command
        (sym (ap (λ b. if b then some suffix else swallowing suffixes command) e) ∙ k),
  )
]

swallow_failure-nil :
    (rel : Str) (n : ℕ) (target : Str) (o : Option Str)
    → swallow_failure rel n target o ≡ []
    → o ≡ none
swallow_failure-nil rel n target none k = refl
swallow_failure-nil rel n target (some suffix) k = cc

unless_exempt :
    (exempt : Bool) (prefix command : Str) (fs : List RecipeFailure)
    → (if exempt && is_nil prefix then [] else fs) ≡ []
    → ((exempt ≡ true) × (prefix ≡ [])) ⊎ (fs ≡ [])
unless_exempt true [] command fs k = inl (refl, refl)
unless_exempt true (c ∷ s) command fs k = inr k
unless_exempt false prefix command fs k = inr k

check_split-IsUnswallowed :
    (rel target : Str) (n : ℕ) (body : Str)
    → check_split rel target n (split_recipe body).0 (split_recipe body).1 ≡ []
    → IsUnswallowed target body
unfolding check_split
check_split-IsUnswallowed rel target n body k =
    let prefix = (split_recipe body).0 in
    let command = (split_recipe body).1 in
    let front =
      append-eq-nil_left
        (fail_if (char_in b'-' prefix) (minus_prefix rel n target)
          ++ fail_if (char_in b'+' prefix) (plus_prefix rel n target))
        _ k in
    let last =
      append-eq-nil_right
        (fail_if (char_in b'-' prefix) (minus_prefix rel n target)
          ++ fail_if (char_in b'+' prefix) (plus_prefix rel n target))
        _ k in
    record {
      prefix = prefix;
      command = command;
      parts = split_recipe-Prefixed body;
      no_minus = fail_if-nil _ (minus_prefix rel n target) (append-eq-nil_left _ _ front);
      no_plus =
          fail_if-nil _ (plus_prefix rel n target) (
            append-eq-nil_right (fail_if (char_in b'-' prefix) (minus_prefix rel n target)) _
              front);
      kept =
          elim (unless_exempt (is_exempt target (rstrip is_space command)) prefix command _ last) [
            | inl (exempt, bare) ↦
                inl (is_exempt-IsExempt target (rstrip is_space command) exempt, bare)
            | inr nothing ↦ inr (
                swallowing-none swallowing_suffixes (rstrip is_space command)
                  (swallow_failure-nil rel n target _ nothing))
          ];
    }

-- If check_recipe finds nothing, each line is a prefix without `-` and `+`, with white space in it,
-- and a command, and the command ends with none of the eight listed suffixes, or is the exempt one
-- without a prefix.
pub check_recipe-IsUnswallowed :
    (rel target : Str) (recipe : List (ℕ × Str))
    → check_recipe rel target recipe ≡ []
    → All (λ (l : ℕ × Str). IsUnswallowed target l.1) recipe
unfolding check_recipe
check_recipe-IsUnswallowed rel target [] k = tt
check_recipe-IsUnswallowed rel target ((n, body) ∷ recipe) k = (
  check_split-IsUnswallowed rel target n body (append-eq-nil_left _ _ k),
  check_recipe-IsUnswallowed rel target recipe (
      append-eq-nil_right (check_split rel target n (split_recipe body).0 (split_recipe body).1) _
        k),
)
