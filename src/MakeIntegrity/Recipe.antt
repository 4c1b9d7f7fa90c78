-- ===== src/MakeIntegrity/Recipe.antt =====
-- scripts/make-integrity-guard.py, `check_recipe` and `check_expanded_commands`: commands whose failure
-- would not fail the lane. A failure of the guard is one call of `Guard.fail`.
pub mod Prefix
pub mod Kept
pub mod Expanded
use vizra_search.Base.{
  ◌≡◌, refl, ◌≡◌, ℕ, Bool, true, false, not, ◌&&◌, ◌||◌, Option, none, some, List, [], ◌∷◌, ◌++◌,
  between, if◌then◌else◌, Str, codes, str_eq, char_in, starts_with, ends_with, is_space, strip,
  rstrip, split_lines, but_last,
}
use vizra_search.Regex.{Regex, char, seq, lit, opt, plus, dollar, does_match}

pub data RecipeFailure : Type 0 where
  -- file, line, target
  minus_prefix plus_prefix : Str → ℕ → Str → RecipeFailure
  -- file, line, target, suffix
  swallowed : Str → ℕ → Str → Str → RecipeFailure
  -- target, command
  expands_to_swallowed : Str → Str → RecipeFailure

-- `RECIPE_PREFIX_CHARS`
abbrev pub is_prefix_char : ℕ → Bool
is_prefix_char c = char_in c (codes "@-+")

-- `SWALLOWING_SUFFIXES`
abbrev pub swallowing_suffixes : List Str
swallowing_suffixes =
    codes "|| true"
    ∷ codes "|| :"
    ∷ codes "|| exit 0"
    ∷ codes "|| /bin/true"
    ∷ codes "|| /usr/bin/true"
    ∷ codes "; true"
    ∷ codes "; :"
    ∷ codes "; exit 0"
    ∷ []

-- `(target, stripped) in SWALLOW_EXEMPT`
unfoldable pub is_exempt : Str → Str → Bool
unfolding str_eq
is_exempt target stripped =
    str_eq target (codes "contract-drift")
    && str_eq stripped (codes "go test -count=1 -json $(DRIFT_PKGS) > $(DRIFT_REPORT) || true")

-- The `while` loop behind its first round: `body` is left-stripped, then looked at.
unfoldable pub more_prefix : Str → Str × Str
unfolding is_space char_in
more_prefix [] = ([], [])
more_prefix (c ∷ s) =
    let (prefix, body) = more_prefix s in
    if is_space c
    then (prefix, body)
    else if is_prefix_char c
    then (c ∷ prefix, body)
    else ([], c ∷ s)

-- The prefix and the body of a recipe line.
unfoldable pub split_recipe : Str → Str × Str
unfolding more_prefix char_in
split_recipe [] = ([], [])
split_recipe (c ∷ s) =
    let (prefix, body) = more_prefix s in
    if is_prefix_char c then (c ∷ prefix, body) else ([], c ∷ s)

-- The first of the suffixes that ends the command.
unfoldable pub swallowing : List Str → Str → Option Str
unfolding ends_with
swallowing [] command = none
swallowing (suffix ∷ suffixes) command =
    let rest = swallowing suffixes command in if ends_with suffix command then some suffix else rest

abbrev pub fail_if : {A : Type 0} → Bool → A → List A
fail_if true a = a ∷ []
fail_if false a = []

abbrev pub is_nil : Str → Bool
is_nil [] = true
is_nil (c ∷ s) = false

abbrev pub swallow_failure : Str → ℕ → Str → Option Str → List RecipeFailure
swallow_failure rel n target none = []
swallow_failure rel n target (some suffix) = swallowed rel n target suffix ∷ []

-- One line of the recipe, split.
unfoldable pub check_split : Str → Str → ℕ → Str → Str → List RecipeFailure
unfolding char_in rstrip is_space is_exempt swallowing
check_split rel target n prefix body =
    let stripped = rstrip is_space body in
    fail_if (char_in b'-' prefix) (minus_prefix rel n target)
    ++ fail_if (char_in b'+' prefix) (plus_prefix rel n target)
    ++ (if is_exempt target stripped && is_nil prefix
        then []
        else swallow_failure rel n target (swallowing swallowing_suffixes stripped))

unfoldable pub check_recipe : Str → Str → List (ℕ × Str) → List RecipeFailure
unfolding split_recipe check_split
check_recipe rel target [] = []
check_recipe rel target ((n, body) ∷ recipe) =
    check_split rel target n (split_recipe body).0 (split_recipe body).1
    ++ check_recipe rel target recipe

abbrev pub is_digit : ℕ → Bool
is_digit c = between b'0' b'9' c

-- `^make(\[\d+\])?: `, for ASCII digits
abbrev pub make_says_re : Regex
make_says_re =
    seq (lit "make") (seq (opt (seq (lit "[") (seq (plus (char is_digit)) (lit "]")))) (lit ": "))

-- `_EXPANDED_EXEMPT_RE`
abbrev pub expanded_exempt_re : Regex
expanded_exempt_re = seq (lit "go test -count=1 -json") (
    seq (plus (seq (lit " ./") (plus (char (λ c. not (is_space c))))))
      (seq (lit " > .contract-drift-report.json || true") dollar))

-- The commands of the dry run; a command that is still continued at the end is dropped, as in the code.
unfoldable pub commands_of : Str → List Str → List Str
unfolding strip is_space does_match starts_with ends_with but_last
commands_of pending [] = []
commands_of pending (raw ∷ lines) =
    let line = strip is_space raw in
    let skipped = commands_of pending lines in
    let continued = commands_of (pending ++ but_last line ++ codes " ") lines in
    let ended = strip is_space (pending ++ line) ∷ commands_of [] lines in
    if is_nil line || starts_with (codes "#") line || does_match make_says_re line
    then skipped
    else if ends_with (codes "\\") line
    then continued
    else ended

abbrev pub is_swallowing : Option Str → Bool
is_swallowing none = false
is_swallowing (some suffix) = true

unfoldable pub bad_commands : Str → List Str → List RecipeFailure
unfolding rstrip is_space swallowing does_match
bad_commands target [] = []
bad_commands target (c ∷ commands) =
    fail_if
      (is_swallowing (swallowing swallowing_suffixes (rstrip is_space c))
        && not (does_match expanded_exempt_re c))
      (expands_to_swallowed target c)
    ++ bad_commands target commands

unfoldable pub check_expanded_commands : Str → Str → List RecipeFailure
unfolding bad_commands commands_of split_lines
check_expanded_commands target stdout = bad_commands target (commands_of [] (split_lines stdout))

runs_on :
    commands_of [] (split_lines (codes "make: note\n  go vet \\\n ./... || true\n# c\n"))
    ≡ codes "go vet  ./... || true" ∷ []
unfolding commands_of split_lines
runs_on = refl

splits : split_recipe (codes "@ -go test") ≡ (codes "@-", codes "go test")
unfolding split_recipe
splits = refl
