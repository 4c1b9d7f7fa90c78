-- ===== src/MakeIntegrity/Environment.antt =====
-- scripts/make-integrity-guard.py, `check_environment` and `check_environment_overrides`: the anchor's own
-- environment. `os.environ` is the list of its entries, each name once.
pub mod Strict
use vizra_search.Base.{
  Bool, true, false, not, ◌&&◌, ◌||◌, List, [], ◌∷◌, ◌++◌, if◌then◌else◌, Str, codes, mem_str,
  char_in, is_space, strip, words,
}
use vizra_search.Regex.{Regex, char, seq, alt, star, lit, plus, dollar, does_match}
use vizra_search.Makegate.Lines.{LogicalLine}
use vizra_search.Makegate.Environ.{Env, assigns, value_of, environment_taken}
use vizra_search.MakeIntegrity.Recipe.{fail_if, is_nil, is_digit}

pub data EnvFailure : Type 0 where
  planted sets_flags refused_flags : Str → EnvFailure
  overridden_variable makefiles_set : EnvFailure
  sourced : Str → EnvFailure
  bad_shell : Str → EnvFailure
  taken_and_set : List Str → EnvFailure

abbrev pub neutered_shells : List Str
neutered_shells =
    codes "/usr/bin/true"
    ∷ codes "/bin/true"
    ∷ codes ":"
    ∷ codes "/bin/echo"
    ∷ codes "/usr/bin/echo"
    ∷ codes "/bin/false"
    ∷ codes "/usr/bin/false"
    ∷ []

abbrev pub make_internal_vars : List Str
make_internal_vars =
    codes "MAKELEVEL" ∷ codes "MAKE_RESTARTS" ∷ codes "MAKEOVERRIDES" ∷ codes "MAKECMDGOALS" ∷ []

abbrev pub flag_vars : List Str
flag_vars = codes "MAKEFLAGS" ∷ codes "GNUMAKEFLAGS" ∷ codes "MFLAGS" ∷ []

abbrev silent : Regex
silent = char (λ c. char_in c (codes "ws"))

-- `_ALLOWED_FLAG_WORD`, for ASCII digits
abbrev pub allowed_flag_word : Regex
allowed_flag_word =
    seq
      (alt (lit "-") (
        alt (plus silent) (
          alt (seq (lit "-") silent) (
            alt (seq (lit "-j") (star (char is_digit))) (
              alt
                (seq (lit "--jobserver-") (
                  seq (alt (lit "fds") (lit "auth"))
                    (seq (lit "=") (plus (char (λ c. not (is_space c)))))))
                (alt (lit "--print-directory")
                  (alt (lit "--no-print-directory") (alt (lit "--silent") (lit "--quiet")))))))))
      dollar

-- The loop over names none of which may be present.
unfoldable pub absent_or : (Str → EnvFailure) → Env → List Str → List EnvFailure
unfolding assigns
absent_or failure env [] = []
absent_or failure env (name ∷ names) =
    fail_if (assigns name env) (failure name) ++ absent_or failure env names

unfoldable pub all_allowed : List Str → Bool
unfolding does_match
all_allowed [] = true
all_allowed (w ∷ ws) = does_match allowed_flag_word w && all_allowed ws

-- The flag variables in the local mode.
unfoldable pub allowed_or : Env → List Str → List EnvFailure
unfolding value_of words all_allowed
allowed_or env [] = []
allowed_or env (name ∷ names) =
    fail_if (not (all_allowed (words (value_of name env)))) (refused_flags name)
    ++ allowed_or env names

-- `os.environ.get(name, "").strip()`
unfoldable pub stripped_value : Str → Env → Str
unfolding value_of strip is_space
stripped_value name env = strip is_space (value_of name env)

abbrev pub is_set : Str → Env → Bool
is_set name env = not (is_nil (stripped_value name env))

abbrev pub check_mode : Bool → Env → List EnvFailure
check_mode true env = absent_or planted env make_internal_vars ++ absent_or sets_flags env flag_vars
check_mode false env =
    allowed_or env flag_vars ++ fail_if (is_set (codes "MAKEOVERRIDES") env) overridden_variable

-- A SHELL that is neutered or no executable file; `is_executable`: `isfile` and `access` with X_OK.
unfoldable pub is_unusable : (Str → Bool) → Str → Bool
unfolding mem_str
is_unusable is_executable shell =
    not (is_nil shell) && (mem_str shell neutered_shells || not (is_executable shell))

unfoldable pub check_environment : (Str → Bool) → Bool → Env → List EnvFailure
unfolding absent_or allowed_or stripped_value is_unusable
check_environment is_executable workflow env =
    check_mode workflow env
    ++ fail_if (is_set (codes "MAKEFILES") env) makefiles_set
    ++ fail_if (is_set (codes "BASH_ENV") env) (sourced (codes "BASH_ENV"))
    ++ fail_if (is_set (codes "ENV") env) (sourced (codes "ENV"))
    ++ fail_if (is_unusable is_executable (stripped_value (codes "SHELL") env))
        (bad_shell (stripped_value (codes "SHELL") env))

-- The names that are present, without the order that `sorted` gives them.
unfoldable pub present_in : Env → List Str → List Str
unfolding assigns
present_in env [] = []
present_in env (n ∷ names) =
    let rest = present_in env names in if assigns n env then n ∷ rest else rest

abbrev pub refuse_present : List Str → List EnvFailure
refuse_present [] = []
refuse_present (n ∷ names) = taken_and_set (n ∷ names) ∷ []

-- `lines` are those of the files of the read set.
unfoldable pub check_environment_overrides : Env → List LogicalLine → Bool → List EnvFailure
unfolding present_in environment_taken
check_environment_overrides env lines workflow =
    if not workflow then [] else refuse_present (present_in env (environment_taken lines))
