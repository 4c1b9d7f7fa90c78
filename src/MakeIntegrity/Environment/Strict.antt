-- ===== src/MakeIntegrity/Environment/Strict.antt =====
-- scripts/make-integrity-guard.py, `check_environment` with `--workflow`: exactly what it accepts.
use vizra_search.Base.{
  mem_str, ◌⊎◌, inl, inr, ◌&&◌, ◌||◌, Bool, true, false, not, ◌≡◌, ◌↔◌, refl, ap, ap₂, List, [],
  ◌∷◌, ◌++◌, All, Str, codes, append-eq-nil_left, append-eq-nil_right,
}
use vizra_search.Makegate.Environ.{Env, assigns}
use vizra_search.MakeIntegrity.Recipe.{fail_if, is_nil}
use vizra_search.MakeIntegrity.Environment.{
  neutered_shells, bad_shell, sourced, makefiles_set, sets_flags, planted, EnvFailure,
  make_internal_vars, flag_vars, absent_or, stripped_value, is_set, is_unusable, check_environment,
}

-- None of the names is in the environment.
abbrev pub Absent : Env → List Str → Type 0
Absent env = All (λ name. assigns name env ≡ false)

-- Programs that a SHELL may not name.
abbrev pub no_shells : List Str
no_shells =
    codes "/usr/bin/true"
    ∷ codes "/bin/true"
    ∷ codes ":"
    ∷ codes "/bin/echo"
    ∷ codes "/usr/bin/echo"
    ∷ codes "/bin/false"
    ∷ codes "/usr/bin/false"
    ∷ []

-- SHELL is blank, or an executable file that is not one of the neutered ones.
abbrev pub IsUsable : (Str → Bool) → Str → Type 0
IsUsable is_executable shell =
    (shell ≡ []) ⊎ ((mem_str shell no_shells ≡ false) × (is_executable shell ≡ true))

-- The variables that make sets for a recipe.
abbrev pub own_variables : List Str
own_variables =
    codes "MAKELEVEL" ∷ codes "MAKE_RESTARTS" ∷ codes "MAKEOVERRIDES" ∷ codes "MAKECMDGOALS" ∷ []

-- The variables that make reads its flags from.
abbrev pub flag_names : List Str
flag_names = codes "MAKEFLAGS" ∷ codes "GNUMAKEFLAGS" ∷ codes "MFLAGS" ∷ []

-- The environment that the strict mode accepts.
pub record IsStrict (is_executable : Str → Bool) (env : Env) : Type 0 where
  pub not_planted : Absent env own_variables
  pub no_flags : Absent env flag_names
  pub no_makefiles : stripped_value (codes "MAKEFILES") env ≡ []
  pub no_bash_env : stripped_value (codes "BASH_ENV") env ≡ []
  pub no_env : stripped_value (codes "ENV") env ≡ []
  pub shell : IsUsable is_executable (stripped_value (codes "SHELL") env)

pub fail_if-nil : {A : Type 0} (b : Bool) (a : A) → fail_if b a ≡ [] → b ≡ false
fail_if-nil true a k = cc
fail_if-nil false a k = refl

absent_or-Absent :
    (failure : Str → EnvFailure) (env : Env) (names : List Str)
    → absent_or failure env names ≡ []
    → Absent env names
unfolding absent_or
absent_or-Absent failure env [] k = tt
absent_or-Absent failure env (name ∷ names) k = (
  fail_if-nil (assigns name env) (failure name) (append-eq-nil_left _ _ k),
  absent_or-Absent failure env names
      (append-eq-nil_right (fail_if (assigns name env) (failure name)) _ k),
)

Absent-absent_or :
    (failure : Str → EnvFailure) (env : Env) (names : List Str)
    → Absent env names
    → absent_or failure env names ≡ []
unfolding absent_or
Absent-absent_or failure env [] h = refl
Absent-absent_or failure env (name ∷ names) (first, rest) =
    ap₂ (λ b l. fail_if b (failure name) ++ l) first (Absent-absent_or failure env names rest)

is_nil-eq-nil : (s : Str) → not (is_nil s) ≡ false → s ≡ []
is_nil-eq-nil [] k = refl
is_nil-eq-nil (c ∷ s) k = cc

six_nil :
    {A : Type 0} (a b c d e f : List A)
    → a ++ b ++ c ++ d ++ e ++ f ≡ []
    → (a ≡ []) × (b ≡ []) × (c ≡ []) × (d ≡ []) × (e ≡ []) × (f ≡ [])
six_nil (x ∷ a) b c d e f k = cc
six_nil [] (x ∷ b) c d e f k = cc
six_nil [] [] (x ∷ c) d e f k = cc
six_nil [] [] [] (x ∷ d) e f k = cc
six_nil [] [] [] [] (x ∷ e) f k = cc
six_nil [] [] [] [] [] f k = (refl, refl, refl, refl, refl, k)

nil_six :
    {A : Type 0} (a b c d e f : List A)
    → (a ≡ []) × (b ≡ []) × (c ≡ []) × (d ≡ []) × (e ≡ []) × (f ≡ [])
    → a ++ b ++ c ++ d ++ e ++ f ≡ []
nil_six a b c d e f (ha, hb, hc, hd, he, hf) = cc

unusable_lem :
    (s : Str) (neutered executable : Bool)
    → ((not (is_nil s) && (neutered || not executable)) ≡ false)
      ↔ ((s ≡ []) ⊎ ((neutered ≡ false) × (executable ≡ true)))
unusable_lem [] neutered executable = (λ k. inl refl, λ h. refl)
unusable_lem (c ∷ s) true executable = (λ k. cc, λ h. elim h [ inl e ↦ cc | inr e ↦ cc ])
unusable_lem (c ∷ s) false true = (λ k. inr (refl, refl), λ h. refl)
unusable_lem (c ∷ s) false false = (λ k. cc, λ h. elim h [ inl e ↦ cc | inr e ↦ cc ])

is_unusable-IsUsable :
    (is_executable : Str → Bool) (shell : Str)
    → (is_unusable is_executable shell ≡ false) ↔ IsUsable is_executable shell
unfolding is_unusable
is_unusable-IsUsable is_executable shell =
    unusable_lem shell (mem_str shell neutered_shells) (is_executable shell)

-- One variable that has to be blank.
blank_or-nil : (s : Str) (failure : EnvFailure) → fail_if (not (is_nil s)) failure ≡ [] → s ≡ []
blank_or-nil s failure k = is_nil-eq-nil s (fail_if-nil _ failure k)

nil-blank_or : (s : Str) (failure : EnvFailure) → s ≡ [] → fail_if (not (is_nil s)) failure ≡ []
nil-blank_or s failure h = ap (λ v. fail_if (not (is_nil v)) failure) h

-- With `--workflow`, check_environment finds nothing exactly when no variable of make and no flag
-- variable is in the environment, MAKEFILES, BASH_ENV and ENV are absent or blank, and SHELL is
-- absent, blank, or an executable file that is not one of the neutered shells.
pub check_environment-IsStrict :
    (is_executable : Str → Bool) (env : Env)
    → (check_environment is_executable true env ≡ []) ↔ IsStrict is_executable env
unfolding check_environment
check_environment-IsStrict is_executable env =
    let inside = absent_or planted env make_internal_vars in
    let flags = absent_or sets_flags env flag_vars in
    let value = λ (name : Str). stripped_value name env in
    let files = fail_if (is_set (codes "MAKEFILES") env) makefiles_set in
    let bash_env = fail_if (is_set (codes "BASH_ENV") env) (sourced (codes "BASH_ENV")) in
    let posix_env = fail_if (is_set (codes "ENV") env) (sourced (codes "ENV")) in
    let unusable = is_unusable is_executable (value (codes "SHELL")) in
    let shell = fail_if unusable (bad_shell (value (codes "SHELL"))) in
    (
      λ k.
          let (no_inside, no_flags, no_files, no_bash, no_posix, usable) =
            six_nil inside flags files bash_env posix_env shell k in
          record {
            not_planted = absent_or-Absent planted env make_internal_vars no_inside;
            no_flags = absent_or-Absent sets_flags env flag_vars no_flags;
            no_makefiles = blank_or-nil (value (codes "MAKEFILES")) makefiles_set no_files;
            no_bash_env =
                blank_or-nil (value (codes "BASH_ENV")) (sourced (codes "BASH_ENV")) no_bash;
            no_env = blank_or-nil (value (codes "ENV")) (sourced (codes "ENV")) no_posix;
            shell =
                (is_unusable-IsUsable is_executable (value (codes "SHELL"))).0
                  (fail_if-nil unusable (bad_shell (value (codes "SHELL"))) usable);
          },
      λ h. nil_six inside flags files bash_env posix_env shell (
        Absent-absent_or planted env make_internal_vars h.not_planted,
        Absent-absent_or sets_flags env flag_vars h.no_flags,
        nil-blank_or (value (codes "MAKEFILES")) makefiles_set h.no_makefiles,
        nil-blank_or (value (codes "BASH_ENV")) (sourced (codes "BASH_ENV")) h.no_bash_env,
        nil-blank_or (value (codes "ENV")) (sourced (codes "ENV")) h.no_env,
        ap (λ b. fail_if b (bad_shell (value (codes "SHELL"))))
            ((is_unusable-IsUsable is_executable (value (codes "SHELL"))).1 h.shell),
      ),
    )
