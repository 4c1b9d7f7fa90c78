-- ===== src/Makegate/Environ/Cleaned.antt =====
-- Which entries of the environment `clean_env` keeps.
use vizra_search.Base.{
  ◌||◌, not, ◌∙◌, ◌∙◌, ◌≡◌, ◌↔◌, refl, ap, sym, Bool, true, false, inl, inr, List, [], ◌∷◌,
  Bool-cases, In, here, there, Str, mem_str,
}
use vizra_search.Makegate.Environ.{
  Env, is_dropped, is_name, is_runner_command_file, keep_entries, command_dirs_of, clean_env,
  always_dropped, runner_command_files,
}

keep_entries-In :
    (drop dirs : List Str) (k v : Str) (env : Env)
    → In (k, v) (keep_entries drop dirs env)
    → In (k, v) env × (is_dropped drop dirs k v ≡ false)
unfolding keep_entries
keep_entries-In drop dirs k v [] m = elim m [ ]
keep_entries-In drop dirs k v ((j, w) ∷ env) m = elim (Bool-cases (is_dropped drop dirs j w)) [
  | inl e ↦ let (found, kept) = keep_entries-In drop dirs k v env (rw e at m) in (there found, kept)
  | inr e ↦
      let n : In (k, v) ((j, w) ∷ keep_entries drop dirs env) = rw e at m in
      elim n [
        | here q ↦ (here q, ap (λ (p : Str × Str). is_dropped drop dirs p.0 p.1) q ∙ e)
        | there o ↦ let (found, kept) = keep_entries-In drop dirs k v env o in (there found, kept)
      ]
]

In-keep_entries :
    (drop dirs : List Str) (k v : Str) (env : Env)
    → In (k, v) env
    → is_dropped drop dirs k v ≡ false
    → In (k, v) (keep_entries drop dirs env)
unfolding keep_entries
In-keep_entries drop dirs k v [] m h = elim m [ ]
In-keep_entries drop dirs k v ((j, w) ∷ env) (here q) h =
    rw (ap (λ (p : Str × Str). is_dropped drop dirs p.0 p.1) (sym q) ∙ h) (here q)
In-keep_entries drop dirs k v ((j, w) ∷ env) (there n) h =
    elim (Bool-cases (is_dropped drop dirs j w)) [
      | inl e ↦ rw e (In-keep_entries drop dirs k v env n h)
      | inr e ↦ rw e (there (In-keep_entries drop dirs k v env n h))
    ]

or-false :
    (a b c d e : Bool)
    → (a || b || c || d || not e) ≡ false
    → (a ≡ false) × (b ≡ false) × (c ≡ false) × (d ≡ false) × (e ≡ true)
or-false false false false false true h = (refl, refl, refl, refl, refl)
or-false true b c d e h = cc
or-false false true c d e h = cc
or-false false false true d e h = cc
or-false false false false true e h = cc
or-false false false false false false h = cc

-- The reasons for which an entry stays.
pub record IsKept (env : Env) (drop : List Str) (k v : Str) : Type 0 where
  pub asked : mem_str k drop ≡ false
  pub harmless : mem_str k always_dropped ≡ false
  pub not_command_variable : mem_str k runner_command_files ≡ false
  pub no_command_file : is_runner_command_file v (command_dirs_of runner_command_files env) ≡ false
  pub spelled : is_name k ≡ true

is_dropped-IsKept :
    (env : Env) (drop : List Str) (k v : Str)
    → (is_dropped drop (command_dirs_of runner_command_files env) k v ≡ false) ↔ IsKept env drop k v
unfolding is_dropped
is_dropped-IsKept env drop k v = (
  λ h.
      let (a, b, c, d, e) =
        or-false (mem_str k drop) (mem_str k always_dropped) (mem_str k runner_command_files)
          (is_runner_command_file v (command_dirs_of runner_command_files env)) (is_name k) h in
      record {
        asked = a;
        harmless = b;
        not_command_variable = c;
        no_command_file = d;
        spelled = e;
      },
  λ r. rw (r.asked, r.harmless, r.not_command_variable, r.no_command_file, r.spelled) refl,
)

-- An entry is in clean_env's result exactly when it was given and no reason to drop it holds.
pub clean_env-In :
    (env : Env) (drop : List Str) (k v : Str)
    → In (k, v) (clean_env env drop) ↔ (In (k, v) env × IsKept env drop k v)
unfolding clean_env
clean_env-In env drop k v =
    let dirs = command_dirs_of runner_command_files env in
    let same = is_dropped-IsKept env drop k v in
    (
      λ m. (let (found, kept) = keep_entries-In drop dirs k v env m in (found, same.0 kept)),
      λ (found, kept). In-keep_entries drop dirs k v env found (same.1 kept),
    )
