-- ===== src/MakeIntegrity/Recipe/Prefix.antt =====
-- scripts/make-integrity-guard.py, `check_recipe`: the prefix of a recipe line, described on its own.
use vizra_search.Base.{ℕ, Bool, true, false, ◌≡◌, inl, inr, [], ◌∷◌, Bool-cases, Str, is_space}
use vizra_search.MakeIntegrity.Recipe.{is_prefix_char, more_prefix, split_recipe}

-- What follows is no prefix character.
abbrev pub Starts : (ℕ → Bool) → Str → Type 0
Starts p [] = Unit
Starts p (c ∷ s) = p c ≡ false

-- Behind a prefix character: prefix characters with white space around them, then the command, which
-- starts with neither.
pub data Further : Str → Str → Str → Type 0 where
  space :
      {body prefix command : Str} (c : ℕ)
      → is_space c ≡ true
      → Further body prefix command
      → Further (c ∷ body) prefix command
  another :
      {body prefix command : Str} (c : ℕ)
      → is_space c ≡ false
      → is_prefix_char c ≡ true
      → Further body prefix command
      → Further (c ∷ body) (c ∷ prefix) command
  finished :
      {command : Str}
      → Starts is_space command
      → Starts is_prefix_char command
      → Further command [] command

-- The body of a recipe line is its prefix and its command.
pub data Prefixed : Str → Str → Str → Type 0 where
  bare : {command : Str} → Starts is_prefix_char command → Prefixed command [] command
  prefixed :
      {body prefix command : Str} (c : ℕ)
      → is_prefix_char c ≡ true
      → Further body prefix command
      → Prefixed (c ∷ body) (c ∷ prefix) command

more_prefix-Further : (s : Str) → Further s (more_prefix s).0 (more_prefix s).1
unfolding more_prefix
more_prefix-Further [] = finished tt tt
more_prefix-Further (c ∷ s) = elim (Bool-cases (is_space c)) [
  | inl e ↦ rw e (space c e (more_prefix-Further s))
  | inr e ↦ elim (Bool-cases (is_prefix_char c)) [
    | inl p ↦ rw (e, p) (another c e p (more_prefix-Further s))
    | inr p ↦ rw (e, p) (finished e p)
  ]
]

pub split_recipe-Prefixed : (s : Str) → Prefixed s (split_recipe s).0 (split_recipe s).1
unfolding split_recipe
split_recipe-Prefixed [] = bare tt
split_recipe-Prefixed (c ∷ s) = elim (Bool-cases (is_prefix_char c)) [
  | inl p ↦ rw p (prefixed c p (more_prefix-Further s))
  | inr p ↦ rw p (bare p)
]
