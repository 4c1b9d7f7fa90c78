-- ===== src/Makegate/Dollars/Defs.antt =====
-- scripts/makegate.py, `_dollar_problems`: the uses of `$` that a value or a recipe may not have. Each
-- text that the source appends is a constructor with the values that it shows.
use vizra_search.Base.{
  ℕ, zero, suc, ◌+◌, ◌-◌, Bool, true, false, not, ◌&&◌, Option, none, some, List, [], ◌∷◌, ◌++◌,
  ◌==◌, if◌then◌else◌, length, take, drop, Str, codes, str_eq,
}
use vizra_search.Regex.{does_match}
use vizra_search.Makegate.Patterns.{g_ident_re, shell_call_re, is_bracket, closing}

pub data DollarProblem : Type 0 where
  -- (only `$$`, `$(NAME)` and `${NAME}` are allowed)
  bare : Str → DollarProblem
  -- (an unterminated expansion)
  unterminated : Str → DollarProblem
  -- `$(MAKE)`
  names_make : DollarProblem
  -- (a function, a substitution reference or a computed name)
  computed : Str → DollarProblem

-- The inner loop: the text up to the closing bracket that brings `depth` to 0, and what follows it.
-- `none` is the end of the text.
abbrev pub before : ℕ → Option (Str × Str) → Option (Str × Str)
before c none = none
before c (some (inner, rest)) = some (c ∷ inner, rest)

unfoldable pub find_close : ℕ → ℕ → ℕ → Str → Option (Str × Str)
find_close opener close depth [] = none
find_close opener close depth (c ∷ s) =
    let deeper = before c (find_close opener close (depth + 1) s) in
    let shallower = before c (find_close opener close (depth - 1) s) in
    let onward = before c (find_close opener close depth s) in
    if c == opener
    then deeper
    else if c == close
    then (if depth == 1 then some ([], s) else shallower)
    else onward

-- The body of the `if`/`elif`/`else` on one expansion; `shell` checks the text of a `$(shell …)`.
unfoldable pub expansion_problems :
    (Str → List DollarProblem) → Bool → ℕ → Str → Str → List DollarProblem
unfolding does_match str_eq
expansion_problems shell allow_shell nxt inner whole =
    if does_match g_ident_re inner
    then (if str_eq inner (codes "MAKE") then names_make ∷ [] else [])
    else if allow_shell && nxt == b'(' && does_match shell_call_re inner
    then shell (drop 6 inner)
    else computed (take 60 whole) ∷ []

-- One expansion: `again` is the outer loop behind it, which an unterminated one ends.
unfoldable pub after_close :
    (Str → List DollarProblem)
    → Bool
    → ℕ
    → Str
    → (Str → List DollarProblem)
    → Option (Str × Str)
    → List DollarProblem
unfolding expansion_problems
after_close shell allow nxt s again none = unterminated (take 30 (b'$' ∷ nxt ∷ s)) ∷ []
after_close shell allow nxt s again (some (inner, rest)) =
    expansion_problems shell allow nxt inner (b'$' ∷ nxt ∷ (inner ++ closing nxt ∷ []))
    ++ again rest

-- The outer loop, on fuel: each round drops a character at least. `text` is what is left from `i` on.
unfoldable pub dollar_loop : (Str → List DollarProblem) → Bool → ℕ → Str → List DollarProblem
unfolding after_close find_close
dollar_loop shell allow zero text = []
dollar_loop shell allow (suc fuel) [] = []
dollar_loop shell allow (suc fuel) (c ∷ []) = if c == b'$' then unterminated (c ∷ []) ∷ [] else []
dollar_loop shell allow (suc fuel) (c ∷ nxt ∷ s) =
    let single = dollar_loop shell allow fuel (nxt ∷ s) in
    let pair = dollar_loop shell allow fuel s in
    if not (c == b'$')
    then single
    else if nxt == b'$'
    then pair
    else if not (is_bracket nxt)
    then bare (c ∷ nxt ∷ []) ∷ pair
    else after_close shell allow nxt s (dollar_loop shell allow fuel)
        (find_close nxt (closing nxt) 1 s)

-- `allow_shell=False`, as the call on the text of a `$(shell …)` has it.
unfoldable pub plain_problems : Str → List DollarProblem
unfolding dollar_loop
plain_problems text = dollar_loop (λ s. []) false (length text) text

-- `_dollar_problems(text, allow_shell)`
unfoldable pub dollar_problems : Str → Bool → List DollarProblem
unfolding plain_problems
dollar_problems text true = dollar_loop plain_problems true (length text) text
dollar_problems text false = plain_problems text
