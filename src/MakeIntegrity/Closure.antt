-- ===== src/MakeIntegrity/Closure.antt =====
-- scripts/make-integrity-guard.py, `prerequisite_closure`. The lines are those of all the files that
-- can be read, one after the other.
use vizra_search.Base.{
  ℕ, zero, suc, ◌+◌, Bool, true, false, ◌||◌, Option, none, some, List, [], ◌∷◌, ◌++◌, ◌==◌,
  if◌then◌else◌, length, Str, codes, str_eq, mem_str, char_in, starts_with, is_space, strip, rstrip,
  split_on, words,
}
use vizra_search.Makegate.Lines.{LogicalLine}
use vizra_search.Makegate.Rules.{rule_parts, outside_expansions}

-- `prereqs`, a dict in insertion order
abbrev pub Table : Type 0
Table = List (Str × List Str)

-- `prereqs.setdefault(n, [])`, then `prereqs[n].extend(deps)`
unfoldable pub extend_entry : Str → List Str → Table → Table
unfolding str_eq
extend_entry n deps [] = (n, deps) ∷ []
extend_entry n deps ((k, old) ∷ m) =
    if str_eq n k then (k, old ++ deps) ∷ m else (k, old) ∷ extend_entry n deps m

unfoldable pub literal_deps : List Str → List Str
unfolding starts_with
literal_deps [] = []
literal_deps (d ∷ deps) =
    let rest = literal_deps deps in if starts_with (codes "$") d then rest else d ∷ rest

unfoldable pub add_names : List Str → List Str → Table → Table
unfolding extend_entry starts_with char_in
add_names [] deps m = m
add_names (n ∷ names) deps m =
    add_names names deps
      (if starts_with (codes ".") n || char_in b'%' n then m else extend_entry n deps m)

-- `.replace("|", " ")`
unfoldable pub bars_to_blanks : Str → Str
bars_to_blanks [] = []
bars_to_blanks (c ∷ s) = (if c == b'|' then 32 else c) ∷ bars_to_blanks s

abbrev pub first_of : List Str → Str
first_of [] = []
first_of (w ∷ ws) = w

abbrev pub add_rule : Option (Str × Str) → Table → Table
add_rule none m = m
add_rule (some (targets, rest)) m =
    if char_in b'=' (outside_expansions rest)
    then m
    else add_names (words targets)
        (literal_deps (words (bars_to_blanks (first_of (split_on b';' rest))))) m

abbrev pub is_empty : Str → Bool
is_empty [] = true
is_empty (c ∷ s) = false

unfoldable pub add_line : LogicalLine → Table → Table
unfolding strip rstrip is_space rule_parts outside_expansions char_in words split_on bars_to_blanks
    literal_deps add_names
add_line rec m =
    if rec.tab || is_empty (strip is_space rec.code)
    then m
    else add_rule (rule_parts (rstrip is_space rec.code)) m

unfoldable pub read_rules : List LogicalLine → Table → Table
unfolding add_line
read_rules [] m = m
read_rules (rec ∷ lines) m = read_rules lines (add_line rec m)

-- `prereqs.get(t, [])`
unfoldable pub deps_of : Str → Table → List Str
unfolding str_eq
deps_of t [] = []
deps_of t ((k, deps) ∷ m) = if str_eq t k then deps else deps_of t m

-- The prerequisites that are not in `out` yet.
unfoldable pub fresh : List Str → List Str → List Str
unfolding mem_str
fresh out [] = []
fresh out (d ∷ deps) = let rest = fresh out deps in if mem_str d out then rest else d ∷ rest

-- The `while queue` loop. `none`: out of fuel.
unfoldable pub closure_loop : ℕ → Table → List Str → List Str → Option (List Str)
unfolding mem_str fresh deps_of
closure_loop fuel table out [] = some out
closure_loop zero table out (t ∷ queue) = none
closure_loop (suc fuel) table out (t ∷ queue) =
    let skipped = closure_loop fuel table out queue in
    let taken =
      closure_loop fuel table (out ++ t ∷ []) (queue ++ fresh (out ++ t ∷ []) (deps_of t table)) in
    if mem_str t out then skipped else taken

-- A round for each seed, and one for each prerequisite of a rule.
unfoldable pub enough : Table → ℕ
enough [] = 0
enough ((t, deps) ∷ table) = length deps + enough table

unfoldable pub prerequisite_closure : List LogicalLine → List Str → Option (List Str)
unfolding read_rules closure_loop enough
prerequisite_closure lines seeds =
    closure_loop (length seeds + enough (read_rules lines [])) (read_rules lines []) [] seeds
