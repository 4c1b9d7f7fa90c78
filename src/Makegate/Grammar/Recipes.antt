-- ===== src/Makegate/Grammar/Recipes.antt =====
-- The recipe that `recipe_lines` reads for each rule is the recipe that the grammar gave that rule.
use vizra_search.Base.{
  ℕ, ◌≡◌, refl, sym, Bool, true, false, ◌||◌, List, [], ◌∷◌, ◌++◌, arith, ◌==◌, All, Str, drop,
  strip, is_space, if◌then◌else◌,
}
use vizra_search.Makegate.Lines.{
  hash_first, is_nil, LogicalLine, recipe_lines, keeps_rule_open, makefile_lines,
}
use vizra_search.Makegate.Lines.Code.{HasCode, makefile_lines-HasCode}
use vizra_search.Makegate.Patterns.LineShapes.{
  IsMakeWord, IsVariableName, plain_name, shellflags, default_goal,
}
use vizra_search.Makegate.Grammar.Defs.{grammar_problems}
use vizra_search.Makegate.Grammar.Shapes.{
  Fits, blank, comment, recipe, assignment, phony, rule, Accepted, end, line,
}
use vizra_search.Makegate.Grammar.Sound.{grammar_problems-Accepted}

-- The TAB lines of a makefile: number, and text behind the TAB without white space at its ends.
abbrev pub tab_lines : List LogicalLine → List (ℕ × Str)
tab_lines [] = []
tab_lines (rec ∷ lines) =
    if rec.tab then (rec.n, strip is_space (drop 1 rec.raw)) ∷ tab_lines lines else tab_lines lines

-- What `recipe_lines` reads behind a line, if the line is a rule.
abbrev pub recipe_after :
    {b after : Bool} {rec : LogicalLine} → Fits b rec after → List LogicalLine → List (ℕ × Str)
recipe_after (rule _ _ _) lines = recipe_lines lines
recipe_after _ lines = []

-- What `recipe_lines` reads behind each rule, in the order of the rules.
abbrev pub recipes : {b : Bool} {lines : List LogicalLine} → Accepted b lines → List (ℕ × Str)
recipes end = []
recipes (line {lines = lines} a rest) = recipe_after a.fits lines ++ recipes rest

-- The first character of a line that opens no recipe line.
abbrev StartsPlain : Str → Type 0
StartsPlain [] = ⊥
StartsPlain (c ∷ s) = (c == b'#') ≡ false

name-StartsPlain : (name rest : Str) → IsVariableName name → StartsPlain (name ++ rest)
name-StartsPlain [] rest (plain_name i) = absurd i
name-StartsPlain (c ∷ s) rest (plain_name i) = ground (arith, i.0)
name-StartsPlain [] rest (shellflags e) = cc
name-StartsPlain (c ∷ s) rest (shellflags e) = ground arith
name-StartsPlain [] rest (default_goal e) = cc
name-StartsPlain (c ∷ s) rest (default_goal e) = ground arith

word-StartsPlain : (word rest : Str) → IsMakeWord word → StartsPlain (word ++ rest)
word-StartsPlain [] rest i = absurd i
word-StartsPlain (c ∷ s) rest i = ground (arith, i.0)

no_comment_line :
    (code raw t : Str) → raw ≡ code ++ t → StartsPlain code → (is_nil raw || hash_first raw) ≡ false
no_comment_line [] raw t e h = absurd h
no_comment_line (c ∷ s) raw t e h = rw e h

closes_rule : (rec : LogicalLine) → HasCode rec → StartsPlain rec.code → keeps_rule_open rec ≡ false
unfolding keeps_rule_open
closes_rule rec h s = ground (arith, no_comment_line rec.code rec.raw h.comment h.splits s)

-- The recipe that is open where the line stands.
abbrev open_recipe : Bool → List LogicalLine → List (ℕ × Str)
open_recipe b lines = if b then recipe_lines lines else []

Goal : Bool → LogicalLine → List LogicalLine → List (ℕ × Str) → Type 0
Goal b rec lines rs = tab_lines (rec ∷ lines) ≡ open_recipe b (rec ∷ lines) ++ rs

-- A line that closes the open rule, and opens another or none.
closing_step :
    (b after : Bool) (rec : LogicalLine) (lines : List LogicalLine) (rs : List (ℕ × Str))
    → rec.tab ≡ false
    → keeps_rule_open rec ≡ false
    → tab_lines lines ≡ rs
    → Goal b rec lines rs
unfolding recipe_lines Goal
closing_step true after rec lines rs t k h = ground arith
closing_step false after rec lines rs t k h = ground arith

keeping_step :
    (b : Bool) (rec : LogicalLine) (lines : List LogicalLine) (rs : List (ℕ × Str))
    → rec.tab ≡ false
    → keeps_rule_open rec ≡ true
    → tab_lines lines ≡ open_recipe b lines ++ rs
    → Goal b rec lines rs
unfolding recipe_lines Goal
keeping_step true rec lines rs t k h = ground arith
keeping_step false rec lines rs t k h = ground arith

tab_step :
    (rec : LogicalLine) (lines : List LogicalLine) (rs : List (ℕ × Str))
    → rec.tab ≡ true
    → tab_lines lines ≡ recipe_lines lines ++ rs
    → Goal true rec lines rs
unfolding recipe_lines Goal
tab_step rec lines rs t h = ground arith

keeps_blank : (rec : LogicalLine) → rec.tab ≡ false → rec.raw ≡ [] → keeps_rule_open rec ≡ true
unfolding keeps_rule_open
keeps_blank rec t e = rw (t, e)

keeps_comment :
    (rec : LogicalLine) (s : Str)
    → rec.tab ≡ false
    → rec.raw ≡ b'#' ∷ s
    → keeps_rule_open rec ≡ true
unfolding keeps_rule_open
keeps_comment rec s t e = rw (t, e)

step :
    {b after : Bool} {rec : LogicalLine} (f : Fits b rec after) (lines : List LogicalLine)
    (rs : List (ℕ × Str))
    → HasCode rec
    → tab_lines lines ≡ open_recipe after lines ++ rs
    → Goal b rec lines (recipe_after f lines ++ rs)
step {b} {rec = rec} (blank t e k) lines rs c h =
    keeping_step b rec lines rs t (keeps_blank rec t e) (rw k at h)
step {b} {rec = rec} (comment s t e k) lines rs c h =
    keeping_step b rec lines rs t (keeps_comment rec s t e) (rw k at h)
step {rec = rec} (recipe t o a k) lines rs c h = rw o (tab_step rec lines rs t (rw k at h))
step {b} {after} {rec} (assignment value t a ok k) lines rs c h =
    closing_step b after rec lines rs t
      (closes_rule rec c (rw a.code_is (name-StartsPlain a.name _ a.is_name))) (rw k at h)
step {b} {after} {rec} (phony t p k) lines rs c h =
    closing_step b after rec lines rs t (closes_rule rec c (rw p.code_is refl)) (rw k at h)
step {b} {after} {rec} (rule t r k) lines rs c h =
    closing_step b after rec lines (recipe_lines lines ++ rs) t
      (closes_rule rec c (rw r.code_is (word-StartsPlain r.target _ r.is_target))) (rw k at h)

recipes_lem :
    {b : Bool} {lines : List LogicalLine} (a : Accepted b lines)
    → All HasCode lines
    → tab_lines lines ≡ open_recipe b lines ++ recipes a
unfolding Goal
recipes_lem {b = true} end c = unfold recipe_lines in refl
recipes_lem {b = false} end c = refl
recipes_lem (line {lines = lines} a rest) c =
    step a.fits lines (recipes rest) c.0 (recipes_lem rest c.1)

-- In an accepted makefile, recipe_lines behind each rule gives, rule after rule, every TAB line once
-- and in order.
pub recipes-eq-tab_lines :
    (rel text : Str) (ok : grammar_problems rel text ≡ [])
    → recipes (grammar_problems-Accepted rel text ok) ≡ tab_lines (makefile_lines text)
recipes-eq-tab_lines rel text ok =
    sym (recipes_lem (grammar_problems-Accepted rel text ok) (makefile_lines-HasCode text))
