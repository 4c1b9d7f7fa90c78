-- ===== src/Makegate/Rules.antt =====
-- scripts/makegate.py: `_rule_parts`, `_outside_expansions`, `_assigned_name`, `computed_name_problems`
-- and `rule_line_problems`, the second diagnosis of lines that are no recipe lines.
use vizra_search.Base.{
  ℕ, suc, ◌-◌, Bool, true, false, not, ◌&&◌, ◌||◌, Option, none, some, List, [], ◌∷◌, ◌++◌, ◌==◌,
  if◌then◌else◌, length, take, ltb, Str, codes, str_eq, mem_str, char_in, is_blank, is_space, strip,
  rstrip, words, join_with,
}
use vizra_search.Makegate.Comment.{opens, closes}
use vizra_search.Makegate.Lines.{continued}

pub data NamedWhy : Type 0 where
  computed_define computed_assignment : NamedWhy
  inline_recipe several_targets computed_target leading_space continued_rule : NamedWhy
  plus_prefix make_in_recipe make_in_line : NamedWhy
  begins_with_expansion : Str → NamedWhy
  assigns_controlled : Str → NamedWhy
  special_target : Str → NamedWhy

-- A problem with the text `raw.strip()[:100]` that it shows.
pub record NamedProblem : Type 0 where
  pub rel : Str
  pub n : ℕ
  pub shown : Str
  pub why : NamedWhy

unfoldable pub named : Str → ℕ → Str → NamedWhy → NamedProblem
unfolding strip is_space
named rel n raw why = record { rel = rel; n = n; shown = take 100 (strip is_space raw); why = why }

abbrev pub Parts : Type 0
Parts = Option (Str × Str)

abbrev pub to_targets : ℕ → Parts → Parts
to_targets c none = none
to_targets c (some (targets, rest)) = some (c ∷ targets, rest)

-- `while line[j] == ":": j += 1`, then the test for `=`
unfoldable pub after_colons : Str → Option Str
after_colons [] = some []
after_colons (c ∷ s) =
    let more = after_colons s in
    if c == b':' then more else if c == b'=' then none else some (c ∷ s)

abbrev pub at_colon : Option Str → Parts
at_colon none = none
at_colon (some rest) = some ([], rest)

-- One character that starts no pair; `after d` is the loop behind it at depth `d`.
unfoldable pub rule_char : ℕ → ℕ → Str → (ℕ → Parts) → Parts
unfolding after_colons
rule_char depth c s after =
    if not (depth == 0)
    then to_targets c (after (if closes c then depth - 1 else depth))
    else if c == b'='
    then none
    else if c == b':'
    then at_colon (after_colons s)
    else to_targets c (after depth)

-- `c == "$"` with a character behind it: both are passed over.
unfoldable pub rule_parts_from : ℕ → Str → Parts
unfolding rule_char
rule_parts_from depth [] = none
rule_parts_from depth (c ∷ []) = rule_char depth c [] (λ d. none)
rule_parts_from depth (c ∷ x ∷ rest) =
    let deeper = to_targets c (to_targets x (rule_parts_from (suc depth) rest)) in
    let skipped = to_targets c (to_targets x (rule_parts_from depth rest)) in
    let single = rule_char depth c (x ∷ rest) (λ d. rule_parts_from d (x ∷ rest)) in
    if c == b'$' then (if opens x then deeper else skipped) else single

unfoldable pub rule_parts : Str → Parts
unfolding rule_parts_from
rule_parts = rule_parts_from 0

unfoldable pub outside_char : ℕ → ℕ → (ℕ → Str) → Str
outside_char depth c after =
    if not (depth == 0) then after (if closes c then depth - 1 else depth) else c ∷ after depth

unfoldable pub outside_from : ℕ → Str → Str
unfolding outside_char
outside_from depth [] = []
outside_from depth (c ∷ []) = outside_char depth c (λ d. [])
outside_from depth (c ∷ x ∷ rest) =
    let deeper = outside_from (suc depth) rest in
    let skipped = outside_from depth rest in
    let single = outside_char depth c (λ d. outside_from d (x ∷ rest)) in
    if c == b'$' then (if opens x then deeper else skipped) else single

unfoldable pub outside_expansions : Str → Str
unfolding outside_from
outside_expansions = outside_from 0

abbrev pub assign_modifiers : List Str
assign_modifiers = codes "export" ∷ codes "override" ∷ codes "private" ∷ codes "unexport" ∷ []

-- `[w for w in words if w not in _ASSIGN_MODIFIERS]`
unfoldable pub without_modifiers : List Str → List Str
unfolding mem_str
without_modifiers [] = []
without_modifiers (w ∷ ws) =
    let rest = without_modifiers ws in if mem_str w assign_modifiers then rest else w ∷ rest

-- At the `=`: the words in front of it, `text[:i]`, without its operator.
unfoldable pub name_before : Str → Str
unfolding rstrip char_in words without_modifiers join_with
name_before text =
    join_with 32 (without_modifiers (words (rstrip (λ c. char_in c (codes ":+?! \t")) text)))

-- `seen` is `text[:i]`.
unfoldable pub name_char_step : ℕ → Str → ℕ → (ℕ → Option Str) → Option Str
unfolding name_before
name_char_step depth seen c after =
    if not (depth == 0)
    then after (if closes c then depth - 1 else depth)
    else if c == b'='
    then some (name_before seen)
    else after depth

unfoldable pub assigned_from : ℕ → Str → Str → Option Str
unfolding name_char_step
assigned_from depth seen [] = none
assigned_from depth seen (c ∷ []) = name_char_step depth seen c (λ d. none)
assigned_from depth seen (c ∷ x ∷ rest) =
    let deeper = assigned_from (suc depth) (seen ++ c ∷ x ∷ []) rest in
    let skipped = assigned_from depth (seen ++ c ∷ x ∷ []) rest in
    let single = name_char_step depth seen c (λ d. assigned_from d (seen ++ c ∷ []) (x ∷ rest)) in
    if c == b'$' then (if opens x then deeper else skipped) else single

unfoldable pub assigned_name : Str → Option Str
unfolding assigned_from
assigned_name = assigned_from 0 []

abbrev pub non_assigning_directives : List Str
non_assigning_directives =
    codes "ifeq"
    ∷ codes "ifneq"
    ∷ codes "ifdef"
    ∷ codes "ifndef"
    ∷ codes "else"
    ∷ codes "endif"
    ∷ codes "include"
    ∷ codes "-include"
    ∷ codes "sinclude"
    ∷ codes "load"
    ∷ codes "-load"
    ∷ codes "endef"
    ∷ codes "vpath"
    ∷ []

abbrev pub second_word : List Str → Str
second_word [] = []
second_word (w ∷ []) = []
second_word (w ∷ v ∷ vs) = v

abbrev pub text_after_target : Str → Parts → Str
text_after_target raw none = raw
text_after_target raw (some (targets, rest)) = rest

abbrev pub computed_target_of : Str → ℕ → Str → Option Str → List NamedProblem
computed_target_of rel n raw none = []
computed_target_of rel n raw (some name) =
    if char_in b'$' name then named rel n raw computed_assignment ∷ [] else []

-- From the test for `define` on; `mods` are the words without modifiers.
unfoldable pub computed_in : Str → ℕ → Str → List Str → List NamedProblem
unfolding str_eq char_in named rule_parts assigned_name
computed_in rel n raw [] =
    computed_target_of rel n raw (assigned_name (text_after_target raw (rule_parts raw)))
computed_in rel n raw (w ∷ ws) =
    if str_eq w (codes "define")
    then (if char_in b'$' (second_word (w ∷ ws)) then named rel n raw computed_define ∷ [] else [])
    else computed_target_of rel n raw (assigned_name (text_after_target raw (rule_parts raw)))

unfoldable pub computed_name_problems : Str → ℕ → Str → List NamedProblem
unfolding words mem_str without_modifiers computed_in
computed_name_problems rel n raw = elim (words raw) [
  | [] ↦ []
  | w ∷ ws ↦
      if mem_str w non_assigning_directives
      then []
      else computed_in rel n raw (without_modifiers (w ∷ ws))
]

abbrev pub directives : List Str
directives =
    codes "ifeq"
    ∷ codes "ifneq"
    ∷ codes "ifdef"
    ∷ codes "ifndef"
    ∷ codes "else"
    ∷ codes "endif"
    ∷ codes "include"
    ∷ codes "-include"
    ∷ codes "sinclude"
    ∷ codes "load"
    ∷ codes "-load"
    ∷ codes "define"
    ∷ codes "endef"
    ∷ codes "undefine"
    ∷ codes "vpath"
    ∷ codes "export"
    ∷ codes "unexport"
    ∷ codes "override"
    ∷ codes "private"
    ∷ []

abbrev pub when : Bool → NamedProblem → List NamedProblem
when true p = p ∷ []
when false p = []

unfoldable pub any_dollar : List Str → Bool
unfolding char_in
any_dollar [] = false
any_dollar (t ∷ ts) = char_in b'$' t || any_dollar ts

abbrev pub first_of : List Str → Str
first_of [] = []
first_of (w ∷ ws) = w

abbrev pub first_is_blank : Str → Bool
first_is_blank [] = false
first_is_blank (c ∷ s) = is_blank c

-- The five tests on the parts of a rule line.
unfoldable pub rule_problems_of : Str → ℕ → Str → Str → Parts → List NamedProblem
unfolding named outside_expansions char_in words any_dollar rstrip is_space continued
rule_problems_of rel n raw physical none = []
rule_problems_of rel n raw physical (some (targets_text, rest)) =
    let targets = words targets_text in
    let bare_rest = outside_expansions rest in
    when (not (char_in b'=' bare_rest) && char_in b';' bare_rest) (named rel n raw inline_recipe)
    ++ (when (ltb 1 (length targets)) (named rel n raw several_targets)
        ++ (when (any_dollar targets) (named rel n raw computed_target)
            ++ (when (first_is_blank raw) (named rel n raw leading_space)
                ++ when (continued (rstrip is_space physical)) (named rel n raw continued_rule))))

unfoldable pub rule_line_problems : Str → ℕ → Str → Str → List NamedProblem
unfolding words mem_str rule_parts rule_problems_of
rule_line_problems rel n raw physical =
    if mem_str (first_of (words raw)) directives
    then []
    else rule_problems_of rel n raw physical (rule_parts raw)
