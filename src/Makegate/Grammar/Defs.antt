-- ===== src/Makegate/Grammar/Defs.antt =====
-- scripts/makegate.py, `grammar_problems`. A reported line is a record with what its text shows; the
-- counts of `grammar_problems.last_shapes` are read off the shapes that the loop records.
use vizra_search.Base.{
  ℕ, suc, Bool, true, false, not, ◌&&◌, ◌||◌, Option, none, some, List, [], ◌∷◌, ◌++◌, map, ◌==◌,
  if◌then◌else◌, ltb, take, Str, codes, str_eq, mem_str, char_in, is_blank, is_space, strip, lstrip,
  words,
}
use vizra_search.Regex.{match_re, does_match, group_of}
use vizra_search.Makegate.Comment.{CommentWhy}
use vizra_search.Makegate.Lines.{LogicalLine, makefile_lines, keeps_rule_open}
use vizra_search.Makegate.Patterns.{g_assign_re, g_phony_re, g_rule_re, g_lead_re}
use vizra_search.Makegate.Dollars.{DollarProblem, dollar_problems}
use vizra_search.Makegate.Characters.{CharWhy, first_forbidden}

-- The reasons that `refuse` is called with.
pub data GrammarWhy : Type 0 where
  forbidden : CharWhy → GrammarWhy
  only_blanks : GrammarWhy
  tab_outside_rule : GrammarWhy
  recipe_using : DollarProblem → GrammarWhy
  comment_boundary : CommentWhy → GrammarWhy
  comment_continued : GrammarWhy
  keyword_as_variable : Str → GrammarWhy
  keyword_as_target : Str → GrammarWhy
  value_using : DollarProblem → GrammarWhy
  conditional : GrammarWhy
  directive : Str → GrammarWhy
  leading_blank : GrammarWhy
  inline_recipe : GrammarWhy
  expansion_outside : GrammarWhy
  no_shape : GrammarWhy

-- The text that a refusal shows: `line.strip()[:100]`, of the line, of its `repr` without the quotes,
-- or of its `repr`.
pub data Shown : Type 0 where
  excerpt : Str → Shown
  repr_excerpt : Str → Shown
  quoted_repr_excerpt : Str → Shown

pub record GrammarProblem : Type 0 where
  pub rel : Str
  pub n : ℕ
  pub shown : Shown
  pub why : GrammarWhy

pub data Shape : Type 0 where
  blank_comment assignment phony rule recipe : Shape

-- What one round of the loop leaves: `in_rule`, what it appended, and the count that it raised.
pub record Round : Type 0 where
  pub in_rule : Bool
  pub found : List GrammarProblem
  pub shape : Option Shape

abbrev pub directive_keywords : List Str
directive_keywords =
    codes "ifdef"
    ∷ codes "ifndef"
    ∷ codes "ifeq"
    ∷ codes "ifneq"
    ∷ codes "else"
    ∷ codes "endif"
    ∷ codes "include"
    ∷ codes "-include"
    ∷ codes "sinclude"
    ∷ codes "define"
    ∷ codes "endef"
    ∷ codes "export"
    ∷ codes "unexport"
    ∷ codes "override"
    ∷ codes "private"
    ∷ codes "undefine"
    ∷ codes "vpath"
    ∷ codes "load"
    ∷ codes "-load"
    ∷ []

unfoldable pub refuse : Str → LogicalLine → GrammarWhy → GrammarProblem
unfolding strip is_space
refuse rel rec why = record {
  rel = rel;
  n = rec.n;
  shown = excerpt (take 100 (strip is_space rec.raw));
  why = why;
}

-- The comprehension `bad`, with what `refuse` says of each entry.
unfoldable pub bad_segments : Str → ℕ → List Str → List GrammarProblem
unfolding first_forbidden
bad_segments rel n [] = []
bad_segments rel n (seg ∷ segs) =
    let rest = bad_segments rel (suc n) segs in
    elim (first_forbidden seg) [
      | none ↦ rest
      | some why ↦
          (record { rel = rel; n = n; shown = repr_excerpt seg; why = forbidden why }) ∷ rest
    ]

unfoldable pub all_blank : Str → Bool
all_blank [] = true
all_blank (c ∷ s) = is_blank c && all_blank s

-- `line and not line.strip(" \t")`
abbrev pub is_blank_line : Str → Bool
is_blank_line [] = false
is_blank_line (c ∷ s) = all_blank (c ∷ s)

abbrev pub is_empty : Str → Bool
is_empty [] = true
is_empty (c ∷ s) = false

-- `0 <= rec.comment_at < rec.tail`
abbrev pub comment_before_tail : Option ℕ → ℕ → Bool
comment_before_tail none tail = false
comment_before_tail (some at) tail = ltb at tail

-- `lead and lead.group(1) in DIRECTIVE_KEYWORDS and lead.group(2)`, with the reason that it gives
unfoldable pub keyword_why : Str → Option GrammarWhy
unfolding match_re mem_str lstrip str_eq group_of
keyword_why body = elim (match_re g_lead_re body) [
  | none ↦ none
  | some lead ↦
      let word = group_of 1 lead.caps in
      let op = group_of 2 lead.caps in
      let bare = lstrip (λ c. c == b'&') op in
      if mem_str word directive_keywords && not (is_empty op)
      then (if str_eq bare (codes ":") || str_eq bare (codes "::")
          then some (keyword_as_target word)
          else some (keyword_as_variable word))
      else none
]

abbrev pub conditional_words : List Str
conditional_words =
    codes "ifeq"
    ∷ codes "ifneq"
    ∷ codes "ifdef"
    ∷ codes "ifndef"
    ∷ codes "else"
    ∷ codes "endif"
    ∷ []

abbrev pub directive_words : List Str
directive_words =
    codes "include"
    ∷ codes "-include"
    ∷ codes "sinclude"
    ∷ codes "load"
    ∷ codes "-load"
    ∷ codes "define"
    ∷ codes "endef"
    ∷ codes "undefine"
    ∷ codes "export"
    ∷ codes "unexport"
    ∷ codes "override"
    ∷ codes "private"
    ∷ codes "vpath"
    ∷ []

abbrev pub first_word : List Str → Str
first_word [] = []
first_word (w ∷ ws) = w

abbrev pub blank_first : Str → Bool
blank_first [] = false
blank_first (c ∷ s) = is_blank c

-- The last `if`/`elif` ladder: why a line of no shape is refused.
unfoldable pub no_shape_why : Str → GrammarWhy
unfolding words mem_str char_in
no_shape_why body =
    let first = first_word (words body) in
    if mem_str first conditional_words
    then conditional
    else if mem_str first directive_words
    then directive first
    else if blank_first body
    then leading_blank
    else if char_in b';' body
    then inline_recipe
    else if char_in b'$' body
    then expansion_outside
    else no_shape

abbrev pub quiet : Bool → Option Shape → Round
quiet in_rule shape = record { in_rule = in_rule; found = []; shape = shape }

-- `body`, a line that is no recipe, comment or empty line: the regular expressions in turn.
unfoldable pub body_round : Str → LogicalLine → Round
unfolding keyword_why match_re does_match group_of dollar_problems no_shape_why refuse
body_round rel rec = elim (keyword_why rec.code) [
  | some why ↦ record { in_rule = false; found = refuse rel rec why ∷ []; shape = none }
  | none ↦ elim (match_re g_assign_re rec.code) [
    | some m ↦ record {
      in_rule = false;
      found = map (λ d. refuse rel rec (value_using d)) (dollar_problems (group_of 3 m.caps) true);
      shape = some assignment;
    }
    | none ↦
        if does_match g_phony_re rec.code
        then quiet false (some phony)
        else if does_match g_rule_re rec.code
        then quiet true (some rule)
        else record {
          in_rule = false;
          found = refuse rel rec (no_shape_why rec.code) ∷ [];
          shape = none;
        }
  ]
]

-- A TAB line.
unfoldable pub recipe_round : Str → Bool → LogicalLine → Round
unfolding dollar_problems refuse
recipe_round rel in_rule rec =
    if not in_rule
    then record { in_rule = in_rule; found = refuse rel rec tab_outside_rule ∷ []; shape = none }
    else record {
      in_rule = in_rule;
      found = map (λ d. refuse rel rec (recipe_using d)) (dollar_problems rec.raw false);
      shape = some recipe;
    }

abbrev pub refused : Str → LogicalLine → GrammarWhy → Round
refused rel rec why = record { in_rule = false; found = refuse rel rec why ∷ []; shape = none }

-- A line that is no TAB line.
unfoldable pub plain_round : Str → Bool → LogicalLine → Option CommentWhy → Round
unfolding body_round keeps_rule_open
plain_round rel in_rule rec (some why) = refused rel rec (comment_boundary why)
plain_round rel in_rule rec none =
    if comment_before_tail rec.comment_at rec.tail
    then refused rel rec comment_continued
    else if keeps_rule_open rec
    then quiet in_rule (some blank_comment)
    else body_round rel rec

-- One round of the loop over `makefile_lines(text)`.
unfoldable pub grammar_round : Str → Bool → LogicalLine → Round
unfolding bad_segments all_blank recipe_round plain_round
grammar_round rel in_rule rec = elim (bad_segments rel rec.n rec.segments) [
  | bad ∷ more ↦ record { in_rule = false; found = bad ∷ more; shape = none }
  | [] ↦
      if is_blank_line rec.raw
      then record {
        in_rule = false;
        found =
            (record {
              rel = rel;
              n = rec.n;
              shown = quoted_repr_excerpt rec.raw;
              why = only_blanks;
            })
            ∷ [];
        shape = none;
      }
      else if rec.tab
      then recipe_round rel in_rule rec
      else plain_round rel in_rule rec rec.comment_why
]

unfoldable pub grammar_loop : Str → Bool → List LogicalLine → List GrammarProblem
unfolding grammar_round
grammar_loop rel in_rule [] = []
grammar_loop rel in_rule (rec ∷ lines) =
    let round = grammar_round rel in_rule rec in round.found ++ grammar_loop rel round.in_rule lines

unfoldable pub grammar_problems : Str → Str → List GrammarProblem
unfolding grammar_loop makefile_lines
grammar_problems rel text = grammar_loop rel false (makefile_lines text)
