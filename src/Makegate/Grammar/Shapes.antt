-- ===== src/Makegate/Grammar/Shapes.antt =====
-- The lines that the gate allows, written without the loop and without its patterns.
use vizra_search.Base.{
  In, is_blank, ◌⊎◌, ◌≢◌, mem_str, codes, ℕ, ◌≤◌, ◌≡◌, Bool, true, false, none, some, List, [], ◌∷◌,
  All, Str,
}
use vizra_search.Regex.{Match, match_re, group_of}
use vizra_search.Makegate.Patterns.{g_lead_re}
use vizra_search.Makegate.Lines.{LogicalLine, keeps_rule_open}
use vizra_search.Makegate.Dollars.{Allowed}
use vizra_search.Makegate.Characters.Exact.{IsPlainChar}
use vizra_search.Makegate.Patterns.LineShapes.{IsAssignment, IsRule, IsPhony}

-- The words that make reads as directives.
abbrev pub keywords : List Str
keywords =
    codes "ifdef"
    ∷ codes "ifndef"
    ∷ codes "ifeq"
    ∷ codes "ifneq"
    ∷ codes "else"
    ∷ codes "endif"
    ∷ codes "include"
    ∷ codes "-include"
    ∷ codes "sinclude"
    ∷ codes "define"
    ∷ codes "endef"
    ∷ codes "export"
    ∷ codes "unexport"
    ∷ codes "override"
    ∷ codes "private"
    ∷ codes "undefine"
    ∷ codes "vpath"
    ∷ codes "load"
    ∷ codes "-load"
    ∷ []

-- `Fits open rec after`: the line is one of the shapes where a rule is open or not, and leaves a rule
-- open or not. A TAB line stands only in an open rule.
pub data Fits (is_open : Bool) (rec : LogicalLine) : Bool → Type 0 where
  blank : {after : Bool} → rec.tab ≡ false → rec.raw ≡ [] → after ≡ is_open → Fits is_open rec after
  comment :
      {after : Bool} (s : Str)
      → rec.tab ≡ false
      → rec.raw ≡ b'#' ∷ s
      → after ≡ is_open
      → Fits is_open rec after
  recipe :
      {after : Bool}
      → rec.tab ≡ true
      → is_open ≡ true
      → Allowed false rec.raw
      → after ≡ true
      → Fits is_open rec after
  assignment :
      {after : Bool} (value : Str)
      → rec.tab ≡ false
      → IsAssignment rec.code value
      → Allowed true value
      → after ≡ false
      → Fits is_open rec after
  phony :
      {after : Bool} → rec.tab ≡ false → IsPhony rec.code → after ≡ false → Fits is_open rec after
  rule : {after : Bool} → rec.tab ≡ false → IsRule rec.code → after ≡ true → Fits is_open rec after

-- The line is empty, or has a character that is no blank.
abbrev pub HasText : Str → Type 0
HasText raw = (raw ≡ []) ⊎ ((c : ℕ) × In c raw × (is_blank c ≡ false))

-- `ifdef := 1` and the like: what `_G_LEAD_RE` takes for the first word is no keyword of make where one
-- of the operators follows it.
abbrev pub IsNoKeyword : Str → Type 0
IsNoKeyword code =
    (lead : Match)
    → match_re g_lead_re code ≡ some lead
    → group_of 2 lead.caps ≢ []
    → mem_str (group_of 1 lead.caps) keywords ≡ false

pub record IsAccepted (is_open : Bool) (rec : LogicalLine) (after : Bool) : Type 0 where
  -- one of the shapes
  pub fits : Fits is_open rec after
  -- a line of blanks alone is none
  pub has_text : HasText rec.raw
  -- a line that is no TAB line, no comment and not empty does not use a keyword as a name
  pub no_keyword : rec.tab ≡ false → keeps_rule_open rec ≡ false → IsNoKeyword rec.code
  -- no forbidden character in any of its physical lines
  pub plain : All (All IsPlainChar) rec.segments
  -- no `#` inside an expansion
  pub boundary : rec.tab ≡ false → rec.comment_why ≡ none
  -- no comment that a backslash continues
  pub comment_ends : rec.tab ≡ false → (at : ℕ) → rec.comment_at ≡ some at → rec.tail ≤ at

-- All lines are accepted, each in the state that the lines above it leave.
pub data Accepted : Bool → List LogicalLine → Type 0 where
  end : {is_open : Bool} → Accepted is_open []
  line :
      {is_open after : Bool} {rec : LogicalLine} {lines : List LogicalLine}
      → IsAccepted is_open rec after
      → Accepted after lines
      → Accepted is_open (rec ∷ lines)
