-- ===== src/Makegate/Tests.antt =====
-- The readings of scripts/makegate.py at small texts.
use vizra_search.Base.{
  ◌≡◌, ◌↔◌, refl, true, false, none, some, List, [], ◌∷◌, ◌++◌, Str, codes, All, join_with, ℕ,
  Lacks, arith,
}
use vizra_search.Makegate.Comment.{strip_comment}
use vizra_search.Makegate.Comment.Split.{IsCut, strip_comment-Cuts}
use vizra_search.Makegate.Lines.{makefile_lines}
use vizra_search.Makegate.Lines.Sources.{segments_of, join-makefile_lines}
use vizra_search.Makegate.Lines.Breaks.{Reads, makefile_lines-Reads}
use vizra_search.Makegate.Lines.Code.{HasCode, makefile_lines-HasCode}
use vizra_search.Makegate.Dollars.{
  dollar_problems, Allowed, dollar_problems-Allowed, Allowed-dollar_problems,
}
use vizra_search.Makegate.Characters.{first_forbidden}
use vizra_search.Makegate.Characters.Exact.{IsPlainChar, first_forbidden-none}
use vizra_search.Makegate.Grammar.{grammar_problems}
use vizra_search.Makegate.Grammar.Shapes.{Accepted}
use vizra_search.Makegate.Grammar.Sound.{grammar_problems-Accepted}
use vizra_search.Makegate.Grammar.Recipes.{recipes, tab_lines, recipes-eq-tab_lines}
use vizra_search.Makegate.Pin.{bytes, pins, load_pin, has_key}
use vizra_search.Makegate.Pin.Valid.{IsPinSet, load_pin-IsPinSet}
use vizra_search.Makegate.ReadSet.{ReadSet, static_read_set}
use vizra_search.Makegate.ReadSet.Total.{static_read_set_total}
use vizra_search.Makegate.Environ.{Env}

abbrev sample : Str
sample = codes "V ?= x\na: b # c\n\techo $(V) \\\n\t  y\n"

abbrev value_text : Str
value_text = codes "$(shell date -d $(D)) $$"

sample-passes : grammar_problems (codes "Makefile") sample ≡ []
unfolding grammar_problems
sample-passes = refl

value-passes : dollar_problems value_text true ≡ []
unfolding dollar_problems
value-passes = refl

value-Lacks : Lacks b'\n' value_text
value-Lacks = ground arith

abbrev digest : Str
digest = codes "0123456789abcdef0123456789abcdef0123456789abcdef0123456789abcdef"

abbrev pin_file : List ℕ
pin_file = codes "# pins\nmakefiles:\n  Makefile: " ++ (digest ++ codes "\n")

pin_file-loads : load_pin (bytes pin_file) ≡ pins ((codes "Makefile", digest) ∷ [])
unfolding load_pin
pin_file-loads = refl

join-makefile_lines_example : join_with b'\n' (segments_of (makefile_lines sample)) ≡ sample
join-makefile_lines_example = join-makefile_lines sample

makefile_lines-Reads_example : Reads 1 (makefile_lines sample)
makefile_lines-Reads_example = makefile_lines-Reads sample

makefile_lines-HasCode_example : All HasCode (makefile_lines sample)
makefile_lines-HasCode_example = makefile_lines-HasCode sample

strip_comment-Cuts_example : IsCut 0 (codes "a: b # c") (strip_comment (codes "a: b # c"))
strip_comment-Cuts_example = strip_comment-Cuts (codes "a: b # c")

first_forbidden-none_example :
    (first_forbidden (codes "\ta") ≡ none) ↔ All IsPlainChar (codes "\ta")
first_forbidden-none_example = first_forbidden-none (codes "\ta")

dollar_problems-Allowed_example : Allowed true value_text
dollar_problems-Allowed_example = dollar_problems-Allowed value_text true value-Lacks value-passes

Allowed-dollar_problems_example : dollar_problems value_text true ≡ []
Allowed-dollar_problems_example =
    Allowed-dollar_problems value_text true
      (dollar_problems-Allowed value_text true value-Lacks value-passes)

grammar_problems-Accepted_example : Accepted false (makefile_lines sample)
grammar_problems-Accepted_example =
    grammar_problems-Accepted (codes "Makefile") sample sample-passes

recipes-eq-tab_lines_example :
    recipes (grammar_problems-Accepted (codes "Makefile") sample sample-passes)
    ≡ tab_lines (makefile_lines sample)
recipes-eq-tab_lines_example = recipes-eq-tab_lines (codes "Makefile") sample sample-passes

load_pin-IsPinSet_example :
    IsPinSet ((codes "Makefile", digest) ∷ [])
    × (has_key (codes "Makefile") ((codes "Makefile", digest) ∷ []) ≡ true)
load_pin-IsPinSet_example = load_pin-IsPinSet (bytes pin_file) pin_file-loads

abbrev circle : List (Str × Str)
circle = (codes "Makefile", codes "include a") ∷ (codes "a", codes "include Makefile") ∷ []

static_read_set_total_example :
    (r : ReadSet) × (static_read_set (some (codes "Makefile" ∷ [])) circle ≡ some r)
static_read_set_total_example = static_read_set_total (some (codes "Makefile" ∷ [])) circle

abbrev small_env : Env
small_env = (codes "HOME", codes "/root") ∷ (codes "MAKEFLAGS", codes "-n") ∷ []
