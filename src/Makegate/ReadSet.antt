-- ===== src/Makegate/ReadSet.antt =====
-- scripts/makegate.py, `static_read_set`: the files that make will read, from the reviewed bytes. The
-- directory listing and the texts of the pinned files are arguments; the queue takes fuel.
pub mod Total
pub mod Closed
use vizra_search.Base.{
  lower, ℕ, zero, suc, ◌+◌, Bool, false, not, ◌&&◌, ◌||◌, Option, none, some, List, [], ◌∷◌, ◌++◌,
  map, ◌==◌, if◌then◌else◌, take, length, Str, codes, str_eq, mem_str, char_in, starts_with,
  is_space, strip, words, split_on, normpath, is_absolute,
}
use vizra_search.Regex.{
  Regex, char, seq, alt, star, group, dollar, lit, opt, plus, match_re, does_search, group_of,
}
use vizra_search.Makegate.Lines.{LogicalLine, makefile_lines}
use vizra_search.Makegate.Patterns.{blanks, blanks1, any_but_feed}
use vizra_search.Makegate.Grammar.{GrammarProblem, grammar_problems}
use vizra_search.Makegate.Rules.{NamedProblem}
use vizra_search.Makegate.Reviewed.{reviewed_bytes_problems}

pub data ReadProblem : Type 0 where
  cannot_list : ReadProblem
  shadows : Str → ReadProblem
  of_grammar : GrammarProblem → ReadProblem
  by_name : NamedProblem → ReadProblem
  -- file, line, excerpt
  manufactures : Str → ℕ → Str → ReadProblem
  -- file, line, directive, word
  computed_file : Str → ℕ → Str → Str → ReadProblem
  outside : Str → ℕ → Str → Str → ReadProblem

-- `_READ_DIRECTIVE_RE`
abbrev pub read_directive_re : Regex
read_directive_re = seq blanks (
    seq
      (group 1 (
        alt (lit "-include")
          (alt (lit "sinclude") (alt (lit "include") (alt (lit "-load") (lit "load"))))))
      (seq (opt (seq blanks1 (group 2 (star (char any_but_feed))))) dollar))

abbrev pub open_bracket : Regex
open_bracket = char (λ c. c == b'(' || c == b'{')

-- `_MANUFACTURES_DIRECTIVES_RE`
abbrev pub manufactures_re : Regex
manufactures_re =
    alt
      (seq (lit "$") (
        seq open_bracket (
          seq (alt (lit "eval") (lit "guile")) (char (λ c. is_space c || c == b')' || c == b'}')))))
      (seq (lit "$") (
        seq open_bracket (
          seq (lit "call")
            (seq (plus (char is_space)) (alt (lit "eval") (alt (lit "guile") (lit "$")))))))

-- The loop over the directory's entries.
unfoldable pub shadow_problems : List Str → List ReadProblem
unfolding lower str_eq
shadow_problems [] = []
shadow_problems (entry ∷ entries) =
    let rest = shadow_problems entries in
    let small = lower entry in
    if (str_eq small (codes "gnumakefile") || str_eq small (codes "makefile"))
      && not (str_eq entry (codes "Makefile"))
    then shadows entry ∷ rest
    else rest

unfoldable pub manufactured : Str → List LogicalLine → List ReadProblem
unfolding does_search strip is_space
manufactured rel [] = []
manufactured rel (rec ∷ lines) =
    let rest = manufactured rel lines in
    if does_search manufactures_re rec.raw
    then manufactures rel rec.n (take 120 (strip is_space rec.raw)) ∷ rest
    else rest

unfoldable pub is_computed : Str → Bool
unfolding char_in
is_computed [] = false
is_computed (c ∷ s) = char_in c (codes "$*?[%~`\\") || is_computed s

-- `directive.endswith("load")`
abbrev pub is_load : Str → Bool
is_load directive = str_eq directive (codes "load") || str_eq directive (codes "-load")

abbrev pub first_part : List Str → Str
first_part [] = []
first_part (w ∷ ws) = w

unfoldable pub file_word : Str → Str → Str
unfolding str_eq split_on
file_word directive word = if is_load directive then first_part (split_on b'(' word) else word

-- What one line leaves: problems, and the files that are queued.
pub record Found : Type 0 where
  pub problems : List ReadProblem
  pub queued : List Str

abbrev pub nothing_found : Found
nothing_found = record { problems = []; queued = [] }

abbrev pub and_found : Found → Found → Found
and_found a b = record { problems = a.problems ++ b.problems; queued = a.queued ++ b.queued }

-- One word of a directive.
unfoldable pub word_found : Str → ℕ → Str → Str → Found
unfolding is_computed is_absolute normpath str_eq starts_with
word_found rel n directive word =
    if is_computed word
    then record { problems = computed_file rel n directive word ∷ []; queued = [] }
    else if is_absolute word
        || str_eq (normpath word) (codes "..")
        || starts_with (codes "../") (normpath word)
    then record { problems = outside rel n directive word ∷ []; queued = [] }
    else record { problems = []; queued = normpath word ∷ [] }

unfoldable pub words_found : Str → ℕ → Str → List Str → Found
unfolding word_found file_word
words_found rel n directive [] = nothing_found
words_found rel n directive (w ∷ ws) =
    and_found (word_found rel n directive (file_word directive w)) (words_found rel n directive ws)

unfoldable pub directive_found : Str → LogicalLine → Found
unfolding match_re group_of words_found words
directive_found rel rec = elim (match_re read_directive_re rec.code) [
  | none ↦ nothing_found
  | some m ↦ words_found rel rec.n (group_of 1 m.caps) (words (group_of 2 m.caps))
]

unfoldable pub directives_found : Str → List LogicalLine → Found
unfolding directive_found
directives_found rel [] = nothing_found
directives_found rel (rec ∷ lines) =
    and_found (directive_found rel rec) (directives_found rel lines)

-- `texts.get(rel)`
unfoldable pub text_of : Str → List (Str × Str) → Option Str
unfolding str_eq
text_of k [] = none
text_of k ((j, t) ∷ m) = if str_eq k j then some t else text_of k m

-- One file of the queue.
unfoldable pub file_found : Str → Option Str → Found
unfolding grammar_problems reviewed_bytes_problems manufactured directives_found makefile_lines
file_found rel none = nothing_found
file_found rel (some text) =
    and_found
      (record {
        problems =
            map of_grammar (grammar_problems rel text)
            ++ (map by_name (reviewed_bytes_problems rel text)
                ++ manufactured rel (makefile_lines text));
        queued = [];
      })
      (directives_found rel (makefile_lines text))

-- `(order, problems)`
pub record ReadSet : Type 0 where
  pub order : List Str
  pub problems : List ReadProblem

-- The `while queue` loop. `none`: out of fuel.
unfoldable pub read_loop :
    ℕ → List (Str × Str) → List Str → List ReadProblem → List Str → Option ReadSet
unfolding mem_str file_found text_of
read_loop fuel texts order problems [] = some (record { order = order; problems = problems })
read_loop zero texts order problems (rel ∷ queue) = none
read_loop (suc fuel) texts order problems (rel ∷ queue) =
    let skipped = read_loop fuel texts order problems queue in
    let found = file_found rel (text_of rel texts) in
    let taken =
      read_loop fuel texts (order ++ rel ∷ []) (problems ++ found.problems)
        (queue ++ found.queued) in
    if mem_str rel order then skipped else taken

-- A round for the first file, and one for each file that a text can queue.
unfoldable pub enough : List (Str × Str) → ℕ
unfolding file_found
enough [] = 1
enough ((rel, text) ∷ texts) = length (file_found rel (some text)).queued + enough texts

unfoldable pub static_read_set : Option (List Str) → List (Str × Str) → Option ReadSet
unfolding shadow_problems read_loop enough
static_read_set none texts = some (record { order = []; problems = cannot_list ∷ [] })
static_read_set (some present) texts =
    read_loop (enough texts) texts [] (shadow_problems present) (codes "Makefile" ∷ [])
