-- ===== src/Makegate/Lines.antt =====
-- scripts/makegate.py, the one line reader: `makefile_lines` with `_continued`, and the readings that
-- go by its records, `keeps_rule_open` and `recipe_lines`. The loops over `phys` and over the
-- continuation of a line are one recursion over the physical lines, whose state is the open line.
pub mod Sources
pub mod Breaks
pub mod Feeds
pub mod Code
mod Tests
use vizra_search.Base.{
  ℕ, ◌+◌, ◌-◌, Bool, true, false, not, ◌&&◌, ◌||◌, Option, none, some, List, [], ◌∷◌, ◌++◌, ◌==◌,
  ltb, if◌then◌else◌, length, drop, Str, lstrip, rstrip, strip, is_space, is_blank, split_on,
  but_last,
}
use Prim.Native.Nat.{◌%◌}
use vizra_search.Makegate.Comment.{CommentWhy, Stripped, strip_comment}

pub record LogicalLine : Type 0 where
  pub n : ℕ
  pub segments : List Str
  pub tab : Bool
  pub raw : Str
  pub code : Str
  -- `none` stands for the source's -1
  pub comment_at : Option ℕ
  pub comment_why : Option CommentWhy
  pub tail : ℕ

abbrev pub is_backslash : ℕ → Bool
is_backslash c = c == b'\\'

unfoldable pub continued : Str → Bool
unfolding rstrip
continued physical = (length physical - length (rstrip is_backslash physical)) % 2 == 1

abbrev pub tab_first : Str → Bool
tab_first [] = false
tab_first (c ∷ s) = c == 9

-- The loop's variables while a logical line is open: `cur` is `phys[i]`, the last segment.
pub record Open : Type 0 where
  pub first : ℕ
  pub segments : List Str
  pub tab : Bool
  pub raw : Str
  pub tail : ℕ
  pub cur : Str

abbrev pub begin : ℕ → Str → Open
begin n p = record { first = n; segments = p ∷ []; tab = tab_first p; raw = p; tail = 0; cur = p }

-- `nxt[1:] if nxt.startswith("\t") else nxt` on a TAB line, `nxt.lstrip(" \t")` on any other
unfoldable pub continuation : Bool → Str → Str
unfolding lstrip
continuation true nxt = if tab_first nxt then drop 1 nxt else nxt
continuation false nxt = lstrip is_blank nxt

unfoldable pub absorb : Open → Str → Open
unfolding continuation but_last
absorb o nxt =
    let raw = but_last o.raw ++ 32 ∷ [] in
    record {
      first = o.first;
      segments = o.segments ++ nxt ∷ [];
      tab = o.tab;
      raw = raw ++ continuation o.tab nxt;
      tail = length raw;
      cur = nxt;
    }

abbrev pub comment_index : Str → Str → Option ℕ
comment_index code raw = if ltb (length code) (length raw) then some (length code) else none

abbrev pub with_code : Open → Stripped → LogicalLine
with_code o (code, why) = record {
  n = o.first;
  segments = o.segments;
  tab = o.tab;
  raw = o.raw;
  code = code;
  comment_at = comment_index code o.raw;
  comment_why = why;
  tail = o.tail;
}

abbrev pub stripped_as : Bool → Str → Stripped
stripped_as true raw = (raw, none)
stripped_as false raw = strip_comment raw

unfoldable pub finish : Open → LogicalLine
unfolding strip_comment
finish o = with_code o (stripped_as o.tab o.raw)

unfoldable pub collect : Open → List Str → List LogicalLine
unfolding continued absorb finish
collect o [] = finish o ∷ []
collect o (nxt ∷ phys) = elim (continued o.cur) [
  | true ↦ collect (absorb o nxt) phys
  | false ↦ finish o ∷ collect (begin (o.first + length o.segments) nxt) phys
]

-- `phys` is never empty: `str.split` returns at least one text.
unfoldable pub lines_of : List Str → List LogicalLine
unfolding collect
lines_of [] = []
lines_of (p ∷ phys) = collect (begin 1 p) phys

unfoldable pub makefile_lines : Str → List LogicalLine
unfolding lines_of split_on
makefile_lines text = lines_of (split_on b'\n' text)

abbrev pub is_nil : Str → Bool
is_nil [] = true
is_nil (c ∷ s) = false

abbrev pub hash_first : Str → Bool
hash_first [] = false
hash_first (c ∷ s) = c == b'#'

unfoldable pub keeps_rule_open : LogicalLine → Bool
keeps_rule_open rec = not rec.tab && (is_nil rec.raw || hash_first rec.raw)

-- `recipe_lines(lines, start)` at `lines[start:]`
unfoldable pub recipe_lines : List LogicalLine → List (ℕ × Str)
unfolding keeps_rule_open strip is_space
recipe_lines [] = []
recipe_lines (rec ∷ lines) =
    let rest = recipe_lines lines in
    if rec.tab
    then (rec.n, strip is_space (drop 1 rec.raw)) ∷ rest
    else if not (keeps_rule_open rec)
    then []
    else rest
