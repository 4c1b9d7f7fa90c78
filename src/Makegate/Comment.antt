-- ===== src/Makegate/Comment.antt =====
-- scripts/makegate.py, `_strip_comment`: where make's comment starts on a line that is no recipe line.
pub mod Split
use vizra_search.Base.{
  ℕ, suc, ◌-◌, Bool, not, ◌&&◌, ◌||◌, Option, none, some, [], ◌∷◌, ◌==◌, if◌then◌else◌, Str,
}

-- The one reason that `_strip_comment` gives.
pub data CommentWhy : Type 0 where
  hash_in_expansion : CommentWhy

abbrev pub Stripped : Type 0
Stripped = Str × Option CommentWhy

abbrev pub opens : ℕ → Bool
opens c = c == b'(' || c == b'{'

abbrev pub closes : ℕ → Bool
closes c = c == b')' || c == b'}'

-- `c`, which the loop passes over, stands before what it finds behind.
abbrev pub keep : ℕ → Stripped → Stripped
keep c (code, why) = (c ∷ code, why)

-- The loop at one character that starts no pair: `after d` is the loop behind it at depth `d`.
unfoldable pub strip_char : ℕ → ℕ → (ℕ → Stripped) → Stripped
strip_char depth c after =
    if closes c && not (depth == 0)
    then keep c (after (depth - 1))
    else if c == b'#'
    then ([], if depth == 0 then none else some hash_in_expansion)
    else keep c (after depth)

-- The loop over the line. `i += 2` is the clause that passes over two characters.
unfoldable pub strip_from : ℕ → Str → Stripped
unfolding strip_char
strip_from depth [] = ([], none)
strip_from depth (c ∷ []) = strip_char depth c (λ d. ([], none))
strip_from depth (c ∷ x ∷ rest) =
    let escaped = keep c (keep x (strip_from depth rest)) in
    let expansion = keep c (keep x (strip_from (suc depth) rest)) in
    let single = strip_char depth c (λ d. strip_from d (x ∷ rest)) in
    if c == b'\\' then escaped else if c == b'$' && opens x then expansion else single

unfoldable pub strip_comment : Str → Stripped
unfolding strip_from
strip_comment = strip_from 0
