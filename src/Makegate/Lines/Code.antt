-- ===== src/Makegate/Lines/Code.antt =====
-- What `code`, `comment_at` and `comment_why` say of a logical line.
use vizra_search.Base.{
  false, ℕ, ◌+◌, ◌≡◌, refl, ap, sym, true, inl, inr, none, some, List, [], ◌∷◌, ◌++◌, arith,
  append-nil, Bool-cases, length, length-append, All, Str, split_on,
}
use vizra_search.Makegate.Comment.{strip_comment}
use vizra_search.Makegate.Comment.Split.{Cuts, Cuts-splits, strip_comment-Cuts}
use vizra_search.Makegate.Lines.{
  LogicalLine, Open, begin, absorb, finish, continued, collect, lines_of, makefile_lines,
  comment_index,
}

-- On a TAB line `code` is the whole line; on any other it is the line in front of a comment, which
-- `comment_at` points to.
pub record HasCode (rec : LogicalLine) : Type 0 where
  pub of_tab : rec.tab ≡ true → (rec.code ≡ rec.raw) × (rec.comment_at ≡ none)
  pub comment : Str
  pub splits : rec.raw ≡ rec.code ++ comment
  pub cuts : rec.tab ≡ false → Cuts 0 rec.raw rec.code comment rec.comment_why
  pub at : rec.comment_at ≡ (elim comment [ [] ↦ none | c ∷ s ↦ some (length rec.code) ])

comment_index-cuts :
    (code raw t : Str)
    → raw ≡ code ++ t
    → comment_index code raw ≡ (elim t [ [] ↦ none | c ∷ s ↦ some (length code) ])
comment_index-cuts code raw [] e = ground (arith, ap (length {A = ℕ}) e, length-append code [])
comment_index-cuts code raw (c ∷ s) e =
    ground (arith, ap (length {A = ℕ}) e, length-append code (c ∷ s))

finish-HasCode : (o : Open) → HasCode (finish o)
unfolding finish
finish-HasCode o = elim (Bool-cases o.tab) [
  | inl e ↦ rw e (record {
    of_tab = λ _. (refl, comment_index-cuts o.raw o.raw [] (sym (append-nil o.raw)));
    comment = [];
    splits = sym (append-nil o.raw);
    cuts = λ h. cc;
    at = comment_index-cuts o.raw o.raw [] (sym (append-nil o.raw));
  })
  | inr e ↦
      let (t, cut) = strip_comment-Cuts o.raw in
      let sp = Cuts-splits cut in
      rw e (record {
        of_tab = λ h. cc;
        comment = t;
        splits = sp;
        cuts = λ _. cut;
        at = comment_index-cuts (strip_comment o.raw).0 o.raw t sp;
      })
]

collect-HasCode : (phys : List Str) (o : Open) → All HasCode (collect o phys)
unfolding collect
collect-HasCode [] o = (finish-HasCode o, tt)
collect-HasCode (nxt ∷ phys) o = elim (Bool-cases (continued o.cur)) [
  | inl e ↦ rw (e, collect) (collect-HasCode phys (absorb o nxt))
  | inr e ↦
      rw (e, collect)
        (finish-HasCode o, collect-HasCode phys (begin (o.first + length o.segments) nxt))
]

lines_of-HasCode : (phys : List Str) → All HasCode (lines_of phys)
unfolding lines_of
lines_of-HasCode [] = tt
lines_of-HasCode (p ∷ phys) = collect-HasCode phys (begin 1 p)

-- Every record keeps a TAB line whole; any other line is its code and its comment, which starts at
-- comment_at, at the first `#` that no backslash takes, with comment_why where that stands in an
-- expansion.
pub makefile_lines-HasCode : (text : Str) → All HasCode (makefile_lines text)
unfolding makefile_lines
makefile_lines-HasCode text = lines_of-HasCode (split_on b'\n' text)
