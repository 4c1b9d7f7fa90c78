-- ===== src/Makegate/Lines/Sources.antt =====
-- The logical lines are the physical lines of the text, each once and in order.
use vizra_search.Base.{
  ◌+◌, ◌≡◌, refl, ap, ◌∙◌, inl, inr, List, [], ◌∷◌, ◌++◌, append_assoc, Bool-cases, length, Str,
  split_on, join_with, join-split_on,
}
use vizra_search.Makegate.Lines.{
  LogicalLine, Open, begin, absorb, finish, continued, collect, lines_of, makefile_lines,
}

abbrev pub segments_of : List LogicalLine → List Str
segments_of [] = []
segments_of (rec ∷ lines) = rec.segments ++ segments_of lines

segments-collect : (phys : List Str) (o : Open) → segments_of (collect o phys) ≡ o.segments ++ phys
unfolding collect finish absorb
segments-collect [] o = refl
segments-collect (nxt ∷ phys) o = elim (Bool-cases (continued o.cur)) [
  | inl e ↦
      rw (e, collect)
        (segments-collect phys (absorb o nxt) ∙ append_assoc o.segments (nxt ∷ []) phys)
  | inr e ↦
      rw (e, collect)
        (ap (λ t. o.segments ++ t)
          (segments-collect phys (begin (o.first + length o.segments) nxt)))
]

segments-lines_of : (phys : List Str) → segments_of (lines_of phys) ≡ phys
unfolding lines_of
segments-lines_of [] = refl
segments-lines_of (p ∷ phys) = segments-collect phys (begin 1 p)

-- The physical lines of the line reader's records, joined by line feeds, are the text.
pub join-makefile_lines : (text : Str) → join_with b'\n' (segments_of (makefile_lines text)) ≡ text
unfolding makefile_lines
join-makefile_lines text =
    ap (join_with b'\n') (segments-lines_of (split_on b'\n' text)) ∙ join-split_on b'\n' text
