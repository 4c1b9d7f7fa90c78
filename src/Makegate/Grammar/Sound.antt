-- ===== src/Makegate/Grammar/Sound.antt =====
-- A makefile for which `grammar_problems` reports nothing has only the allowed lines.
use vizra_search.Base.{
  ◌≢◌, there, not, here, is_blank, ◌&&◌, mem_str, if◌then◌else◌, In, All-append_right, ==_iff, ℕ,
  suc, ◌≤◌, ◌≡◌, refl, ap, ◌∙◌, Bool, true, false, inl, inr, Option, none, some, List, [], ◌∷◌,
  arith, map, All, Lacks, Bool-cases, Option-cases, List-cases, Str, append-eq-nil_left,
  append-eq-nil_right,
}
use vizra_search.Regex.{match_re, does_match, group_of}
use vizra_search.Makegate.Comment.{CommentWhy}
use vizra_search.Makegate.Lines.{LogicalLine, makefile_lines, keeps_rule_open}
use vizra_search.Makegate.Lines.Feeds.{LacksFeed, makefile_lines-LacksFeed}
use vizra_search.Makegate.Patterns.{g_assign_re, g_phony_re, g_rule_re}
use vizra_search.Makegate.Patterns.LineShapes.{
  IsAssignment, g_assign_re-IsAssignment, g_rule_re-IsRule, g_phony_re-IsPhony,
}
use vizra_search.Makegate.Dollars.{dollar_problems-Allowed}
use vizra_search.Makegate.Characters.{first_forbidden}
use vizra_search.Makegate.Characters.Exact.{IsPlainChar, first_forbidden-none}
use vizra_search.Makegate.Grammar.Defs.{
  is_empty, all_blank, GrammarWhy, Round, bad_segments, keyword_why, body_round, recipe_round,
  plain_round, grammar_round, grammar_loop, grammar_problems, is_blank_line, comment_before_tail,
}
use vizra_search.Makegate.Grammar.Shapes.{
  keywords, IsNoKeyword, HasText, Fits, blank, comment, recipe, assignment, phony, rule, IsAccepted,
  Accepted, end, line,
}

map-eq-nil {ℓ κ} : {A : Type ℓ} {B : Type κ} (f : A → B) (xs : List A) → map f xs ≡ [] → xs ≡ []
map-eq-nil f [] h = refl
map-eq-nil f (x ∷ xs) h = cc

bad_segments-nil :
    (rel : Str) (n : ℕ) (segs : List Str)
    → bad_segments rel n segs ≡ []
    → All (All IsPlainChar) segs
unfolding bad_segments
bad_segments-nil rel n [] h = tt
bad_segments-nil rel n (seg ∷ segs) h = elim (Option-cases (first_forbidden seg)) [
  | inl e ↦ (
    (first_forbidden-none seg).0 e,
    bad_segments-nil rel (suc n) segs (rw (e, bad_segments) at h),
  )
  | inr (w, e) ↦ cc (rw (e, bad_segments) at h)
]

all_blank-HasText : (s : Str) → all_blank s ≡ false → ((c : ℕ) × In c s × (is_blank c ≡ false))
unfolding all_blank
all_blank-HasText [] h = cc
all_blank-HasText (c ∷ s) h = elim (Bool-cases (is_blank c)) [
  | inr e ↦ (c, here refl, e)
  | inl e ↦ let (d, i, is_text) = all_blank-HasText s (rw e at h) in (d, there i, is_text)
]

is_blank_line-HasText : (raw : Str) → is_blank_line raw ≡ false → HasText raw
is_blank_line-HasText [] h = inl refl
is_blank_line-HasText (c ∷ s) h = inr (all_blank-HasText (c ∷ s) h)

keyword_lem :
    (is_keyword : Bool) (op : Str) (bare : Bool) (a b : GrammarWhy)
    → (if is_keyword && not (is_empty op) then (if bare then some a else some b) else none) ≡ none
    → op ≢ []
    → is_keyword ≡ false
keyword_lem false op bare a b h e = refl
keyword_lem true [] bare a b h e = absurd (e refl)
keyword_lem true (c ∷ s) true a b h e = cc
keyword_lem true (c ∷ s) false a b h e = cc

keyword_why-IsNoKeyword : (code : Str) → keyword_why code ≡ none → IsNoKeyword code
unfolding keyword_why
keyword_why-IsNoKeyword code h lead same op =
    let word = group_of 1 lead.caps in
    keyword_lem (mem_str word keywords) (group_of 2 lead.caps) _ _ _ (rw (same, keyword_why) at h)
      op

body_round-IsNoKeyword :
    (rel : Str) (rec : LogicalLine) → (body_round rel rec).found ≡ [] → IsNoKeyword rec.code
unfolding body_round
body_round-IsNoKeyword rel rec h = elim (Option-cases (keyword_why rec.code)) [
  | inl e ↦ keyword_why-IsNoKeyword rec.code e
  | inr (w, e) ↦ cc (rw (e, body_round) at h)
]

-- A round that appends nothing, on a line that fits where the round leaves `in_rule`.
abbrev Passes : Bool → LogicalLine → Round → Type 0
Passes b rec r = r.found ≡ [] → Fits b rec r.in_rule

value-Lacks : (code value : Str) → Lacks b'\n' code → IsAssignment code value → Lacks b'\n' value
value-Lacks code value l a =
    All-append_right _ a.op value
      (All-append_right _ a.blank _ (All-append_right _ a.name _ (rw a.code_is at l)))

body_round-Passes :
    (rel : Str) (b : Bool) (rec : LogicalLine)
    → rec.tab ≡ false
    → Lacks b'\n' rec.code
    → Passes b rec (body_round rel rec)
unfolding body_round
body_round-Passes rel b rec t l = elim (Option-cases (keyword_why rec.code)) [
  | inr (w, e) ↦ rw (e, body_round) (λ h. cc)
  | inl e ↦
      rw (e, body_round)
        (elim (Option-cases (match_re g_assign_re rec.code)) [
          | inr (m, k) ↦
              rw (k, body_round)
                (λ h.
                  let a = g_assign_re-IsAssignment rec.code m l k in
                  let lv = value-Lacks rec.code (group_of 3 m.caps) l a in
                  assignment (group_of 3 m.caps) t a
                    (dollar_problems-Allowed (group_of 3 m.caps) true lv (map-eq-nil _ _ h)) refl)
          | inl k ↦
              rw (k, body_round)
                (elim (Bool-cases (does_match g_phony_re rec.code)) [
                  | inl p ↦ rw p (λ h. phony t (g_phony_re-IsPhony rec.code l p) refl)
                  | inr p ↦ rw p (elim (Bool-cases (does_match g_rule_re rec.code)) [
                    | inl q ↦ rw q (λ h. rule t (g_rule_re-IsRule rec.code l q) refl)
                    | inr q ↦ rw q (λ h. cc)
                  ])
                ])
        ])
]

-- What the last test before the shapes leaves of a comment.
abbrev CommentEnds : LogicalLine → Type 0
CommentEnds rec = (at : ℕ) → rec.comment_at ≡ some at → rec.tail ≤ at

comment_before_tail-false :
    (o : Option ℕ) (tail at : ℕ) → comment_before_tail o tail ≡ false → o ≡ some at → tail ≤ at
comment_before_tail-false none tail at h e = cc
comment_before_tail-false (some k) tail at h e = ground arith

open-Fits :
    (b : Bool) (rec : LogicalLine) → rec.tab ≡ false → keeps_rule_open rec ≡ true → Fits b rec b
unfolding keeps_rule_open
open-Fits b rec t h = elim (List-cases rec.raw) [
  | inl e ↦ blank t e refl
  | inr (c, s, e) ↦ comment s t (e ∙ ap (λ x. x ∷ s) ((==_iff c b'#').0 (rw (t, e) at h))) refl
]

plain_round-Passes :
    (rel : Str) (b : Bool) (rec : LogicalLine) (why : Option CommentWhy)
    → rec.tab ≡ false
    → Lacks b'\n' rec.code
    → (plain_round rel b rec why).found ≡ []
    → Fits b rec (plain_round rel b rec why).in_rule
      × (why ≡ none)
      × CommentEnds rec
      × (keeps_rule_open rec ≡ false → IsNoKeyword rec.code)
unfolding plain_round
plain_round-Passes rel b rec (some why) t l = λ h. cc
plain_round-Passes rel b rec none t l =
    elim (Bool-cases (comment_before_tail rec.comment_at rec.tail)) [
      | inl e ↦ rw e (λ h. cc)
      | inr e ↦
          let ends : CommentEnds rec =
            λ at k. comment_before_tail-false rec.comment_at rec.tail at e k in
          rw e (elim (Bool-cases (keeps_rule_open rec)) [
            | inl k ↦ rw k (λ h. (open-Fits b rec t k, refl, ends, λ f. cc))
            | inr k ↦ rw k (λ h. (
              body_round-Passes rel b rec t l h,
              refl,
              ends,
              λ f. body_round-IsNoKeyword rel rec h,
            ))
          ])
    ]

recipe_round-Passes :
    (rel : Str) (b : Bool) (rec : LogicalLine)
    → rec.tab ≡ true
    → Lacks b'\n' rec.raw
    → Passes b rec (recipe_round rel b rec)
unfolding recipe_round
recipe_round-Passes rel true rec t l =
    λ h. recipe t refl (dollar_problems-Allowed rec.raw false l (map-eq-nil _ _ h)) refl
recipe_round-Passes rel false rec t l = λ h. cc

grammar_round-IsAccepted :
    (rel : Str) (b : Bool) (rec : LogicalLine)
    → LacksFeed rec
    → (grammar_round rel b rec).found ≡ []
    → IsAccepted b rec (grammar_round rel b rec).in_rule
unfolding grammar_round
grammar_round-IsAccepted rel b rec l = elim (List-cases (bad_segments rel rec.n rec.segments)) [
  | inr (x, xs, e) ↦ rw (e, grammar_round) (λ h. cc)
  | inl e ↦
      let chars = bad_segments-nil rel rec.n rec.segments e in
      rw (e, grammar_round)
        (elim (Bool-cases (is_blank_line rec.raw)) [
          | inl k ↦ rw k (λ h. cc)
          | inr k ↦ rw k (elim (Bool-cases rec.tab) [
            | inl t ↦ simp t (λ h. record {
              fits = recipe_round-Passes rel b rec t l.in_raw h;
              has_text = is_blank_line-HasText rec.raw k;
              no_keyword = λ f. cc;
              plain = chars;
              boundary = λ f. cc;
              comment_ends = λ f. cc;
            })
            | inr t ↦ simp t (λ h.
                let parts = plain_round-Passes rel b rec rec.comment_why t l.in_code h in
                record {
                  fits = parts.0;
                  has_text = is_blank_line-HasText rec.raw k;
                  no_keyword = λ f. parts.3;
                  plain = chars;
                  boundary = λ f. parts.1;
                  comment_ends = λ f. parts.2;
                })
          ])
        ])
]

grammar_loop-Accepted :
    (rel : Str) (b : Bool) (lines : List LogicalLine)
    → All LacksFeed lines
    → grammar_loop rel b lines ≡ []
    → Accepted b lines
unfolding grammar_loop
grammar_loop-Accepted rel b [] l h = end
grammar_loop-Accepted rel b (rec ∷ lines) l h =
    let round = grammar_round rel b rec in
    line (grammar_round-IsAccepted rel b rec l.0 (append-eq-nil_left round.found _ h))
      (grammar_loop-Accepted rel round.in_rule lines l.1 (append-eq-nil_right round.found _ h))

-- If grammar_problems reports nothing, every logical line has one of the allowed shapes in its
-- place, is not made of blanks alone, has no forbidden character, and no `#` in an expansion or
-- continued comment outside recipes; and where the pattern of a leading word and operator matches a
-- line of these shapes, the word is no directive keyword.
pub grammar_problems-Accepted :
    (rel text : Str) → grammar_problems rel text ≡ [] → Accepted false (makefile_lines text)
unfolding grammar_problems
grammar_problems-Accepted rel text =
    grammar_loop-Accepted rel false (makefile_lines text) (makefile_lines-LacksFeed text)
