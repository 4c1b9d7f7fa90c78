-- ===== src/Makegate/Comment/Split.antt =====
-- `_strip_comment` described on its own: where the comment of a line starts.
use vizra_search.Base.{
  ℕ, zero, suc, ◌-◌, ◌≡◌, ◌≢◌, refl, ap, sym, ◌&&◌, Bool, true, false, inl, inr, Option, none, some,
  [], ◌∷◌, ◌++◌, arith, ◌==◌, ==_iff, Bool-cases, Str, subst,
}
use vizra_search.Makegate.Comment.{
  CommentWhy, hash_in_expansion, Stripped, strip_char, strip_from, strip_comment, opens, closes,
  keep,
}

-- What follows is no character that a `$` or a backslash takes with it.
abbrev pub Alone : ℕ → Str → Type 0
Alone c [] = Unit
Alone c (x ∷ s) = (c ≢ b'\\') × ((c ≡ b'$') → opens x ≡ false)

-- `Cuts depth s code comment why`: with so many expansions open, `s` is `code` and then `comment`, which
-- starts at the first `#` that no backslash stands before, or is empty where there is none.
pub data Cuts : ℕ → Str → Str → Str → Option CommentWhy → Type 0 where
  ends : {depth : ℕ} → Cuts depth [] [] [] none
  comment : {s : Str} → Cuts 0 (b'#' ∷ s) [] (b'#' ∷ s) none
  -- with an expansion open it is a problem
  inside :
      {depth : ℕ} {s : Str} → Cuts (suc depth) (b'#' ∷ s) [] (b'#' ∷ s) (some hash_in_expansion)
  -- a backslash and what it stands before
  escaped :
      {depth : ℕ} {s code t : Str} {why : Option CommentWhy} (x : ℕ)
      → Cuts depth s code t why
      → Cuts depth (b'\\' ∷ x ∷ s) (b'\\' ∷ x ∷ code) t why
  -- a `$` and an opening bracket
  opened :
      {depth : ℕ} {s code t : Str} {why : Option CommentWhy} (x : ℕ)
      → opens x ≡ true
      → Cuts (suc depth) s code t why
      → Cuts depth (b'$' ∷ x ∷ s) (b'$' ∷ x ∷ code) t why
  closed :
      {depth : ℕ} {s code t : Str} {why : Option CommentWhy} (c : ℕ)
      → closes c ≡ true
      → Cuts depth s code t why
      → Cuts (suc depth) (c ∷ s) (c ∷ code) t why
  other :
      {depth : ℕ} {s code t : Str} {why : Option CommentWhy} (c : ℕ)
      → c ≢ b'#'
      → Alone c s
      → (closes c ≡ true → depth ≡ 0)
      → Cuts depth s code t why
      → Cuts depth (c ∷ s) (c ∷ code) t why

pub Cuts-splits :
    {depth : ℕ} {s code t : Str} {why : Option CommentWhy} → Cuts depth s code t why → s ≡ code ++ t
Cuts-splits ends = refl
Cuts-splits comment = refl
Cuts-splits inside = refl
Cuts-splits (escaped x cut) = ap (λ u. b'\\' ∷ x ∷ u) (Cuts-splits cut)
Cuts-splits (opened x o cut) = ap (λ u. b'$' ∷ x ∷ u) (Cuts-splits cut)
Cuts-splits (closed c o cut) = ap (λ u. c ∷ u) (Cuts-splits cut)
Cuts-splits (other c h alone d cut) = ap (λ u. c ∷ u) (Cuts-splits cut)

-- The result is such a cut.
abbrev pub IsCut : ℕ → Str → Stripped → Type 0
IsCut depth s r = (t : Str) × Cuts depth s r.0 t r.1

and_false : (b : Bool) → (b && false) ≡ false
and_false true = refl
and_false false = refl

differs : (c d : ℕ) → (c == d) ≡ false → c ≢ d
differs c d h = λ e. ground (arith, ==_iff c d)

and_both : (a b : Bool) → (a && b) ≡ true → (a ≡ true) × (b ≡ true)
and_both true b h = (refl, h)
and_both false b h = cc

unless_both : (a b : Bool) → (a && b) ≡ false → a ≡ true → b ≡ false
unless_both true b h e = h
unless_both false b h e = cc

suc_test : (d : ℕ) → (suc d == 0) ≡ false
suc_test d = ground arith

pred_suc : (d : ℕ) → suc d - 1 ≡ d
pred_suc d = omega arith

strip_char-IsCut :
    (depth c : ℕ) (s : Str) (after : ℕ → Stripped)
    → Alone c s
    → ((k : ℕ) → IsCut k s (after k))
    → IsCut depth (c ∷ s) (strip_char depth c after)
unfolding strip_char
strip_char-IsCut zero c s after alone h = rw (and_false (closes c)) (elim (Bool-cases (c == b'#')) [
  | inl k ↦ rw k (c ∷ s, rw ((==_iff c b'#').0 k) comment)
  | inr k ↦ rw k (let (t, cut) = h 0 in (t, other c (differs c b'#' k) alone (λ e. refl) cut))
])
strip_char-IsCut (suc depth) c s after alone h = elim (Bool-cases (closes c)) [
  | inl e ↦ rw (e, suc_test depth, pred_suc depth) (let (t, cut) = h depth in (t, closed c e cut))
  | inr e ↦ rw e (elim (Bool-cases (c == b'#')) [
    | inl k ↦ rw (k, suc_test depth) (c ∷ s, rw ((==_iff c b'#').0 k) inside)
    | inr k ↦
        rw k (let (t, cut) = h (suc depth) in (t, other c (differs c b'#' k) alone (λ f. cc) cut))
  ])
]

strip_from-IsCut : (depth : ℕ) (s : Str) → IsCut depth s (strip_from depth s)
unfolding strip_from
strip_from-IsCut depth [] = ([], ends)
strip_from-IsCut depth (c ∷ []) =
    unfold strip_char in strip_char-IsCut depth c [] (λ k. ([], none)) tt (λ k. ([], ends))
strip_from-IsCut depth (c ∷ x ∷ rest) = elim (Bool-cases (c == b'\\')) [
  | inl e ↦
      let (t, cut) = strip_from-IsCut depth rest in
      rw e (
        subst (λ b. IsCut depth (b ∷ x ∷ rest) (keep b (keep x (strip_from depth rest))))
          (sym ((==_iff c b'\\').0 e)) (t, escaped x cut))
  | inr e ↦ rw e (elim (Bool-cases (c == b'$' && opens x)) [
    | inl k ↦
        let (dollar, bracket) = and_both (c == b'$') (opens x) k in
        let (t, cut) = strip_from-IsCut (suc depth) rest in
        rw k (
          subst (λ b. IsCut depth (b ∷ x ∷ rest) (keep b (keep x (strip_from (suc depth) rest))))
            (sym ((==_iff c b'$').0 dollar)) (t, opened x bracket cut))
    | inr k ↦ rw k (
        strip_char-IsCut depth c (x ∷ rest) (λ n. strip_from n (x ∷ rest))
          (differs c b'\\' e, λ d. unless_both (c == b'$') (opens x) k ((==_iff c b'$').1 d))
          (λ n. strip_from-IsCut n (x ∷ rest)))
  ])
]

-- _strip_comment returns what stands before the first `#` that no backslash takes, or the whole
-- line, and says whether an expansion, with brackets counted, is open at that `#`.
pub strip_comment-Cuts : (s : Str) → IsCut 0 s (strip_comment s)
unfolding strip_comment
strip_comment-Cuts s = strip_from-IsCut 0 s
