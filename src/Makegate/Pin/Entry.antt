-- ===== src/Makegate/Pin/Entry.antt =====
-- scripts/makegate.py, PIN_ENTRY_RE: what an entry's name and digest look like.
use vizra_search.Base.{
  Bool, ℕ, zero, suc, ◌≡◌, refl, sym, ap, true, false, none, some, [], ◌∷◌, ◌++◌, ◌==◌, ==_iff, Str,
  length, Option, is_absolute, starts_with, is_blank, ◌≢◌, subst, Bool-cases, inl, inr, false,
}
use vizra_search.Regex.{
  Caps, Match, char, match_re, group_of, Lang, match_re-Lang, lit-word, InClass, Rounds-InClass,
}
use vizra_search.Makegate.Patterns.{name_char, word_char}
use vizra_search.Makegate.Patterns.Shapes.{IsWordOf, Lang-IsWordOf}
use vizra_search.Makegate.Pin.{times, hex_digit, pin_entry_re}

-- So many characters of the class.
times-InClass :
    (q : ℕ → Bool) (n : ℕ) (p : Option ℕ) (w s : Str) (cs : Caps)
    → Lang (times n (char q)) p w s cs
    → InClass q w × (length w ≡ n) × (cs ≡ [])
times-InClass q zero p w s cs (e, k) = (rw e tt, ap (length {A = ℕ}) e, k)
times-InClass q (suc n) p w s cs t =
    let (c, e, k, is_q) = t.fst_in in
    let (more, many, none_captured) = times-InClass q n _ t.snd s t.snd_caps t.snd_in in
    (
      rw (t.word_is, e) (is_q, more),
      rw (t.word_is, e) (ap suc many),
      rw (t.caps_are, k, none_captured),
    )

-- A name that starts with a letter, a digit or a low line, and 64 digits in the base 16.
pub record IsEntry (name digest : Str) : Type 0 where
  pub is_name : IsWordOf name_char word_char name
  pub hex : InClass hex_digit digest
  pub long : length digest ≡ 64

pub pin_entry_re-IsEntry :
    (line : Str) (m : Match)
    → match_re pin_entry_re line ≡ some m
    → IsEntry (group_of 1 m.caps) (group_of 2 m.caps)
unfolding group_of
pin_entry_re-IsEntry line m h =
    let (e, t) = match_re-Lang pin_entry_re line h in
    let (two, no_caps) = lit-word "  " none t.fst (t.snd ++ m.rest) t.fst_caps t.fst_in in
    let u = t.snd_in in
    let (ca, fa, na) = u.fst_in in
    let (word, wcaps) = Lang-IsWordOf name_char word_char _ u.fst (u.snd ++ m.rest) ca na in
    let v = u.snd_in in
    let (colon, ccaps) = lit-word ": " _ v.fst (v.snd ++ m.rest) v.fst_caps v.fst_in in
    let x = v.snd_in in
    let (cd, fd, nd) = x.fst_in in
    let (hex, long, dcaps) = times-InClass hex_digit 64 _ x.fst (x.snd ++ m.rest) cd nd in
    let y = x.snd_in in
    let (blank, bcaps) = Rounds-InClass is_blank y.fst_in in
    let (end_word, ecaps, end) = y.snd_in in
    let caps : m.caps ≡ (2, x.fst) ∷ (1, u.fst) ∷ [] = rw (
      t.caps_are, u.caps_are, v.caps_are, x.caps_are, y.caps_are, no_caps, fa, wcaps, ccaps, fd,
      dcaps, bcaps, ecaps,
    ) in
    rw caps (record { is_name = word; hex = hex; long = long })

false-ne-true_lem : false ≢ true
false-ne-true_lem = λ e. cc

-- Such a name is no absolute path.
pub name-relative : (name : Str) → IsWordOf name_char word_char name → is_absolute name ≡ false
unfolding is_absolute starts_with
name-relative [] w = absurd w
name-relative (c ∷ s) (h, r) = elim (Bool-cases (b'/' == c)) [
  | inl e ↦
      absurd (false-ne-true_lem (subst (λ x. name_char x ≡ true) (sym ((==_iff b'/' c).0 e)) h))
  | inr e ↦ rw e refl
]
