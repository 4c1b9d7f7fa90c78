-- ===== src/Makegate/Patterns/Shapes.antt =====
-- The shapes that the shared patterns stand for, written without them.
use vizra_search.Base.{
  Option, ℕ, ◌≡◌, refl, ap, sym, ◌∙◌, Bool, true, none, [], ◌∷◌, ◌++◌, append-nil, All-append_right,
  Lacks, Str,
}
use vizra_search.Regex.{
  Caps, Regex, seq, char, star, dollar, Lang, does_match, does_match-Lang, Lang-does_match, InClass,
  Rounds-InClass, InClass-Rounds, at_end-eq-nil,
}
use vizra_search.Makegate.Patterns.{ident, g_ident_re, name_start, name_char}

-- A character of the first class, then characters of the second.
abbrev pub IsWordOf : (ℕ → Bool) → (ℕ → Bool) → Str → Type 0
IsWordOf p q [] = ⊥
IsWordOf p q (c ∷ s) = (p c ≡ true) × InClass q s

abbrev pub IsIdent : Str → Type 0
IsIdent = IsWordOf name_start name_char

module _ (p q : ℕ → Bool) where
  pub Lang-IsWordOf :
      (o : Option ℕ) (w s : Str) (cs : Caps)
      → Lang (seq (char p) (star (char q))) o w s cs
      → IsWordOf p q w × (cs ≡ [])
  Lang-IsWordOf o w s cs t =
      let (c, f, g, h) = t.fst_in in
      let (r, n) = Rounds-InClass q t.snd_in in (rw (t.word_is, f) (h, r), rw (t.caps_are, g, n))

  pub IsWordOf-Lang :
      (o : Option ℕ) (w s : Str) → IsWordOf p q w → Lang (seq (char p) (star (char q))) o w s []
  IsWordOf-Lang o [] s h = absurd h
  IsWordOf-Lang o (c ∷ w) s h = record {
    fst = c ∷ [];
    snd = w;
    fst_caps = [];
    snd_caps = [];
    word_is = refl;
    caps_are = refl;
    fst_in = (c, refl, refl, h.0);
    snd_in = InClass-Rounds q _ w s h.1;
  }

-- A match of a pattern that ends in `$`, on a text with no line feed, is the whole text.
pub whole_match :
    (r : Regex) (o : Option ℕ) (w t : Str) (cs : Caps)
    → Lacks b'\n' (w ++ t)
    → Lang (seq r dollar) o w t cs
    → (t ≡ []) × Lang r o w [] cs
whole_match r o w t cs l k =
    let (e, g, h) = k.snd_in in
    let t_nil : t ≡ [] = at_end-eq-nil t (All-append_right _ w t l) h in
    let word : w ≡ k.fst = k.word_is ∙ ap (λ x. k.fst ++ x) e ∙ append-nil k.fst in
    let caps : cs ≡ k.fst_caps = k.caps_are ∙ ap (λ x. x ++ k.fst_caps) g in
    (t_nil, rw (word, caps) (rw (e, t_nil) at k.fst_in))

pub name_re-IsIdent : (s : Str) → Lacks b'\n' s → does_match g_ident_re s ≡ true → IsIdent s
name_re-IsIdent s l h =
    let (m, _, e, i) = does_match-Lang g_ident_re s h in
    let (t_nil, k) = whole_match ident none m.word m.rest m.caps (rw e at l) i in
    rw (e ∙ ap (λ x. m.word ++ x) t_nil ∙ append-nil m.word)
      (Lang-IsWordOf name_start name_char none m.word [] m.caps k).0

pub IsIdent-ident : (s : Str) → IsIdent s → does_match g_ident_re s ≡ true
IsIdent-ident s h = rw (append-nil s) at (
    Lang-does_match g_ident_re s [] [] (record {
      fst = s;
      snd = [];
      fst_caps = [];
      snd_caps = [];
      word_is = sym (append-nil s);
      caps_are = refl;
      fst_in = IsWordOf-Lang name_start name_char none s [] h;
      snd_in = (refl, refl, refl);
    }))
