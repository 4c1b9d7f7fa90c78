-- ===== src/Regex/Runs.antt =====
-- Loops over one class of characters, and the pieces of the patterns that the scripts share.
use Prim.Native.Char.{code}
use Prim.Native.String.{String}
use vizra_search.Base.{
  codes, ==_iff, ==_refl, ap₂, ℕ, ◌≡◌, refl, ap, ◌∙◌, Bool, true, Option, some, [], ◌∷◌, ◌++◌, All,
  Lacks, Str,
}
use vizra_search.Regex.Defs.{Caps, lit, char, at_end}
use vizra_search.Regex.Language.{Rounds, stop, more, Lang}

-- Every character of the text is in the class.
abbrev pub InClass : (ℕ → Bool) → Str → Type 0
InClass q s = All (λ c. q c ≡ true) s

one-InClass :
    (q : ℕ → Bool) (c : ℕ) (u v w : Str) (d : ℕ)
    → w ≡ c ∷ (u ++ v)
    → c ∷ u ≡ d ∷ []
    → q d ≡ true
    → InClass q v
    → InClass q w
one-InClass q c [] v w d e f h k = rw e (rw (← (head_eq f)) at h, k)
  where
    head_eq : {c d : ℕ} → ◌≡◌ {A = Str} (c ∷ []) (d ∷ []) → c ≡ d
    head_eq p = cc
one-InClass q c (x ∷ u) v w d e f h k = cc

pub Rounds-InClass :
    (q : ℕ → Bool) {p : Option ℕ} {w s : Str} {cs : Caps}
    → Rounds (Lang (char q)) p w s cs
    → InClass q w × (cs ≡ [])
Rounds-InClass q (stop e k) = (rw e tt, k)
Rounds-InClass q (more c u v ca cb e k (d, f, g, h) r) =
    let (i, n) = Rounds-InClass q r in (one-InClass q c u v _ d e f h i, rw (k, n, g))

pub InClass-Rounds :
    (q : ℕ → Bool) (p : Option ℕ) (w s : Str) → InClass q w → Rounds (Lang (char q)) p w s []
InClass-Rounds q p [] s h = stop refl refl
InClass-Rounds q p (c ∷ w) s h =
    more c [] w [] [] refl refl (c, refl, refl, h.0) (InClass-Rounds q (some c) w s h.1)

-- `$` at a text with no line feed is the end of the text.
pub at_end-eq-nil : (s : Str) → Lacks b'\n' s → at_end s ≡ true → s ≡ []
at_end-eq-nil [] l h = refl
at_end-eq-nil (c ∷ []) l h = cc (l.0, h)
at_end-eq-nil (c ∷ d ∷ s) l h = cc

-- A literal matches itself and nothing else.
pub lit-word :
    (l : String) (p : Option ℕ) (w s : Str) (cs : Caps)
    → Lang (lit l) p w s cs
    → (w ≡ codes l) × (cs ≡ [])
lit-word String.[] p w s cs h = h
lit-word (String.◌∷◌ c String.[]) p w s cs (d, e, k, h) =
    (e ∙ ap (λ k. k ∷ []) ((==_iff d (code c)).0 h), k)
lit-word (String.◌∷◌ c (String.◌∷◌ k l)) p w s cs t =
    let (d, f, g, h) = t.fst_in in
    let (i, n) = lit-word (String.◌∷◌ k l) _ t.snd s t.snd_caps t.snd_in in
    (t.word_is ∙ rw f (ap₂ (λ x y. x ∷ y) ((==_iff d (code c)).0 h) i), t.caps_are ∙ rw (g, n))

pub word-lit : (l : String) (p : Option ℕ) (s : Str) → Lang (lit l) p (codes l) s []
word-lit String.[] p s = (refl, refl)
word-lit (String.◌∷◌ c String.[]) p s = (code c, refl, refl, ==_refl (code c))
word-lit (String.◌∷◌ c (String.◌∷◌ k l)) p s = record {
  fst = code c ∷ [];
  snd = codes (String.◌∷◌ k l);
  fst_caps = [];
  snd_caps = [];
  word_is = refl;
  caps_are = refl;
  fst_in = (code c, refl, refl, ==_refl (code c));
  snd_in = word-lit (String.◌∷◌ k l) (some (code c)) s;
}
