-- ===== src/Regex/Language.antt =====
-- What a pattern matches, independently of the engine: `Lang r p w s cs` says that `r` matches the word
-- `w` with the captures `cs`, where `p` is the character before it and `s` the text behind it.
use vizra_search.Base.{ℕ, ◌≡◌, true, false, ◌⊎◌, Option, [], ◌∷◌, ◌++◌, Str}
use vizra_search.Regex.Defs.{
  Caps, Regex, empty, char, seq, alt, star, group, dollar, not_behind, not_ahead, last_or, at_end,
  holds, head_char,
}

-- What relates a pattern's word to the text behind it, the character before it and the captures.
abbrev pub Relation : Type 1
Relation = Option ℕ → Str → Str → Caps → Type 0

-- Rounds of a loop, each of which takes a character.
pub data Rounds (L : Option ℕ → Str → Str → Caps → Type 0)
    : Option ℕ → Str → Str → Caps → Type 0 where
  stop : {p : Option ℕ} {w s : Str} {cs : Caps} → w ≡ [] → cs ≡ [] → Rounds L p w s cs
  more :
      {p : Option ℕ} {w s : Str} {cs : Caps} (c : ℕ) (u v : Str) (ca cb : Caps)
      → w ≡ c ∷ (u ++ v)
      → cs ≡ cb ++ ca
      → L p (c ∷ u) (v ++ s) ca
      → Rounds L (last_or p (c ∷ u)) v s cb
      → Rounds L p w s cs

-- One word after another.
pub record Then (L K : Relation) (p : Option ℕ) (w s : Str) (cs : Caps) : Type 0 where
  pub fst : Str
  pub snd : Str
  pub fst_caps : Caps
  pub snd_caps : Caps
  pub word_is : w ≡ fst ++ snd
  pub caps_are : cs ≡ snd_caps ++ fst_caps
  pub fst_in : L p fst (snd ++ s) fst_caps
  pub snd_in : K (last_or p fst) snd s snd_caps

abbrev pub Lang : Regex → Relation
Lang empty p w s cs = (w ≡ []) × (cs ≡ [])
Lang (char q) p w s cs = (c : ℕ) × (w ≡ c ∷ []) × (cs ≡ []) × (q c ≡ true)
Lang (seq a b) p w s cs = Then (Lang a) (Lang b) p w s cs
Lang (alt a b) p w s cs = Lang a p w s cs ⊎ Lang b p w s cs
Lang (star a) p w s cs = Rounds (Lang a) p w s cs
Lang (group n a) p w s cs = (ca : Caps) × (cs ≡ ca ++ (n, w) ∷ []) × Lang a p w s ca
Lang dollar p w s cs = (w ≡ []) × (cs ≡ []) × (at_end s ≡ true)
Lang (not_behind q) p w s cs = (w ≡ []) × (cs ≡ []) × (holds q p ≡ false)
Lang (not_ahead q) p w s cs = (w ≡ []) × (cs ≡ []) × (holds q (head_char s) ≡ false)
