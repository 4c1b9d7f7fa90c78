-- ===== src/Base/Chars.antt =====
-- A predicate of every character survives the operations on texts.
use Prim.Native.Nat.{ℕ, zero, suc}
use mathlib.Core.Path.{◌≡◌, refl, sym, ap, ap₂, ◌∙◌}
use mathlib.Core.Logic.{◌≢◌, inl, inr}
use mathlib.Core.List.{List, [], ◌∷◌}
use mathlib.Core.Bool.{Bool, false}
use vizra_search.Base.Tests.{Bool-cases, ◌==◌, ==_iff}
use vizra_search.Base.Lists.{All, drop}
use vizra_search.Base.Text.{Str, lstrip, but_last, split_on, cons_head, join_with}

module _ {κ} (P : ℕ → Type κ) where
  pub All-drop : (n : ℕ) (s : Str) → All P s → All P (drop n s)
  All-drop zero s h = h
  All-drop (suc n) [] h = h
  All-drop (suc n) (c ∷ s) h = All-drop n s h.1

  pub All-lstrip : (q : ℕ → Bool) (s : Str) → All P s → All P (lstrip q s)
  unfolding lstrip
  All-lstrip q [] h = h
  All-lstrip q (c ∷ s) h = elim (Bool-cases (q c)) [
    | inl e ↦ rw e (All-lstrip q s h.1)
    | inr e ↦ rw e h
  ]

  pub All-but_last : (s : Str) → All P s → All P (but_last s)
  unfolding but_last
  All-but_last [] h = tt
  All-but_last (c ∷ []) h = tt
  All-but_last (c ∷ d ∷ s) h = (h.0, All-but_last (d ∷ s) h.1)

-- The text has no `c`.
abbrev pub Lacks : ℕ → Str → Type 0
Lacks c s = All (λ d. (d == c) ≡ false) s

Lacks-cons_head :
    (sep c : ℕ) (ws : List Str)
    → (c == sep) ≡ false
    → All (Lacks sep) ws
    → All (Lacks sep) (cons_head c ws)
Lacks-cons_head sep c [] e h = ((e, tt), tt)
Lacks-cons_head sep c (w ∷ ws) e h = ((e, h.0), h.1)

pub split_on-Lacks : (sep : ℕ) (s : Str) → All (Lacks sep) (split_on sep s)
unfolding split_on
split_on-Lacks sep [] = (tt, tt)
split_on-Lacks sep (c ∷ s) = elim (Bool-cases (c == sep)) [
  | inl e ↦ rw e (tt, split_on-Lacks sep s)
  | inr e ↦ rw e (Lacks-cons_head sep c _ e (split_on-Lacks sep s))
]

join-cons_head :
    (sep c : ℕ) (ws : List Str) → ws ≢ [] → join_with sep (cons_head c ws) ≡ c ∷ join_with sep ws
unfolding join_with
join-cons_head sep c [] h = absurd (h refl)
join-cons_head sep c (w ∷ []) h = refl
join-cons_head sep c (w ∷ v ∷ vs) h = refl

join-cons_nil :
    (sep : ℕ) (ws : List Str) → ws ≢ [] → join_with sep ([] ∷ ws) ≡ sep ∷ join_with sep ws
unfolding join_with
join-cons_nil sep [] h = absurd (h refl)
join-cons_nil sep (w ∷ ws) h = refl

cons_head-ne-nil : (c : ℕ) (ws : List Str) → cons_head c ws ≢ []
cons_head-ne-nil c [] = λ e. cc
cons_head-ne-nil c (w ∷ ws) = λ e. cc

split_on-ne-nil : (sep : ℕ) (s : Str) → split_on sep s ≢ []
unfolding split_on
split_on-ne-nil sep [] = λ e. cc
split_on-ne-nil sep (c ∷ s) = elim (Bool-cases (c == sep)) [
  | inl e ↦ rw e (λ k. cc)
  | inr e ↦ rw e (cons_head-ne-nil c _)
]

-- Joining what `split` returned gives the text back.
pub join-split_on : (sep : ℕ) (s : Str) → join_with sep (split_on sep s) ≡ s
unfolding split_on
join-split_on sep [] = unfold join_with in refl
join-split_on sep (c ∷ s) = elim (Bool-cases (c == sep)) [
  | inl e ↦ rw e (
      join-cons_nil sep _ (split_on-ne-nil sep s)
      ∙ ap₂ (λ d t. d ∷ t) (sym ((==_iff c sep).0 e)) (join-split_on sep s))
  | inr e ↦
      rw e (join-cons_head sep c _ (split_on-ne-nil sep s) ∙ ap (λ t. c ∷ t) (join-split_on sep s))
]
