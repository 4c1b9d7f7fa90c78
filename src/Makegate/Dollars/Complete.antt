-- ===== src/Makegate/Dollars/Complete.antt =====
-- The converse of Exact: on a text that `Allowed` describes `_dollar_problems` reports nothing.
use vizra_search.Base.{
  ℕ, zero, suc, ◌≤◌, ◌≡◌, ◌≢◌, refl, ap, Bool, true, false, inl, inr, none, List, [], ◌∷◌, ◌++◌,
  arith, ◌==◌, ==_refl, Bool-cases, Str, codes, str_eq, str_eq_iff, is_blank, length, length-append,
}
use vizra_search.Regex.{does_match, Lang-does_match, word-lit, InClass}
use vizra_search.Makegate.Patterns.{
  g_ident_re, shell_call_re, is_bracket, closing, name_char, name_start,
}
use vizra_search.Makegate.Patterns.Shapes.{IsIdent, IsIdent-ident}
use vizra_search.Makegate.Dollars.Defs.{
  DollarProblem, expansion_problems, after_close, dollar_loop, plain_problems, dollar_problems,
}
use vizra_search.Makegate.Dollars.Close.{Nest, flat, other, Nest-find_close}
use vizra_search.Makegate.Dollars.Language.{Allowed, done, plain, escaped, reference, shell_call}
use vizra_search.Makegate.Dollars.Exact.{Nest-append, shell-HasNoBracket}

name_char-bracket :
    (b c : ℕ)
    → is_bracket b ≡ true
    → name_char c ≡ true
    → ((c == b) ≡ false) × ((c == closing b) ≡ false)
name_char-bracket b c h k = ground arith

InClass-Nest :
    (b : ℕ) (s : Str) → is_bracket b ≡ true → InClass name_char s → Nest b (closing b) 0 s
InClass-Nest b [] h k = flat
InClass-Nest b (c ∷ s) h k =
    let (e, f) = name_char-bracket b c h k.0 in other e f (InClass-Nest b s h k.1)

IsIdent-Nest : (b : ℕ) (s : Str) → is_bracket b ≡ true → IsIdent s → Nest b (closing b) 0 s
IsIdent-Nest b [] h k = absurd k
IsIdent-Nest b (c ∷ s) h k = InClass-Nest b (c ∷ s) h (start k.0, k.1)
  where
    start : name_start c ≡ true → name_char c ≡ true
    start p = rw p

closing-ne-bracket : (b : ℕ) → is_bracket b ≡ true → (closing b == b) ≡ false
closing-ne-bracket b h = ground arith

bracket-ne-dollar : (b : ℕ) → is_bracket b ≡ true → (b == b'$') ≡ false
bracket-ne-dollar b h = ground arith

module _ (shell : Str → List DollarProblem) (allow : Bool) where
  loop-nil : (fuel : ℕ) → dollar_loop shell allow fuel [] ≡ []
  unfolding dollar_loop
  loop-nil zero = refl
  loop-nil (suc fuel) = refl

  loop_plain :
      (fuel c : ℕ) (s : Str)
      → (c == b'$') ≡ false
      → dollar_loop shell allow fuel s ≡ []
      → dollar_loop shell allow (suc fuel) (c ∷ s) ≡ []
  unfolding dollar_loop
  loop_plain fuel c [] e h = rw e
  loop_plain fuel c (x ∷ s) e h = rw e h

  loop_escaped :
      (fuel : ℕ) (s : Str)
      → dollar_loop shell allow fuel s ≡ []
      → dollar_loop shell allow (suc fuel) (b'$' ∷ b'$' ∷ s) ≡ []
  unfolding dollar_loop
  loop_escaped fuel s h = h

  loop_expansion :
      (fuel nxt : ℕ) (s inner : Str)
      → is_bracket nxt ≡ true
      → Nest nxt (closing nxt) 0 inner
      → expansion_problems shell allow nxt inner (b'$' ∷ nxt ∷ (inner ++ closing nxt ∷ [])) ≡ []
      → dollar_loop shell allow fuel s ≡ []
      → dollar_loop shell allow (suc fuel) (b'$' ∷ nxt ∷ (inner ++ closing nxt ∷ s)) ≡ []
  unfolding dollar_loop
  loop_expansion fuel nxt s inner b n e h =
      let found =
        Nest-find_close nxt (closing nxt) (closing nxt) s (==_refl (closing nxt))
          (closing-ne-bracket nxt b) n in
      rw (bracket-ne-dollar nxt b, b) (rw (found, after_close) (rw (e, h)))

  reference-expansion :
      (nxt : ℕ) (name whole : Str)
      → IsIdent name
      → name ≢ codes "MAKE"
      → expansion_problems shell allow nxt name whole ≡ []
  unfolding expansion_problems
  reference-expansion nxt name whole i ne = elim (Bool-cases (str_eq name (codes "MAKE"))) [
    | inl e ↦ absurd (ne ((str_eq_iff name (codes "MAKE")).0 e))
    | inr e ↦ rw (IsIdent-ident name i, e)
  ]

  shell_call-expansion :
      (blank : ℕ) (body whole : Str)
      → allow ≡ true
      → is_blank blank ≡ true
      → shell body ≡ []
      → expansion_problems shell allow b'(' (codes "shell" ++ blank ∷ body) whole ≡ []
  unfolding expansion_problems
  shell_call-expansion k body whole al kb ok =
      let called : does_match shell_call_re (codes "shell" ++ k ∷ body) ≡ true =
        Lang-does_match shell_call_re (codes "shell" ++ k ∷ []) body [] (record {
          fst = codes "shell";
          snd = k ∷ [];
          fst_caps = [];
          snd_caps = [];
          word_is = refl;
          caps_are = refl;
          fst_in = word-lit "shell" none (k ∷ body);
          snd_in = (k, refl, refl, kb);
        }) in
      elim (Bool-cases (does_match g_ident_re (codes "shell" ++ k ∷ body))) [
        | inl e ↦ rw e refl
        | inr e ↦ rw (e, al, called) ok
      ]

  Allowed-dollar_loop :
      ((b : Str) → Allowed false b → shell b ≡ [])
      → (fuel : ℕ) {text : Str} → length text ≤ fuel
      → Allowed allow text
      → dollar_loop shell allow fuel text ≡ []
  Allowed-dollar_loop sh fuel f done = loop-nil fuel
  Allowed-dollar_loop sh zero f (plain e a) = absurd (omega arith)
  Allowed-dollar_loop sh (suc fuel) f (plain {c = c} {s = s} e a) =
      loop_plain fuel c s e (Allowed-dollar_loop sh fuel (omega arith) a)
  Allowed-dollar_loop sh zero f (escaped e a) = absurd (omega (arith, ap (length {A = ℕ}) e))
  Allowed-dollar_loop sh (suc fuel) f (escaped e a) =
      rw e
        (loop_escaped fuel _ (Allowed-dollar_loop sh fuel (omega (arith, ap (length {A = ℕ}) e)) a))
  Allowed-dollar_loop sh zero f (reference b n bb i ne e a) =
      absurd (omega (arith, ap (length {A = ℕ}) e))
  Allowed-dollar_loop sh (suc fuel) f (reference {s = s} b n bb i ne e a) = rw e (
      loop_expansion fuel b s n bb (IsIdent-Nest b n bb i) (reference-expansion b n _ i ne) (
        Allowed-dollar_loop sh fuel
          (omega (arith, ap (length {A = ℕ}) e, length-append n (closing b ∷ s))) a))
  Allowed-dollar_loop sh zero f (shell_call k body al kb bal ok e a) =
      absurd (omega (arith, ap (length {A = ℕ}) e))
  Allowed-dollar_loop sh (suc fuel) f (shell_call {s = s} k body al kb bal ok e a) = rw e (
      loop_expansion fuel b'(' s (codes "shell" ++ k ∷ body) refl
        (Nest-append b'(' b')' (codes "shell" ++ k ∷ []) body (shell-HasNoBracket k kb) bal)
        (shell_call-expansion k body _ al kb (sh body ok))
        (Allowed-dollar_loop sh fuel
          (omega (arith, ap (length {A = ℕ}) e, length-append body (b')' ∷ s))) a))

Allowed-plain_problems : (text : Str) → Allowed false text → plain_problems text ≡ []
unfolding plain_problems
Allowed-plain_problems text a =
    Allowed-dollar_loop (λ s. []) false (λ b _. refl) (length text) (omega arith) a

-- On a text that the grammar of allowed expansions describes _dollar_problems reports nothing.
pub Allowed-dollar_problems :
    (text : Str) (allow_shell : Bool)
    → Allowed allow_shell text
    → dollar_problems text allow_shell ≡ []
unfolding dollar_problems
Allowed-dollar_problems text true a =
    Allowed-dollar_loop plain_problems true Allowed-plain_problems (length text) (omega arith) a
Allowed-dollar_problems text false a = Allowed-plain_problems text a
