-- ===== src/Makegate/Dollars/Exact.antt =====
-- `_dollar_problems` reports nothing exactly on the texts that `Allowed` describes.
use vizra_search.Base.{
  ℕ, zero, suc, ◌≤◌, ◌≡◌, ◌≢◌, refl, ap, sym, ◌∙◌, Bool, true, false, ◌&&◌, ◌⊎◌, inl, inr, none,
  List, [], ◌∷◌, ◌++◌, arith, ◌==◌, ==_iff, Bool-cases, Option-cases, All, All-append_left,
  All-append_right, append-eq-nil_left, append-eq-nil_right, Lacks, Str, codes, str_eq, str_eq_iff,
  is_blank, length, length-append, drop, All-drop, subst,
}
use vizra_search.Regex.{does_match, does_match-Lang, lit-word}
use vizra_search.Makegate.Patterns.{g_ident_re, shell_call_re, is_bracket, closing}
use vizra_search.Makegate.Patterns.Shapes.{IsIdent, name_re-IsIdent}
use vizra_search.Makegate.Dollars.Defs.{
  DollarProblem, find_close, expansion_problems, after_close, dollar_loop, plain_problems,
  dollar_problems,
}
use vizra_search.Makegate.Dollars.Close.{Nest, flat, other, up, down, find_close-ClosesAt}
use vizra_search.Makegate.Dollars.Language.{Allowed, done, plain, escaped, reference, shell_call}

-- `shell`, a blank, and the text of the call.
abbrev IsShellCall : Str → Str → Type 0
IsShellCall inner body =
    (blank : ℕ) × (is_blank blank ≡ true) × (inner ≡ codes "shell" ++ blank ∷ body)

call_shape_lem :
    (inner : Str) → does_match shell_call_re inner ≡ true → IsShellCall inner (drop 6 inner)
call_shape_lem inner h =
    let (m, _, e, t) = does_match-Lang shell_call_re inner h in
    let (c, g, _, k) = t.snd_in in
    let word : m.word ≡ codes "shell" ++ c ∷ [] =
      t.word_is
      ∙ ap (λ x. x ++ t.snd) (lit-word "shell" none t.fst (t.snd ++ m.rest) t.fst_caps t.fst_in).0
      ∙ ap (λ x. codes "shell" ++ x) g in
    let shape : inner ≡ codes "shell" ++ c ∷ m.rest = e ∙ ap (λ x. x ++ m.rest) word in
    (c, k, shape ∙ ap (λ x. codes "shell" ++ c ∷ drop 6 x) (sym shape))

-- What an expansion with no problem is.
abbrev IsFine : (Str → List DollarProblem) → Bool → ℕ → Str → Type 0
IsFine shell allow nxt inner =
    (IsIdent inner × (inner ≢ codes "MAKE"))
    ⊎ ((allow ≡ true)
        × ((nxt == b'(') ≡ true)
        × IsShellCall inner (drop 6 inner)
        × (shell (drop 6 inner) ≡ []))

expansion-IsFine :
    (shell : Str → List DollarProblem) (allow : Bool) (nxt : ℕ) (inner whole : Str)
    → Lacks b'\n' inner
    → expansion_problems shell allow nxt inner whole ≡ []
    → IsFine shell allow nxt inner
unfolding expansion_problems
expansion-IsFine shell allow nxt inner whole l h = elim (Bool-cases (does_match g_ident_re inner)) [
  | inl e ↦ elim (Bool-cases (str_eq inner (codes "MAKE"))) [
    | inl k ↦ cc (rw (e, k) at h)
    | inr k ↦ inl (name_re-IsIdent inner l e, λ q. cc ((str_eq_iff inner (codes "MAKE")).1 q))
  ]
  | inr e ↦ elim (Bool-cases (allow && nxt == b'(' && does_match shell_call_re inner)) [
    | inl k ↦ inr (ground arith, ground arith, call_shape_lem inner (ground arith), rw (e, k) at h)
    | inr k ↦ cc (rw (e, k) at h)
  ]
]

-- Text without brackets in front does not change how brackets nest.
abbrev pub HasNoBracket : ℕ → ℕ → Str → Type 0
HasNoBracket o x s = All (λ c. ((c == o) ≡ false) × ((c == x) ≡ false)) s

Nest-of_append :
    (o x : ℕ) {k : ℕ} (pre s : Str) → HasNoBracket o x pre → Nest o x k (pre ++ s) → Nest o x k s
Nest-of_append o x [] s h n = n
Nest-of_append o x (c ∷ pre) s h n = Nest-of_append o x pre s h.1 (tail n refl)
  where
    tail : {k : ℕ} {t : Str} → Nest o x k t → t ≡ c ∷ (pre ++ s) → Nest o x k (pre ++ s)
    tail flat e = cc
    tail (other {k = k} {c = d} {s = u} i j n) e = let f : u ≡ pre ++ s = ground arith in rw f at n
    tail (up {c = d} i n) e = let f : d ≡ c = ground arith in cc (h.0.0, rw f at i)
    tail (down {c = d} i j n) e = let f : d ≡ c = ground arith in cc (h.0.1, rw f at j)

pub Nest-append :
    (o x : ℕ) {k : ℕ} (pre s : Str) → HasNoBracket o x pre → Nest o x k s → Nest o x k (pre ++ s)
Nest-append o x [] s h n = n
Nest-append o x (c ∷ pre) s h n = other h.0.0 h.0.1 (Nest-append o x pre s h.1 n)

pub shell-HasNoBracket :
    (blank : ℕ) → is_blank blank ≡ true → HasNoBracket b'(' b')' (codes "shell" ++ blank ∷ [])
shell-HasNoBracket b h =
    let no : (false ≡ false) × (false ≡ false) = (refl, refl) in
    (no, (no, (no, (no, (no, ((ground arith, ground arith), tt))))))

module _ (shell : Str → List DollarProblem) (allow : Bool)
    (shell_Allowed : allow ≡ true
      → (b : Str) → Lacks b'\n' b
      → shell b ≡ []
      → Allowed false b) where
  -- One expansion that has no problem, with an allowed text behind it.
  expansion-Allowed :
      (nxt x : ℕ) (s inner rest : Str)
      → Lacks b'\n' inner
      → is_bracket nxt ≡ true
      → (x == closing nxt) ≡ true
      → s ≡ inner ++ x ∷ rest
      → Nest nxt (closing nxt) 0 inner
      → IsFine shell allow nxt inner
      → Allowed allow rest
      → Allowed allow (b'$' ∷ nxt ∷ s)
  expansion-Allowed nxt x s inner rest l b xc e n (inl (i, ne)) a =
      reference nxt inner b i ne (rw (e, (==_iff x (closing nxt)).0 xc)) a
  expansion-Allowed nxt x s inner rest l b xc e n (inr (al, p, (k, kb, sh), ok)) a =
      let paren : nxt ≡ b'(' = (==_iff nxt b'(').0 p in
      let body = drop 6 inner in
      let closer : x ≡ b')' = (==_iff x (closing nxt)).0 xc ∙ ap closing paren in
      let nested : Nest b'(' b')' 0 (codes "shell" ++ k ∷ body) =
        subst (Nest b'(' b')' 0) sh (subst (λ y. Nest y (closing y) 0 inner) paren n) in
      shell_call k body al kb
        (Nest-of_append b'(' b')' (codes "shell" ++ k ∷ []) body (shell-HasNoBracket k kb) nested)
        (shell_Allowed al body (All-drop _ 6 inner l) ok)
        (rw (paren, e, closer) (ap (λ y. b'$' ∷ b'(' ∷ (y ++ b')' ∷ rest)) sh)) a

  -- The same, at what the inner loop returned.
  after_close-Allowed :
      (nxt : ℕ) (s : Str) (again : Str → List DollarProblem)
      → Lacks b'\n' s
      → is_bracket nxt ≡ true
      → ((rest : Str)
          → Lacks b'\n' rest
          → length rest ≤ length s
          → again rest ≡ []
          → Allowed allow rest)
      → after_close shell allow nxt s again (find_close nxt (closing nxt) 1 s) ≡ []
      → Allowed allow (b'$' ∷ nxt ∷ s)
  unfolding after_close
  after_close-Allowed nxt s again l b later h =
      elim (Option-cases (find_close nxt (closing nxt) 1 s)) [
        | inl e ↦ cc (rw (e, after_close) at h)
        | inr ((inner, rest), e) ↦
            let found = find_close-ClosesAt nxt (closing nxt) 0 s e in
            let (x, xc, sp, n) = found in
            let both : expansion_problems shell allow nxt inner
                    (b'$' ∷ nxt ∷ (inner ++ closing nxt ∷ []))
                  ++ again rest
                ≡ [] =
              rw (e, after_close) at h in
            let li : Lacks b'\n' inner = All-append_left _ inner (x ∷ rest) (rw sp at l) in
            let lr : Lacks b'\n' (x ∷ rest) = All-append_right _ inner (x ∷ rest) (rw sp at l) in
            expansion-Allowed nxt x s inner rest li b xc sp n
              (expansion-IsFine shell allow nxt inner (b'$' ∷ nxt ∷ (inner ++ closing nxt ∷ [])) li
                (append-eq-nil_left _ (again rest) both))
              (later rest lr.1
                (omega (arith, ap (length {A = ℕ}) sp, length-append inner (x ∷ rest)))
                (append-eq-nil_right
                  (expansion_problems shell allow nxt inner
                    (b'$' ∷ nxt ∷ (inner ++ closing nxt ∷ [])))
                  (again rest) both))
      ]

  dollar_loop-Allowed :
      (fuel : ℕ) (text : Str)
      → Lacks b'\n' text
      → length text ≤ fuel
      → dollar_loop shell allow fuel text ≡ []
      → Allowed allow text
  unfolding dollar_loop
  dollar_loop-Allowed zero [] l f h = done
  dollar_loop-Allowed zero (c ∷ s) l f h = absurd (omega arith)
  dollar_loop-Allowed (suc fuel) [] l f h = done
  dollar_loop-Allowed (suc fuel) (c ∷ []) l f h = elim (Bool-cases (c == b'$')) [
    | inl e ↦ cc (rw e at h)
    | inr e ↦ plain e done
  ]
  dollar_loop-Allowed (suc fuel) (c ∷ nxt ∷ s) l f h = elim (Bool-cases (c == b'$')) [
    | inr e ↦ plain e (dollar_loop-Allowed fuel (nxt ∷ s) l.1 (omega arith) (rw e at h))
    | inl e ↦
        let dollar : c ≡ b'$' = (==_iff c b'$').0 e in
        elim (Bool-cases (nxt == b'$')) [
          | inl k ↦
              escaped (rw (dollar, (==_iff nxt b'$').0 k))
                (dollar_loop-Allowed fuel s l.1.1 (omega arith) (rw (e, k) at h))
          | inr k ↦ elim (Bool-cases (is_bracket nxt)) [
            | inr b ↦ cc (rw (e, k, b) at h)
            | inl b ↦ rw dollar (
                after_close-Allowed nxt s (dollar_loop shell allow fuel) l.1.1 b
                  (λ rest lr le ok. dollar_loop-Allowed fuel rest lr (omega arith) ok)
                  (rw (e, k, b) at h))
          ]
        ]
  ]

pub plain_problems-Allowed :
    (text : Str) → Lacks b'\n' text → plain_problems text ≡ [] → Allowed false text
unfolding plain_problems
plain_problems-Allowed text l h =
    dollar_loop-Allowed (λ s. []) false (λ e. cc) (length text) text l (omega arith) h

-- A text without line feed for which _dollar_problems reports nothing uses `$` only as the grammar
-- of allowed expansions says.
pub dollar_problems-Allowed :
    (text : Str) (allow_shell : Bool)
    → Lacks b'\n' text
    → dollar_problems text allow_shell ≡ []
    → Allowed allow_shell text
unfolding dollar_problems
dollar_problems-Allowed text true l h =
    dollar_loop-Allowed plain_problems true (λ _. plain_problems-Allowed) (length text) text l
      (omega arith) h
dollar_problems-Allowed text false l h = plain_problems-Allowed text l h
