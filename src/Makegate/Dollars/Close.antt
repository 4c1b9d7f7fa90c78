-- ===== src/Makegate/Dollars/Close.antt =====
-- The inner loop of `_dollar_problems` finds the bracket that closes an expansion.
use vizra_search.Base.{
  ℕ, zero, suc, ◌+◌, ◌-◌, ◌≡◌, ap, true, false, inl, inr, Option, none, some, [], ◌∷◌, ◌++◌, arith,
  ◌==◌, Bool-cases, if◌then◌else◌, Str,
}
use vizra_search.Makegate.Dollars.Defs.{find_close, before}

-- The text has `k` closing brackets more than opening ones, and no start of it has more than that.
pub data Nest (opener close : ℕ) : ℕ → Str → Type 0 where
  flat : Nest opener close 0 []
  other :
      {k c : ℕ} {s : Str}
      → (c == opener) ≡ false
      → (c == close) ≡ false
      → Nest opener close k s
      → Nest opener close k (c ∷ s)
  up :
      {k c : ℕ} {s : Str}
      → (c == opener) ≡ true
      → Nest opener close (suc k) s
      → Nest opener close k (c ∷ s)
  down :
      {k c : ℕ} {s : Str}
      → (c == opener) ≡ false
      → (c == close) ≡ true
      → Nest opener close k s
      → Nest opener close (suc k) (c ∷ s)

before-eq-some :
    (c : ℕ) (o : Option (Str × Str)) {inner rest : Str}
    → before c o ≡ some (inner, rest)
    → (i : Str) × (o ≡ some (i, rest)) × (inner ≡ c ∷ i)
before-eq-some c none h = cc
before-eq-some c (some (i, r)) h = (i, ground arith, ground arith)

plus_one : (d : ℕ) → suc d + 1 ≡ suc (suc d)
plus_one d = omega arith

minus_one : (d : ℕ) → suc (suc d) - 1 ≡ suc d
minus_one d = omega arith

not_one : (d : ℕ) → (suc (suc d) == 1) ≡ false
not_one d = ground arith

-- What the loop found: it splits the text at a closing bracket of the expansion.
abbrev pub ClosesAt : ℕ → ℕ → ℕ → Str → Str → Str → Type 0
ClosesAt opener close d s inner rest =
    (x : ℕ) × ((x == close) ≡ true) × (s ≡ inner ++ x ∷ rest) × Nest opener close d inner

-- The branch at a closing bracket; `again` is the loop's claim for the rest of the text.
at_close :
    (opener close d c : ℕ) (s : Str) {inner rest : Str}
    → ((k : ℕ) (i : Str)
        → find_close opener close (suc k) s ≡ some (i, rest)
        → ClosesAt opener close k s i rest)
    → (if suc d == 1 then some ([], s) else before c (find_close opener close (suc d - 1) s))
      ≡ some (inner, rest)
    → (c == opener) ≡ false
    → (c == close) ≡ true
    → ClosesAt opener close d (c ∷ s) inner rest
at_close opener close zero c s {inner} {rest} again h e k =
    let f : inner ≡ [] = ground arith in
    let g : rest ≡ s = ground arith in (c, k, rw (f, g), rw f flat)
at_close opener close (suc d) c s again h e k =
    let (i, f, g) = before-eq-some c _ (rw (not_one d, minus_one d) at h) in
    let (x, xc, sp, ne) = again d i f in (x, xc, rw g (ap (λ t. c ∷ t) sp), rw g (down e k ne))

pub find_close-ClosesAt :
    (opener close d : ℕ) (s : Str) {inner rest : Str}
    → find_close opener close (suc d) s ≡ some (inner, rest)
    → ClosesAt opener close d s inner rest
unfolding find_close
find_close-ClosesAt opener close d [] h = cc
find_close-ClosesAt opener close d (c ∷ s) {inner} {rest} h = elim (Bool-cases (c == opener)) [
  | inl e ↦
      (let (i, f, g) = before-eq-some c _ (rw (e, plus_one d) at h) in
        let (x, xc, sp, ne) = find_close-ClosesAt opener close (suc d) s f in
        (x, xc, rw g (ap (λ t. c ∷ t) sp), rw g (up e ne)))
  | inr e ↦ elim (Bool-cases (c == close)) [
    | inl k ↦
        at_close opener close d c s (λ k i. find_close-ClosesAt opener close k s) (rw (e, k) at h) e
          k
    | inr k ↦
        (let (i, f, g) = before-eq-some c _ (rw (e, k) at h) in
          let (x, xc, sp, ne) = find_close-ClosesAt opener close d s f in
          (x, xc, rw g (ap (λ t. c ∷ t) sp), rw g (other e k ne)))
  ]
]

-- A closing bracket of the expansion is found, with what stands before and behind it.
pub Nest-find_close :
    (opener close x : ℕ) (rest : Str)
    → (x == close) ≡ true
    → (x == opener) ≡ false
    → {d : ℕ} {inner : Str} → Nest opener close d inner
    → find_close opener close (suc d) (inner ++ x ∷ rest) ≡ some (inner, rest)
unfolding find_close
Nest-find_close opener close x rest xc xo flat = rw (xo, xc)
Nest-find_close opener close x rest xc xo (other e k n) =
    rw (e, k) (rw (Nest-find_close opener close x rest xc xo n))
Nest-find_close opener close x rest xc xo (up e n) =
    rw (e, plus_one) (rw (Nest-find_close opener close x rest xc xo n))
Nest-find_close opener close x rest xc xo (down e k n) =
    rw (e, k, minus_one) (rw (Nest-find_close opener close x rest xc xo n) (ground arith))
