-- ===== src/MakeIntegrity/Closed.antt =====
-- The closure has the seeds, and with a target all its prerequisites.
use vizra_search.Base.{
  ℕ, zero, suc, ◌+◌, ◌≡◌, refl, ap, sym, ◌∙◌, subst, true, ◌||◌, inl, inr, some, Option-some, List,
  [], ◌∷◌, ◌++◌, arith, Bool-cases, length, Str, str_eq, str_eq_iff, str_eq_refl, mem_str, In, here,
  there,
}
use vizra_search.Makegate.Lines.{LogicalLine}
use vizra_search.MakeIntegrity.Closure.{
  Table, deps_of, fresh, closure_loop, enough, read_rules, prerequisite_closure,
}
use vizra_search.MakeIntegrity.Total.{mem_str-append, mem_str-snoc, closure_loop_total, left-enough}

-- `d` was taken or waits.
abbrev IsKnown : List Str → List Str → Str → Type 0
IsKnown out queue d = (mem_str d out || mem_str d queue) ≡ true

-- Every prerequisite of a target that was taken was taken or waits.
abbrev Invariant : Table → List Str → List Str → Type 0
Invariant table out queue =
    (t d : Str) → mem_str t out ≡ true → In d (deps_of t table) → IsKnown out queue d

mem_str-fresh :
    (d : Str) (out deps : List Str)
    → In d deps
    → (mem_str d out || mem_str d (fresh out deps)) ≡ true
unfolding fresh mem_str
mem_str-fresh d out [] i = elim i [ ]
mem_str-fresh d out (e ∷ deps) (here q) = elim (Bool-cases (mem_str e out)) [
  | inl m ↦ rw (q, m) refl
  | inr m ↦ rw (q, m, str_eq_refl e) refl
]
mem_str-fresh d out (e ∷ deps) (there i) = ground (arith, mem_str-fresh d out deps i)

-- Skipping a target that was taken keeps what is known.
IsKnown-skipped :
    (out queue : List Str) (t d : Str)
    → mem_str t out ≡ true
    → IsKnown out (t ∷ queue) d
    → IsKnown out queue d
unfolding mem_str
IsKnown-skipped out queue t d m k = elim (Bool-cases (str_eq d t)) [
  | inl e ↦ rw (ap (λ x. mem_str x out) ((str_eq_iff d t).0 e) ∙ m) refl
  | inr e ↦ rw e at k
]

-- And taking it.
IsKnown-taken :
    (out queue new : List Str) (t d : Str)
    → IsKnown out (t ∷ queue) d
    → IsKnown (out ++ t ∷ []) (queue ++ new) d
unfolding mem_str
IsKnown-taken out queue new t d k = ground (arith, mem_str-snoc d t out, mem_str-append d queue new)

Invariant-taken :
    (table : Table) (out queue : List Str) (t : Str)
    → Invariant table out (t ∷ queue)
    → Invariant table (out ++ t ∷ []) (queue ++ fresh (out ++ t ∷ []) (deps_of t table))
Invariant-taken table out queue t inv s d m i =
    let new = fresh (out ++ t ∷ []) (deps_of t table) in
    elim (Bool-cases (mem_str s out)) [
      | inl k ↦ IsKnown-taken out queue new t d (inv s d k i)
      | inr k ↦
          let same = (str_eq_iff s t).0 (ground (arith, mem_str-snoc s t out)) in
          let found =
            mem_str-fresh d (out ++ t ∷ []) (deps_of t table)
              (subst (λ x. In d (deps_of x table)) same i) in
          ground (arith, mem_str-append d queue new)
    ]

-- A list that holds with each target all its prerequisites.
abbrev pub IsClosed : Table → List Str → Type 0
IsClosed table r = (t d : Str) → mem_str t r ≡ true → In d (deps_of t table) → mem_str d r ≡ true

taken_only : (out : List Str) (d : Str) → IsKnown out [] d → mem_str d out ≡ true
unfolding mem_str
taken_only out d k = ground arith

pub loop_ends :
    (fuel : ℕ) (table : Table) (out : List Str) → closure_loop fuel table out [] ≡ some out
unfolding closure_loop
loop_ends zero table out = refl
loop_ends (suc fuel) table out = refl

closure_loop-IsClosed :
    (fuel : ℕ) (table : Table) (out queue r : List Str)
    → closure_loop fuel table out queue ≡ some r
    → Invariant table out queue
    → IsClosed table r × ((d : Str) → IsKnown out queue d → mem_str d r ≡ true)
unfolding closure_loop mem_str
closure_loop-IsClosed fuel table out [] r e inv =
    subst (λ x. IsClosed table x × ((d : Str) → IsKnown out [] d → mem_str d x ≡ true))
      (Option-some (sym (loop_ends fuel table out) ∙ e))
      ((λ t d m i. taken_only out d (inv t d m i)), λ d k. taken_only out d k)
closure_loop-IsClosed zero table out (t ∷ queue) r e inv = cc
closure_loop-IsClosed (suc fuel) table out (t ∷ queue) r e inv = elim (Bool-cases (mem_str t out)) [
  | inl m ↦
      let (closed, all) =
        closure_loop-IsClosed fuel table out queue r (rw m at e)
          (λ s d k i. IsKnown-skipped out queue t d m (inv s d k i)) in
      (closed, λ d k. all d (IsKnown-skipped out queue t d m k))
  | inr m ↦
      let new = fresh (out ++ t ∷ []) (deps_of t table) in
      let (closed, all) =
        closure_loop-IsClosed fuel table (out ++ t ∷ []) (queue ++ new) r (rw m at e)
          (Invariant-taken table out queue t inv) in
      (closed, λ d k. all d (IsKnown-taken out queue new t d k))
]

-- prerequisite_closure returns for all lines and seeds, and its result holds every seed and with
-- each target every prerequisite that the rule lines give it.
pub prerequisite_closure-IsClosed :
    (lines : List LogicalLine) (seeds : List Str)
    → (r : List Str) × (prerequisite_closure lines seeds ≡ some r)
      × IsClosed (read_rules lines []) r
      × ((s : Str) → mem_str s seeds ≡ true → mem_str s r ≡ true)
unfolding prerequisite_closure
prerequisite_closure-IsClosed lines seeds =
    let table = read_rules lines [] in
    let fuel = length seeds + enough table in
    let (r, e) = closure_loop_total fuel table [] seeds (omega (arith, left-enough table)) in
    let (closed, all) =
      closure_loop-IsClosed fuel table [] seeds r e (λ t d m i. unfold mem_str in cc) in
    (r, e, closed, λ s m. all s m)
