-- ===== src/MakeIntegrity/Reached.antt =====
-- The closure has no target that the seeds do not reach.
use vizra_search.Base.{
  ℕ, zero, suc, ◌+◌, ◌≡◌, refl, sym, ◌∙◌, subst, inl, inr, some, Option-some, List, [], ◌∷◌, ◌++◌,
  Bool-cases, length, Str, mem_str, In, here, there, All, All-append,
}
use vizra_search.Makegate.Lines.{LogicalLine}
use vizra_search.MakeIntegrity.Closure.{
  Table, deps_of, fresh, closure_loop, enough, read_rules, prerequisite_closure,
}
use vizra_search.MakeIntegrity.Closed.{loop_ends}

-- A seed, or a prerequisite of a target that is reached.
pub data Reached (table : Table) (seeds : List Str) : Str → Type 0 where
  seed : {t : Str} → In t seeds → Reached table seeds t
  prerequisite :
      {t : Str} (s : Str) → Reached table seeds s → In t (deps_of s table) → Reached table seeds t

All-In : (P : Str → Type 0) (xs : List Str) → ((x : Str) → In x xs → P x) → All P xs
All-In P [] h = tt
All-In P (x ∷ xs) h = (h x (here refl), All-In P xs (λ y i. h y (there i)))

All-fresh : (P : Str → Type 0) (out deps : List Str) → All P deps → All P (fresh out deps)
unfolding fresh
All-fresh P out [] h = tt
All-fresh P out (d ∷ deps) h = elim (Bool-cases (mem_str d out)) [
  | inl e ↦ rw e (All-fresh P out deps h.1)
  | inr e ↦ rw e (h.0, All-fresh P out deps h.1)
]

closure_loop-Reached :
    (fuel : ℕ) (table : Table) (seeds out queue r : List Str)
    → closure_loop fuel table out queue ≡ some r
    → All (Reached table seeds) out
    → All (Reached table seeds) queue
    → All (Reached table seeds) r
unfolding closure_loop
closure_loop-Reached fuel table seeds out [] r e o q =
    subst (All (Reached table seeds)) (Option-some (sym (loop_ends fuel table out) ∙ e)) o
closure_loop-Reached zero table seeds out (t ∷ queue) r e o q = cc
closure_loop-Reached (suc fuel) table seeds out (t ∷ queue) r e o q =
    elim (Bool-cases (mem_str t out)) [
      | inl m ↦ closure_loop-Reached fuel table seeds out queue r (rw m at e) o q.1
      | inr m ↦
          let P = Reached table seeds in
          closure_loop-Reached fuel table seeds (out ++ t ∷ [])
            (queue ++ fresh (out ++ t ∷ []) (deps_of t table)) r (rw m at e)
            (All-append P out (t ∷ []) o (q.0, tt))
            (All-append P queue _ q.1 (
              All-fresh P (out ++ t ∷ []) (deps_of t table)
                (All-In P (deps_of t table) (λ d i. prerequisite t q.0 i))))
    ]

-- Every target that prerequisite_closure returns is a seed, or is reached from one through the
-- prerequisites that the rule lines give.
pub prerequisite_closure-Reached :
    (lines : List LogicalLine) (seeds r : List Str)
    → prerequisite_closure lines seeds ≡ some r
    → All (Reached (read_rules lines []) seeds) r
unfolding prerequisite_closure
prerequisite_closure-Reached lines seeds r e =
    closure_loop-Reached (length seeds + enough (read_rules lines [])) (read_rules lines []) seeds
      [] seeds r e tt (All-In (Reached (read_rules lines []) seeds) seeds (λ s i. seed i))
