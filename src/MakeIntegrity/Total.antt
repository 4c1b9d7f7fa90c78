-- ===== src/MakeIntegrity/Total.antt =====
-- The queue of `prerequisite_closure` empties.
use vizra_search.Base.{
  ℕ, zero, suc, ◌+◌, ◌≤◌, ◌≡◌, refl, sym, false, ◌||◌, inl, inr, some, List, [], ◌∷◌, ◌++◌, arith,
  Bool-cases, if◌then◌else◌, length, length-append, Str, str_eq, str_eq_iff, str_eq_refl, mem_str,
}
use vizra_search.MakeIntegrity.Closure.{Table, deps_of, fresh, closure_loop, enough}

-- What the targets that are not in `out` yet can still queue.
pub left : List Str → Table → ℕ
left out [] = 0
left out ((t, deps) ∷ table) = (if mem_str t out then 0 else length deps) + left out table

pub mem_str-append :
    (k : Str) (xs ys : List Str) → mem_str k (xs ++ ys) ≡ (mem_str k xs || mem_str k ys)
unfolding mem_str
mem_str-append k [] ys = refl
mem_str-append k (x ∷ xs) ys = ground (arith, mem_str-append k xs ys)

pub mem_str-snoc :
    (k t : Str) (xs : List Str) → mem_str k (xs ++ t ∷ []) ≡ (mem_str k xs || str_eq k t)
unfolding mem_str
mem_str-snoc k t [] = ground arith
mem_str-snoc k t (x ∷ xs) = ground (arith, mem_str-snoc k t xs)

left_mono : (out : List Str) (t : Str) (table : Table) → left (out ++ t ∷ []) table ≤ left out table
unfolding left
left_mono out t [] = omega arith
left_mono out t ((k, deps) ∷ table) = ground (arith, left_mono out t table, mem_str-snoc k t out)

length-fresh : (out deps : List Str) → length (fresh out deps) ≤ length deps
unfolding fresh
length-fresh out [] = omega arith
length-fresh out (d ∷ deps) = ground (arith, length-fresh out deps)

left_same :
    (out : List Str) (t : Str) (deps : List Str) (table : Table)
    → mem_str t out ≡ false
    → left (out ++ t ∷ []) ((t, deps) ∷ table) + length deps ≤ left out ((t, deps) ∷ table)
unfolding left
left_same out t deps table h =
    rw (mem_str-snoc t t out, h, str_eq_refl t) (omega (arith, left_mono out t table))

left_falls :
    (out : List Str) (t : Str) (table : Table)
    → mem_str t out ≡ false
    → left (out ++ t ∷ []) table + length (deps_of t table) ≤ left out table
unfolding left deps_of
left_falls out t [] h = omega arith
left_falls out t ((k, deps) ∷ table) h = elim (Bool-cases (str_eq t k)) [
  | inl e ↦ rw (e, sym ((str_eq_iff t k).0 e)) (left_same out t deps table h)
  | inr e ↦ rw e (elim (Bool-cases (mem_str k out)) [
    | inl m ↦ rw (mem_str-snoc k t out, m) (omega (arith, left_falls out t table h))
    | inr m ↦ ground (arith, left_falls out t table h, mem_str-snoc k t out)
  ])
]

-- With fuel for the queue and for what is left to queue, the loop ends.
pub closure_loop_total :
    (fuel : ℕ) (table : Table) (out queue : List Str)
    → length queue + left out table ≤ fuel
    → (r : List Str) × (closure_loop fuel table out queue ≡ some r)
unfolding closure_loop
closure_loop_total zero table out [] h = (out, refl)
closure_loop_total (suc fuel) table out [] h = (out, refl)
closure_loop_total zero table out (t ∷ queue) h = absurd (omega arith)
closure_loop_total (suc fuel) table out (t ∷ queue) h = elim (Bool-cases (mem_str t out)) [
  | inl e ↦ rw e (closure_loop_total fuel table out queue (omega arith))
  | inr e ↦
      let new = fresh (out ++ t ∷ []) (deps_of t table) in
      rw e (
        closure_loop_total fuel table (out ++ t ∷ []) (queue ++ new) (
          omega (
            arith,
            left_falls out t table e,
            length-append queue new,
            length-fresh (out ++ t ∷ []) (deps_of t table),
          )))
]

pub left-enough : (table : Table) → left [] table ≤ enough table
unfolding left enough
left-enough [] = omega arith
left-enough ((t, deps) ∷ table) = ground (arith, left-enough table)
