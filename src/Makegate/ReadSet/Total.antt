-- ===== src/Makegate/ReadSet/Total.antt =====
-- The queue of `static_read_set` empties: the fuel is enough for every set of texts.
use vizra_search.Base.{
  ℕ, zero, suc, ◌+◌, ◌≤◌, ◌≡◌, refl, true, false, inl, inr, Option, none, some, List, [], ◌∷◌, ◌++◌,
  ◌||◌, sym, arith, Bool-cases, if◌then◌else◌, length, length-append, Str, codes, str_eq,
  str_eq_iff, str_eq_refl, mem_str,
}
use vizra_search.Makegate.ReadSet.{
  ReadProblem, ReadSet, file_found, text_of, read_loop, enough, static_read_set,
}

-- What the texts that are not in `order` yet can still queue.
left : List Str → List (Str × Str) → ℕ
left order [] = 0
left order ((rel, text) ∷ texts) =
    (if mem_str rel order then 0 else length (file_found rel (some text)).queued) + left order texts

str_eq_comm : (s t : Str) → str_eq s t ≡ str_eq t s
str_eq_comm s t = ground (arith, str_eq_iff s t, str_eq_iff t s)

mem_str-append :
    (k rel : Str) (order : List Str)
    → mem_str k (order ++ rel ∷ []) ≡ (mem_str k order || str_eq k rel)
unfolding mem_str
mem_str-append k rel [] = ground arith
mem_str-append k rel (o ∷ order) = ground (arith, mem_str-append k rel order)

left_mono :
    (order : List Str) (rel : Str) (texts : List (Str × Str))
    → left (order ++ rel ∷ []) texts ≤ left order texts
unfolding left
left_mono order rel [] = omega arith
left_mono order rel ((j, t) ∷ texts) =
    ground (arith, left_mono order rel texts, mem_str-append j rel order)

left_same :
    (order : List Str) (rel j : Str) (t : Str) (texts : List (Str × Str))
    → str_eq rel j ≡ true
    → mem_str rel order ≡ false
    → left (order ++ rel ∷ []) ((j, t) ∷ texts) + length (file_found rel (some t)).queued
      ≤ left order ((j, t) ∷ texts)
unfolding left
left_same order rel j t texts e h =
    let same = (str_eq_iff rel j).0 e in
    rw (sym same, mem_str-append rel rel order, h, str_eq_refl rel)
      (omega (arith, left_mono order rel texts))

-- Reading a file that was not read before uses up what it can queue.
left_falls :
    (order : List Str) (rel : Str) (texts : List (Str × Str))
    → mem_str rel order ≡ false
    → left (order ++ rel ∷ []) texts + length (file_found rel (text_of rel texts)).queued
      ≤ left order texts
unfolding left text_of file_found
left_falls order rel [] h = omega arith
left_falls order rel ((j, t) ∷ texts) h = elim (Bool-cases (str_eq rel j)) [
  | inl e ↦ rw e (left_same order rel j t texts e h)
  | inr e ↦
      rw (e, mem_str-append j rel order, str_eq_comm j rel, e)
        (elim (Bool-cases (mem_str j order)) [
          | inl k ↦ rw k (omega (arith, left_falls order rel texts h))
          | inr k ↦ rw k (omega (arith, left_falls order rel texts h))
        ])
]

-- With fuel for the queue and for what the files not yet read can queue, the loop ends.
read_loop_total :
    (fuel : ℕ) (texts : List (Str × Str)) (order : List Str) (problems : List ReadProblem)
    (queue : List Str)
    → length queue + left order texts ≤ fuel
    → (r : ReadSet) × (read_loop fuel texts order problems queue ≡ some r)
unfolding read_loop
read_loop_total zero texts order problems [] h = (_, refl)
read_loop_total (suc fuel) texts order problems [] h = (_, refl)
read_loop_total zero texts order problems (rel ∷ queue) h = absurd (omega arith)
read_loop_total (suc fuel) texts order problems (rel ∷ queue) h =
    elim (Bool-cases (mem_str rel order)) [
      | inl e ↦ rw e (read_loop_total fuel texts order problems queue (omega arith))
      | inr e ↦
          let found = file_found rel (text_of rel texts) in
          rw e (
            read_loop_total fuel texts (order ++ rel ∷ []) (problems ++ found.problems)
              (queue ++ found.queued)
              (omega (arith, left_falls order rel texts e, length-append queue found.queued)))
    ]

left-enough : (texts : List (Str × Str)) → 1 + left [] texts ≤ enough texts
unfolding left enough
left-enough [] = omega arith
left-enough ((rel, text) ∷ texts) = ground (arith, left-enough texts)

-- static_read_set returns for every listing and all texts.
pub static_read_set_total :
    (present : Option (List Str)) (texts : List (Str × Str))
    → (r : ReadSet) × (static_read_set present texts ≡ some r)
unfolding static_read_set
static_read_set_total none texts = (_, refl)
static_read_set_total (some present) texts =
    read_loop_total (enough texts) texts [] _ (codes "Makefile" ∷ [])
      (omega (arith, left-enough texts))
