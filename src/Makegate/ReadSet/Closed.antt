-- ===== src/Makegate/ReadSet/Closed.antt =====
-- `static_read_set`: a read set without a problem holds what its files' directives name.
use vizra_search.Base.{
  In-mem_str, ℕ, zero, suc, ◌≡◌, ◌⊎◌, inl, inr, refl, sym, ap, ◌∙◌, Bool, true, false, not, ◌&&◌,
  ◌||◌, Option, none, some, List, [], ◌∷◌, ◌++◌, map, All, In, here, there, In-append_left,
  In-append_right, In-append, Bool-cases, Option-some, append-eq-nil_left, append-eq-nil_right, Str,
  codes, str_eq, str_eq_iff, mem_str, starts_with, words, lower, normpath, is_absolute, subst,
  if◌then◌else◌,
}
use vizra_search.Regex.{Match, match_re, group_of}
use vizra_search.Makegate.Lines.{LogicalLine, makefile_lines}
use vizra_search.Makegate.Grammar.{grammar_problems}
use vizra_search.Makegate.Reviewed.{reviewed_bytes_problems}
use vizra_search.Makegate.ReadSet.{
  ReadProblem, shadows, of_grammar, by_name, read_directive_re, shadow_problems, manufactured,
  is_computed, file_word, nothing_found, word_found, words_found, directive_found, directives_found,
  text_of, file_found, ReadSet, read_loop, enough, static_read_set, computed_file, outside,
}

-- An entry of the directory that is Makefile where it is spelled like a file that make reads first.
abbrev pub IsNoShadow : Str → Type 0
IsNoShadow entry =
    (lower entry ≡ codes "gnumakefile") ⊎ (lower entry ≡ codes "makefile")
    → entry ≡ codes "Makefile"

-- Each file that a line of the text names by an include or a load is one of the files.
abbrev pub NamesOnly : List Str → Str → Type 0
NamesOnly files text =
    (rec : LogicalLine) (m : Match) (w : Str)
    → In rec (makefile_lines text)
    → match_re read_directive_re rec.code ≡ some m
    → In w (words (group_of 2 m.caps))
    → In (normpath (file_word (group_of 1 m.caps) w)) files

shadow_lem :
    (a b c : Bool) (entry : Str) (rest : List ReadProblem)
    → (if (a || b) && not c then shadows entry ∷ rest else rest) ≡ []
    → (rest ≡ []) × ((a ≡ true) ⊎ (b ≡ true) → c ≡ true)
shadow_lem true b true entry rest k = (k, λ h. refl)
shadow_lem true b false entry rest k = cc
shadow_lem false true true entry rest k = (k, λ h. refl)
shadow_lem false true false entry rest k = cc
shadow_lem false false c entry rest k = (k, λ h. elim h [ inl e ↦ cc | inr e ↦ cc ])

pub shadow_problems-IsNoShadow :
    (present : List Str) → shadow_problems present ≡ [] → All IsNoShadow present
unfolding shadow_problems
shadow_problems-IsNoShadow [] k = tt
shadow_problems-IsNoShadow (entry ∷ entries) k =
    let (rest, spelled) =
      shadow_lem (str_eq (lower entry) (codes "gnumakefile"))
        (str_eq (lower entry) (codes "makefile")) (str_eq entry (codes "Makefile")) entry
        (shadow_problems entries) k in
    (
      λ h. (str_eq_iff entry (codes "Makefile")).0 (
          spelled (elim h [
            | inl e ↦ inl ((str_eq_iff (lower entry) (codes "gnumakefile")).1 e)
            | inr e ↦ inr ((str_eq_iff (lower entry) (codes "makefile")).1 e)
          ])),
      shadow_problems-IsNoShadow entries rest,
    )

word_lem :
    (a b : Bool) (p q : ReadProblem) (name : Str)
    → (if a
        then record nothing_found { problems = p ∷ [] }
        else if b
        then record nothing_found { problems = q ∷ [] }
        else record nothing_found { queued = name ∷ [] }).problems
      ≡ []
    → (a ≡ false) × (b ≡ false)
word_lem true b p q name k = cc
word_lem false true p q name k = cc
word_lem false false p q name k = (refl, refl)

word_found-In :
    (rel : Str) (n : ℕ) (directive word : Str)
    → (word_found rel n directive word).problems ≡ []
    → In (normpath word) (word_found rel n directive word).queued
unfolding word_found
word_found-In rel n directive word k =
    let (a, b) =
      word_lem (is_computed word)
        (is_absolute word
          || str_eq (normpath word) (codes "..")
          || starts_with (codes "../") (normpath word))
        (computed_file rel n directive word) (outside rel n directive word) (normpath word) k in
    rw (a, b) (here refl)

words_found-In :
    (rel : Str) (n : ℕ) (directive : Str) (ws : List Str) (w : Str)
    → (words_found rel n directive ws).problems ≡ []
    → In w ws
    → In (normpath (file_word directive w)) (words_found rel n directive ws).queued
unfolding words_found
words_found-In rel n directive [] w k i = elim i [ ]
words_found-In rel n directive (v ∷ ws) w k (here e) = rw e (
    In-append_left _
      (word_found-In rel n directive (file_word directive v) (append-eq-nil_left _ _ k)))
words_found-In rel n directive (v ∷ ws) w k (there i) =
    In-append_right (word_found rel n directive (file_word directive v)).queued (
      words_found-In rel n directive ws w
        (append-eq-nil_right (word_found rel n directive (file_word directive v)).problems _ k) i)

directive_found-In :
    (rel : Str) (rec : LogicalLine) (m : Match) (w : Str)
    → (directive_found rel rec).problems ≡ []
    → match_re read_directive_re rec.code ≡ some m
    → In w (words (group_of 2 m.caps))
    → In (normpath (file_word (group_of 1 m.caps) w)) (directive_found rel rec).queued
unfolding directive_found
directive_found-In rel rec m w k e i =
    rw (e, directive_found)
      (words_found-In rel rec.n (group_of 1 m.caps) (words (group_of 2 m.caps)) w
        (rw (e, directive_found) at k) i)

directives_found-In :
    (rel : Str) (lines : List LogicalLine) (rec : LogicalLine) (m : Match) (w : Str)
    → (directives_found rel lines).problems ≡ []
    → In rec lines
    → match_re read_directive_re rec.code ≡ some m
    → In w (words (group_of 2 m.caps))
    → In (normpath (file_word (group_of 1 m.caps) w)) (directives_found rel lines).queued
unfolding directives_found
directives_found-In rel [] rec m w k i e j = elim i [ ]
directives_found-In rel (r ∷ lines) rec m w k (here s) e j =
    let silent = append-eq-nil_left (directive_found rel r).problems _ k in
    In-append_left _ (
      subst
        (λ (x : LogicalLine).
          In (normpath (file_word (group_of 1 m.caps) w)) (directive_found rel x).queued)
        s
        (directive_found-In rel rec m w
          (subst (λ (x : LogicalLine). (directive_found rel x).problems ≡ []) (sym s) silent) e j))
directives_found-In rel (r ∷ lines) rec m w k (there i) e j =
    In-append_right (directive_found rel r).queued (
      directives_found-In rel lines rec m w
        (append-eq-nil_right (directive_found rel r).problems _ k) i e j)

-- A file of the read set left no problem, and what it queued is in the read set.
abbrev Kept : List (Str × Str) → List Str → Str → Type 0
Kept texts files rel =
    ((file_found rel (text_of rel texts)).problems ≡ [])
    × ((q : Str) → In q (file_found rel (text_of rel texts)).queued → In q files)

abbrev Ends : List (Str × Str) → List Str → List ReadProblem → List Str → ReadSet → Type 0
Ends texts order problems queue r =
    (problems ≡ [])
    × ((x : Str) → In x order → In x r.order)
    × ((x : Str) → In x queue → In x r.order)
    × ((x : Str) → In x r.order → In x order ⊎ Kept texts r.order x)

finished-Ends :
    (texts : List (Str × Str)) (order : List Str) (problems : List ReadProblem) (r : ReadSet)
    → some (record { order = order; problems = problems }) ≡ some r
    → r.problems ≡ []
    → Ends texts order problems [] r
finished-Ends texts order problems r e p =
    let same = Option-some e in
    let orders = ap (λ (x : ReadSet). x.order) same in
    (
      ap (λ (x : ReadSet). x.problems) same ∙ p,
      λ x i. subst (λ o. In x o) orders i,
      λ x i. elim i [ ],
      λ x i. inl (subst (λ o. In x o) (sym orders) i),
    )

taken_lem :
    (texts : List (Str × Str)) (order : List Str) (problems : List ReadProblem) (rel : Str)
    (queue : List Str) (r : ReadSet)
    → Ends texts
        (order ++ rel ∷ [])
        (problems ++ (file_found rel (text_of rel texts)).problems)
        (queue ++ (file_found rel (text_of rel texts)).queued)
        r
    → Ends texts order problems (rel ∷ queue) r
taken_lem texts order problems rel queue r (none_left, ordered, queued, kept) =
    let found = file_found rel (text_of rel texts) in
    (
      append-eq-nil_left problems found.problems none_left,
      λ x i. ordered x (In-append_left (rel ∷ []) i),
      λ x i. in_queue x i,
      λ x i. elim (kept x i) [
        | inr k ↦ inr k
        | inl j ↦ elim (In-append order (rel ∷ []) j) [
          | inl k ↦ inl k
          | inr k ↦ inr (
              subst (Kept texts r.order) (sym (only x k)) (
                append-eq-nil_right problems found.problems none_left,
                λ q l. queued q (In-append_right queue l),
              ))
        ]
      ],
    )
  where
    only : (x : Str) → In x (rel ∷ []) → x ≡ rel
    only x (here e) = e
    only x (there i) = elim i [ ]

    in_queue : (x : Str) → In x (rel ∷ queue) → In x r.order
    in_queue x (here e) = ordered x (In-append_right order (here e))
    in_queue x (there i) = queued x (In-append_left (file_found rel (text_of rel texts)).queued i)

skipped_lem :
    (texts : List (Str × Str)) (order : List Str) (problems : List ReadProblem) (rel : Str)
    (queue : List Str) (r : ReadSet)
    → In rel order
    → Ends texts order problems queue r
    → Ends texts order problems (rel ∷ queue) r
skipped_lem texts order problems rel queue r i (none_left, ordered, queued, kept) =
    (none_left, ordered, in_queue, kept)
  where
    in_queue : (x : Str) → In x (rel ∷ queue) → In x r.order
    in_queue x (here e) = ordered x (subst (λ y. In y order) (sym e) i)
    in_queue x (there j) = queued x j

read_loop-Ends :
    (fuel : ℕ) (texts : List (Str × Str)) (order : List Str) (problems : List ReadProblem)
    (queue : List Str) (r : ReadSet)
    → read_loop fuel texts order problems queue ≡ some r
    → r.problems ≡ []
    → Ends texts order problems queue r
unfolding read_loop
read_loop-Ends zero texts order problems [] r e p = finished-Ends texts order problems r e p
read_loop-Ends (suc fuel) texts order problems [] r e p = finished-Ends texts order problems r e p
read_loop-Ends zero texts order problems (rel ∷ queue) r e p = cc
read_loop-Ends (suc fuel) texts order problems (rel ∷ queue) r e p =
    elim (Bool-cases (mem_str rel order)) [
      | inl k ↦
          skipped_lem texts order problems rel queue r (In-mem_str rel order k)
            (read_loop-Ends fuel texts order problems queue r (rw k at e) p)
      | inr k ↦
          let found = file_found rel (text_of rel texts) in
          taken_lem texts order problems rel queue r (
            read_loop-Ends fuel texts (order ++ rel ∷ []) (problems ++ found.problems)
              (queue ++ found.queued) r (rw k at e) p)
    ]

file_found-NamesOnly :
    (rel text : Str) (files : List Str)
    → (file_found rel (some text)).problems ≡ []
    → ((q : Str) → In q (file_found rel (some text)).queued → In q files)
    → NamesOnly files text
unfolding file_found
file_found-NamesOnly rel text files k into rec m w i e j = into _ (
    directives_found-In rel (makefile_lines text) rec m w
      (append-eq-nil_right
        (map of_grammar (grammar_problems rel text)
          ++ (map by_name (reviewed_bytes_problems rel text)
              ++ manufactured rel (makefile_lines text)))
        _ k)
      i e j)

-- The read set is closed under what its files name, from Makefile on, in a directory without a shadow.
pub record IsReadSet (listing : Option (List Str)) (texts : List (Str × Str)) (files : List Str)
    : Type 0 where
  pub present : List Str
  pub listed : listing ≡ some present
  pub unshadowed : All IsNoShadow present
  pub starts : In (codes "Makefile") files
  pub names : (rel text : Str) → In rel files → text_of rel texts ≡ some text → NamesOnly files text

pub static_read_set-IsReadSet :
    (listing : Option (List Str)) (texts : List (Str × Str)) (r : ReadSet)
    → static_read_set listing texts ≡ some r
    → r.problems ≡ []
    → IsReadSet listing texts r.order
unfolding static_read_set
static_read_set-IsReadSet none texts r e p =
    cc (ap (λ (x : ReadSet). x.problems) (Option-some e) ∙ p)
static_read_set-IsReadSet (some present) texts r e p =
    let (none_left, ordered, queued, kept) =
      read_loop-Ends (enough texts) texts [] (shadow_problems present) (codes "Makefile" ∷ []) r e
        p in
    record {
      present = present;
      listed = refl;
      unshadowed = shadow_problems-IsNoShadow present none_left;
      starts = queued (codes "Makefile") (here refl);
      names = λ rel text i same. elim (kept rel i) [
        | inl j ↦ elim j [ ]
        | inr (silent, into) ↦
            file_found-NamesOnly rel text r.order
              (subst (λ o. (file_found rel o).problems ≡ []) same silent)
              (λ q j. into q (subst (λ o. In q (file_found rel o).queued) (sym same) j))
      ];
    }
