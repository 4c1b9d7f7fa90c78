-- ===== src/Makegate/Gate/Texts.antt =====
-- The texts that `check_pinned_bytes` reads are the decoded pinned files, and those of the read set
-- have passed the grammar.
use vizra_search.Base.{
  In, here, there, codes, ◌≡◌, refl, ap, ◌∙◌, subst, inl, inr, Option, none, some, List, [], ◌∷◌,
  ◌++◌, map, Bool-cases, Option-cases, Option-some, append-eq-nil_left, append-eq-nil_right, All,
  All-append, In-All, Str, str_eq, mem_str, decode_utf8, ℕ, zero, suc,
}
use vizra_search.Makegate.Pin.{missing, unreadable, bytes}
use vizra_search.Makegate.Grammar.{grammar_problems}
use vizra_search.Makegate.ReadSet.{
  shadow_problems, enough, ReadProblem, of_grammar, ReadSet, file_found, read_loop, static_read_set,
  text_of,
}
use vizra_search.Makegate.ReadSet.Closed.{NamesOnly, static_read_set-IsReadSet}
use vizra_search.Makegate.Gate.Machine.{Entry, absent, unreachable, irregular, regular, Disk, Host}
use vizra_search.Makegate.Gate.Bytes.{Pinned, read_content, read_entry, read_pinned, sites_of, Site}
use vizra_search.Makegate.Gate.Digests.{text_of-In, map-nil}

-- The text is what the regular file's bytes decode to.
pub record IsTextOf (disk : Disk) (e : Str × Str) : Type 0 where
  pub content : List ℕ
  pub is_regular : disk.entry e.0 ≡ regular (bytes content)
  pub decodes : decode_utf8 content ≡ some e.1

read_content-IsTextOf :
    (disk : Disk) (rel want digest : Str) (b : List ℕ)
    → disk.entry rel ≡ regular (bytes b)
    → All (IsTextOf disk) (read_content rel want digest b).texts
unfolding read_content
read_content-IsTextOf disk rel want digest b e = elim (Bool-cases (str_eq digest want)) [
  | inr s ↦ rw s tt
  | inl s ↦ elim (Option-cases (decode_utf8 b)) [
    | inl d ↦ rw (s, d, read_content) tt
    | inr (text, d) ↦
        rw (s, d, read_content) (record { content = b; is_regular = e; decodes = d }, tt)
  ]
]

read_entry-IsTextOf :
    (h : Host) (disk : Disk) (rel want : Str) (f : Entry) (a : Pinned)
    → disk.entry rel ≡ f
    → read_entry h rel want f ≡ some a
    → All (IsTextOf disk) a.texts
unfolding read_entry
read_entry-IsTextOf h disk rel want absent a e r =
    subst (λ (x : Pinned). All (IsTextOf disk) x.texts) (Option-some r) tt
read_entry-IsTextOf h disk rel want unreachable a e r = cc
read_entry-IsTextOf h disk rel want (irregular f) a e r =
    subst (λ (x : Pinned). All (IsTextOf disk) x.texts) (Option-some r) tt
read_entry-IsTextOf h disk rel want (regular missing) a e r = cc
read_entry-IsTextOf h disk rel want (regular unreadable) a e r = cc
read_entry-IsTextOf h disk rel want (regular (bytes b)) a e r =
    subst (λ (x : Pinned). All (IsTextOf disk) x.texts) (Option-some r)
      (read_content-IsTextOf disk rel want (h.sha256 b) b e)

pub read_pinned-IsTextOf :
    (h : Host) (disk : Disk) (m : List (Str × Str)) (r : Pinned)
    → read_pinned h disk m ≡ some r
    → All (IsTextOf disk) r.texts
unfolding read_pinned
read_pinned-IsTextOf h disk [] r e =
    subst (λ (x : Pinned). All (IsTextOf disk) x.texts) (Option-some e) tt
read_pinned-IsTextOf h disk ((rel, want) ∷ m) r e =
    elim (Option-cases (read_entry h rel want (disk.entry rel))) [
      | inl n ↦ cc (rw (n, read_pinned) at e)
      | inr (a, n) ↦ elim (Option-cases (read_pinned h disk m)) [
        | inl k ↦ cc (rw (n, k, read_pinned) at e)
        | inr (b, k) ↦
            subst (λ (x : Pinned). All (IsTextOf disk) x.texts)
              (Option-some (rw (n, k, read_pinned) at e))
              (All-append (IsTextOf disk) a.texts b.texts
                (read_entry-IsTextOf h disk rel want (disk.entry rel) a refl n)
                (read_pinned-IsTextOf h disk m b k))
      ]
    ]

-- The file's text, where it has one, passes the grammar.
abbrev pub Passes : List (Str × Str) → Str → Type 0
Passes texts rel = (text : Str) → text_of rel texts ≡ some text → grammar_problems rel text ≡ []

file_found-Passes :
    (rel : Str) (texts : List (Str × Str))
    → (file_found rel (text_of rel texts)).problems ≡ []
    → Passes texts rel
unfolding file_found
file_found-Passes rel texts p text e =
    let q =
      append-eq-nil_left (map of_grammar (grammar_problems rel text)) _
        (append-eq-nil_left _ _ (rw e at p)) in
    map-nil of_grammar (grammar_problems rel text) q

loop_ends :
    (texts : List (Str × Str)) (order : List Str) (problems : List ReadProblem) (r : ReadSet)
    → some (record { order = order; problems = problems }) ≡ some r
    → r.problems ≡ []
    → (problems ≡ [] → All (Passes texts) order)
    → All (Passes texts) r.order × (problems ≡ [])
loop_ends texts order problems r e p h =
    let same = Option-some e in
    let none_left = ap (λ (x : ReadSet). x.problems) same ∙ p in
    (subst (λ (x : ReadSet). All (Passes texts) x.order) same (h none_left), none_left)

read_loop-Passes :
    (fuel : ℕ) (texts : List (Str × Str)) (order : List Str) (problems : List ReadProblem)
    (queue : List Str) (r : ReadSet)
    → read_loop fuel texts order problems queue ≡ some r
    → r.problems ≡ []
    → (problems ≡ [] → All (Passes texts) order)
    → All (Passes texts) r.order × (problems ≡ [])
unfolding read_loop
read_loop-Passes zero texts order problems [] r e p h = loop_ends texts order problems r e p h
read_loop-Passes (suc fuel) texts order problems [] r e p h = loop_ends texts order problems r e p h
read_loop-Passes zero texts order problems (rel ∷ queue) r e p h = cc
read_loop-Passes (suc fuel) texts order problems (rel ∷ queue) r e p h =
    elim (Bool-cases (mem_str rel order)) [
      | inl k ↦ read_loop-Passes fuel texts order problems queue r (rw k at e) p h
      | inr k ↦
          let found = file_found rel (text_of rel texts) in
          let (passed, none_left) =
            read_loop-Passes fuel texts (order ++ rel ∷ []) (problems ++ found.problems)
              (queue ++ found.queued) r (rw k at e) p
              (λ q.
                All-append (Passes texts) order (rel ∷ []) (h (append-eq-nil_left problems _ q))
                  (file_found-Passes rel texts (append-eq-nil_right problems _ q), tt)) in
          (passed, append-eq-nil_left problems _ none_left)
    ]

static_read_set-Passes :
    (present : Option (List Str)) (texts : List (Str × Str)) (r : ReadSet)
    → static_read_set present texts ≡ some r
    → r.problems ≡ []
    → All (Passes texts) r.order
unfolding static_read_set
static_read_set-Passes none texts r e p = cc (ap (λ (x : ReadSet). x.problems) (Option-some e) ∙ p)
static_read_set-Passes (some present) texts r e p =
    (read_loop-Passes (enough texts) texts [] (shadow_problems present) (codes "Makefile" ∷ []) r e
      p (λ q. tt)).0

-- A regular UTF-8 file whose text the grammar accepts and names files of the read set alone.
pub record IsAcceptedFile (disk : Disk) (files : List Str) (rel : Str) : Type 0 where
  pub text : Str
  pub is_text : IsTextOf disk (rel, text)
  pub passes : grammar_problems rel text ≡ []
  pub names : NamesOnly files text

order-IsAcceptedFile :
    (disk : Disk) (texts : List (Str × Str)) (files order : List Str) (sites : List Site)
    → All (IsTextOf disk) texts
    → ((rel text : Str) → In rel order → text_of rel texts ≡ some text → NamesOnly files text)
    → All (Passes texts) order
    → sites_of texts order ≡ some sites
    → All (IsAcceptedFile disk files) order
unfolding sites_of
order-IsAcceptedFile disk texts files [] sites h named g e = tt
order-IsAcceptedFile disk texts files (rel ∷ order) sites h named g e =
    elim (Option-cases (text_of rel texts)) [
      | inl n ↦ cc (rw (n, sites_of) at e)
      | inr (text, n) ↦ elim (Option-cases (sites_of texts order)) [
        | inl k ↦ cc (rw (n, k, sites_of) at e)
        | inr (rest, k) ↦ (
          record {
            text = text;
            is_text = In-All (IsTextOf disk) h (text_of-In rel texts n);
            passes = g.0 text n;
            names = named rel text (here refl) n;
          },
          order-IsAcceptedFile disk texts files order rest h (λ r t i. named r t (there i)) g.1 k,
        )
      ]
    ]

-- Every file of the read set is a regular UTF-8 file whose text the grammar accepts.
pub read_set-IsAcceptedFile :
    (h : Host) (disk : Disk) (m : List (Str × Str)) (r : Pinned) (s : ReadSet) (sites : List Site)
    → read_pinned h disk m ≡ some r
    → static_read_set disk.listing r.texts ≡ some s
    → s.problems ≡ []
    → sites_of r.texts s.order ≡ some sites
    → All (IsAcceptedFile disk s.order) s.order
read_set-IsAcceptedFile h disk m r s sites a b p c =
    order-IsAcceptedFile disk r.texts s.order s.order sites (read_pinned-IsTextOf h disk m r a)
      (static_read_set-IsReadSet disk.listing r.texts s b p).names
      (static_read_set-Passes disk.listing r.texts s b p) c
