-- ===== src/Makegate/Gate/Digests.antt =====
-- What holds of the files where `check_pinned_bytes` returns.
use vizra_search.Base.{
  subst, str_eq_iff, Option-some, ap₂, ◌≡◌, refl, ap, sym, ◌∙◌, true, inl, inr, some, List, [], ◌∷◌,
  ◌++◌, map, Bool-cases, Option-cases, List-cases, append-eq-nil_left, append-eq-nil_right, All, In,
  here, there, Str, str_eq, mem_str, decode_utf8, ℕ,
}
use vizra_search.Makegate.Pin.{missing, unreadable, bytes, has_key}
use vizra_search.Makegate.ReadSet.{ReadSet, text_of}
use vizra_search.Makegate.Gate.Machine.{
  Entry, absent, unreachable, irregular, regular, Disk, Host, done, of_read,
}
use vizra_search.Makegate.Gate.Bytes.{
  insert_pin, sort_pins, Pinned, read_content, read_entry, read_pinned, unpinned, stale_of,
  digests_of, sites_of, Checked, report_checked, judge, lt_str,
}

In-insert_pin : (e f : Str × Str) (m : List (Str × Str)) → In e (f ∷ m) → In e (insert_pin f m)
unfolding insert_pin
In-insert_pin e f [] i = i
In-insert_pin e f (g ∷ m) i = elim (Bool-cases (lt_str g.0 f.0)) [
  | inr b ↦ rw b i
  | inl b ↦ rw b (elim i [
    | here q ↦ there (In-insert_pin e f m (here q))
    | there (here q) ↦ here q
    | there (there j) ↦ there (In-insert_pin e f m (there j))
  ])
]

-- Sorting keeps every entry.
pub In-sort_pins : (e : Str × Str) (m : List (Str × Str)) → In e m → In e (sort_pins m)
unfolding sort_pins
In-sort_pins e [] i = i
In-sort_pins e (f ∷ m) (here q) = In-insert_pin e f (sort_pins m) (here q)
In-sort_pins e (f ∷ m) (there i) = In-insert_pin e f (sort_pins m) (there (In-sort_pins e m i))

insert_pin-In : (e f : Str × Str) (m : List (Str × Str)) → In e (insert_pin f m) → In e (f ∷ m)
unfolding insert_pin
insert_pin-In e f [] i = i
insert_pin-In e f (g ∷ m) i = elim (Bool-cases (lt_str g.0 f.0)) [
  | inr b ↦ rw b at i
  | inl b ↦
      let j : In e (g ∷ insert_pin f m) = rw b at i in
      elim j [
        | here q ↦ there (here q)
        | there k ↦ elim (insert_pin-In e f m k) [ here q ↦ here q | there l ↦ there (there l) ]
      ]
]

-- And it adds none.
pub sort_pins-In : (e : Str × Str) (m : List (Str × Str)) → In e (sort_pins m) → In e m
unfolding sort_pins
sort_pins-In e [] i = i
sort_pins-In e (f ∷ m) i = elim (insert_pin-In e f (sort_pins m) i) [
  | here q ↦ here q
  | there j ↦ there (sort_pins-In e m j)
]

-- A regular file whose bytes have the pinned digest and are UTF-8 text.
pub record Matches (h : Host) (disk : Disk) (e : Str × Str) : Type 0 where
  pub content : List ℕ
  pub text : Str
  pub is_regular : disk.entry e.0 ≡ regular (bytes content)
  pub digest : h.sha256 content ≡ e.1
  pub decodes : decode_utf8 content ≡ some text

read_content-Matches :
    (h : Host) (disk : Disk) (rel want : Str) (b : List ℕ)
    → disk.entry rel ≡ regular (bytes b)
    → (read_content rel want (h.sha256 b) b).problems ≡ []
    → Matches h disk (rel, want)
      × ((read_content rel want (h.sha256 b) b).digests ≡ (rel, want) ∷ [])
unfolding read_content
read_content-Matches h disk rel want b e p = elim (Bool-cases (str_eq (h.sha256 b) want)) [
  | inr s ↦ cc (rw s at p)
  | inl s ↦ elim (Option-cases (decode_utf8 b)) [
    | inl d ↦ cc (rw (s, d, read_content) at p)
    | inr (text, d) ↦ (
      record {
        content = b;
        text = text;
        is_regular = e;
        digest = (str_eq_iff (h.sha256 b) want).0 s;
        decodes = d;
      },
      rw (s, d, read_content) (ap (λ x. (rel, x) ∷ []) ((str_eq_iff (h.sha256 b) want).0 s)),
    )
  ]
]

read_entry-Matches :
    (h : Host) (disk : Disk) (rel want : Str) (f : Entry) (a : Pinned)
    → disk.entry rel ≡ f
    → read_entry h rel want f ≡ some a
    → a.problems ≡ []
    → Matches h disk (rel, want) × (a.digests ≡ (rel, want) ∷ [])
unfolding read_entry
read_entry-Matches h disk rel want absent a e r p = cc
read_entry-Matches h disk rel want unreachable a e r p = cc
read_entry-Matches h disk rel want (irregular f) a e r p = cc
read_entry-Matches h disk rel want (regular missing) a e r p = cc
read_entry-Matches h disk rel want (regular unreadable) a e r p = cc
read_entry-Matches h disk rel want (regular (bytes b)) a e r p =
    let same : read_content rel want (h.sha256 b) b ≡ a = Option-some r in
    let (m, d) =
      read_content-Matches h disk rel want b e (ap (λ (x : Pinned). x.problems) same ∙ p) in
    (m, ap (λ (x : Pinned). x.digests) (sym same) ∙ d)

-- A reading without problems: every entry matches, and the digests are the pins.
pub read_pinned-Matches :
    (h : Host) (disk : Disk) (m : List (Str × Str)) (r : Pinned)
    → read_pinned h disk m ≡ some r
    → r.problems ≡ []
    → All (Matches h disk) m × (r.digests ≡ m)
unfolding read_pinned
read_pinned-Matches h disk [] r e p = (tt, cc)
read_pinned-Matches h disk ((rel, want) ∷ m) r e p =
    elim (Option-cases (read_entry h rel want (disk.entry rel))) [
      | inl n ↦ cc (rw (n, read_pinned) at e)
      | inr (a, n) ↦ elim (Option-cases (read_pinned h disk m)) [
        | inl k ↦ cc (rw (n, k, read_pinned) at e)
        | inr (b, k) ↦
            let same : (record {
              problems = a.problems ++ b.problems;
              digests = a.digests ++ b.digests;
              texts = a.texts ++ b.texts;
            })
                ≡ r =
              Option-some (rw (n, k, read_pinned) at e) in
            let none_here = ap (λ (x : Pinned). x.problems) same ∙ p in
            let (first_one, d) =
              read_entry-Matches h disk rel want (disk.entry rel) a refl n
                (append-eq-nil_left a.problems b.problems none_here) in
            let (others, ds) =
              read_pinned-Matches h disk m b k
                (append-eq-nil_right a.problems b.problems none_here) in
            (
              (first_one, others),
              ap (λ (x : Pinned). x.digests) (sym same) ∙ ap₂ (λ x y. x ++ y) d ds,
            )
      ]
    ]

pub text_of-In :
    (rel : Str) {d : Str} (m : List (Str × Str)) → text_of rel m ≡ some d → In (rel, d) m
unfolding text_of
text_of-In rel [] e = cc
text_of-In rel {d} ((j, t) ∷ m) e = elim (Bool-cases (str_eq rel j)) [
  | inl s ↦ here (ap₂ (λ x y. (x, y)) ((str_eq_iff rel j).0 s) (sym (Option-some (rw s at e))))
  | inr s ↦ there (text_of-In rel m (rw s at e))
]

-- The names are those of the read set, and every entry is one of `m`.
abbrev pub AreDigests : List (Str × Str) → List Str → List (Str × Str) → Type 0
AreDigests m order ds = (map (λ (e : Str × Str). e.0) ds ≡ order) × All (λ e. In e m) ds

-- Of the digests that are handed on: their files are the read set, and each is one of those collected.
digests_of-In :
    (m : List (Str × Str)) (order : List Str) (ds : List (Str × Str))
    → digests_of m order ≡ some ds
    → AreDigests m order ds
unfolding digests_of
digests_of-In m [] ds e = subst (AreDigests m []) (Option-some e) (refl, tt)
digests_of-In m (rel ∷ order) ds e = elim (Option-cases (text_of rel m)) [
  | inl n ↦ cc (rw (n, digests_of) at e)
  | inr (d, n) ↦ elim (Option-cases (digests_of m order)) [
    | inl k ↦ cc (rw (n, k, digests_of) at e)
    | inr (rest, k) ↦
        let (names, found) = digests_of-In m order rest k in
        subst (AreDigests m (rel ∷ order)) (Option-some (rw (n, k, digests_of) at e))
          (ap (λ x. rel ∷ x) names, (text_of-In rel m n, found))
  ]
]

unpinned-nil :
    (m : List (Str × Str)) (order : List Str)
    → unpinned m order ≡ []
    → All (λ f. has_key f m ≡ true) order
unfolding unpinned
unpinned-nil m [] e = tt
unpinned-nil m (f ∷ order) e = elim (Bool-cases (has_key f m)) [
  | inl k ↦ (k, unpinned-nil m order (rw k at e))
  | inr k ↦ cc (rw k at e)
]

stale_of-nil :
    (order : List Str) (m : List (Str × Str))
    → stale_of order m ≡ []
    → All (λ (e : Str × Str). mem_str e.0 order ≡ true) m
unfolding stale_of
stale_of-nil order [] e = tt
stale_of-nil order ((rel, want) ∷ m) e = elim (Bool-cases (mem_str rel order)) [
  | inl k ↦ (k, stale_of-nil order m (rw k at e))
  | inr k ↦ cc (rw k at e)
]

-- What a returned check says of the sorted pins.
pub record AgreesWith (r : Pinned) (s : ReadSet) (m : List (Str × Str)) (c : Checked) : Type 0 where
  pub read_well : r.problems ≡ []
  pub accepted : s.problems ≡ []
  pub order_of : c.order ≡ s.order
  pub all_pinned : All (λ f. has_key f m ≡ true) s.order
  pub all_read : All (λ (e : Str × Str). mem_str e.0 s.order ≡ true) m
  pub digests_are : AreDigests r.digests s.order c.digests
  pub sites_are : sites_of r.texts s.order ≡ some c.sites

pub done-eq : {A : Type 0} {a b : A} → done a ≡ done b → a ≡ b
done-eq e = cc

pub map-nil : {A B : Type 0} (f : A → B) (xs : List A) → map f xs ≡ [] → xs ≡ []
map-nil f [] e = refl
map-nil f (x ∷ xs) e = cc

pub judge-AgreesWith :
    (m : List (Str × Str)) (r : Pinned) (s : ReadSet) (c : Checked)
    → judge m r s ≡ done c
    → AgreesWith r s m c
unfolding judge
judge-AgreesWith m r s c e =
    elim (List-cases (r.problems ++ (map of_read s.problems ++ unpinned m s.order))) [
      | inr (p, ps, n) ↦ cc (rw (n, judge) at e)
      | inl n ↦ elim (List-cases (stale_of s.order m)) [
        | inr (f, fs, k) ↦ cc (rw (n, k, judge) at e)
        | inl k ↦ elim (Option-cases (sites_of r.texts s.order)) [
          | inl x ↦ cc (rw (n, k, x, judge, report_checked) at e)
          | inr (sites, x) ↦ elim (Option-cases (digests_of r.digests s.order)) [
            | inl y ↦ cc (rw (n, k, x, y, judge, report_checked) at e)
            | inr (ds, y) ↦
                let same : done (record { order = s.order; digests = ds; sites = sites }) ≡ done c =
                  rw (n, k, x, y, judge, report_checked) at e in
                subst (AgreesWith r s m) (done-eq same) (record {
                  read_well = append-eq-nil_left r.problems _ n;
                  accepted = map-nil of_read s.problems (
                      append-eq-nil_left _ (unpinned m s.order)
                        (append-eq-nil_right r.problems _ n));
                  order_of = refl;
                  all_pinned = unpinned-nil m s.order (
                      append-eq-nil_right (map of_read s.problems) _
                        (append-eq-nil_right r.problems _ n));
                  all_read = stale_of-nil s.order m k;
                  digests_are = digests_of-In r.digests s.order ds y;
                  sites_are = x;
                })
          ]
        ]
      ]
    ]
