-- ===== src/Makegate/Pin/Valid.antt =====
-- What the entries of an accepted pin file satisfy.
use vizra_search.Makegate.Pin.Entry.{name-relative, IsEntry, pin_entry_re-IsEntry}
use vizra_search.Base.{
  is_absolute, subst, ℕ, suc, ◌≡◌, ◌≢◌, refl, Bool, true, false, ◌||◌, inl, inr, none, List, [],
  ◌∷◌, ◌++◌, arith, Bool-cases, Option-cases, Str, codes, str_eq, str_eq_iff, starts_with, normpath,
  split_on, decode_utf8, All, All-append,
}
use vizra_search.Regex.{match_re, does_match, group_of}
use vizra_search.Makegate.Pin.{
  Fetched, missing, unreadable, bytes, Loaded, pins, refused, has_key, skipped, leaves_repository,
  check_entry, finish_pin, pin_lines, pin_text, load_pin, pin_header_re, pin_entry_re,
}

-- A normalised relative path that stays inside the repository.
pub record IsInside (name : Str) : Type 0 where
  pub relative : is_absolute name ≡ false
  pub normalised : normpath name ≡ name
  pub stays : (starts_with (codes "../") name ≡ false) × (name ≢ codes "..")

-- Each name stands once.
abbrev pub Distinct : List (Str × Str) → Type 0
Distinct [] = Unit
Distinct ((name, digest) ∷ m) = (has_key name m ≡ false) × Distinct m

pub record IsPinSet (m : List (Str × Str)) : Type 0 where
  pub distinct : Distinct m
  pub inside : All (λ (e : Str × Str). IsInside e.0) m
  pub entries : All (λ (e : Str × Str). IsEntry e.0 e.1) m

has_key-append :
    (k : Str) (m : List (Str × Str)) (name digest : Str)
    → has_key k (m ++ (name, digest) ∷ []) ≡ (has_key k m || str_eq k name)
unfolding has_key
has_key-append k [] name digest = ground arith
has_key-append k ((j, v) ∷ m) name digest = ground (arith, has_key-append k m name digest)

-- `str_eq` is symmetric.
str_eq_comm : (s t : Str) → str_eq s t ≡ false → str_eq t s ≡ false
str_eq_comm s t h = ground (arith, str_eq_iff s t, str_eq_iff t s)

Distinct-append :
    (m : List (Str × Str)) (name digest : Str)
    → Distinct m
    → has_key name m ≡ false
    → Distinct (m ++ (name, digest) ∷ [])
unfolding has_key
Distinct-append [] name digest d h = (refl, tt)
Distinct-append ((j, v) ∷ m) name digest d h = (
  ground (arith, has_key-append j m name digest, str_eq_comm name j),
  Distinct-append m name digest d.1 (ground arith),
)

check_entry-IsInside :
    (n : ℕ) (name : Str) (m : List (Str × Str))
    → is_absolute name ≡ false
    → check_entry n name m ≡ none
    → IsInside name × (has_key name m ≡ false)
unfolding check_entry leaves_repository
check_entry-IsInside n name m relative h = (
  record {
    relative = relative;
    normalised = ground (arith, str_eq_iff name (normpath name));
    stays = (ground arith, λ e. ground (arith, str_eq_iff name (codes "..")));
  },
  ground arith,
)

-- What is claimed of the result.
abbrev pub Loads : Loaded → Type 0
Loads (refused p) = Unit
Loads (pins m) = IsPinSet m × (has_key (codes "Makefile") m ≡ true)

finish_pin-Loads : (header : Bool) (m : List (Str × Str)) → IsPinSet m → Loads (finish_pin header m)
unfolding finish_pin
finish_pin-Loads header [] v = tt
finish_pin-Loads true (e ∷ m) v = elim (Bool-cases (has_key (codes "Makefile") (e ∷ m))) [
  | inl k ↦ rw k (v, k)
  | inr k ↦ rw k tt
]
finish_pin-Loads false (e ∷ m) v = tt

pin_lines-Loads :
    (lines : List Str) (n : ℕ) (header : Bool) (m : List (Str × Str))
    → IsPinSet m
    → Loads (pin_lines n header m lines)
unfolding pin_lines
pin_lines-Loads [] n header m v = finish_pin-Loads header m v
pin_lines-Loads (line ∷ lines) n header m v = elim (Bool-cases (skipped line)) [
  | inl s ↦ rw s (pin_lines-Loads lines (suc n) header m v)
  | inr s ↦ rw s (elim (Bool-cases header) [
    | inr h ↦ rw h (elim (Bool-cases (does_match pin_header_re line)) [
      | inl k ↦ rw k (pin_lines-Loads lines (suc n) true m v)
      | inr k ↦ rw k tt
    ])
    | inl h ↦ rw h (elim (Option-cases (match_re pin_entry_re line)) [
      | inl e ↦ rw (e, pin_lines) tt
      | inr (r, e) ↦
          rw (e, pin_lines)
            (elim (Option-cases (check_entry n (group_of 1 r.caps) m)) [
              | inr (p, c) ↦ rw (c, pin_lines) tt
              | inl c ↦
                  let entry = pin_entry_re-IsEntry line r e in
                  let (inside, fresh) =
                    check_entry-IsInside n (group_of 1 r.caps) m
                      (name-relative (group_of 1 r.caps) entry.is_name) c in
                  rw (c, pin_lines)
                    (pin_lines-Loads lines (suc n) header
                      (m ++ (group_of 1 r.caps, group_of 2 r.caps) ∷ [])
                      (record {
                        distinct =
                            Distinct-append m (group_of 1 r.caps) (group_of 2 r.caps) v.distinct
                              fresh;
                        inside = All-append _ m _ v.inside (inside, tt);
                        entries = All-append _ m _ v.entries (entry, tt);
                      }))
            ])
    ])
  ])
]

-- The pins of an accepted pin file name each path once, every path relative, normalised and not
-- leaving the repository, `Makefile` among them, and each digest has 64 hexadecimal digits.
pub load_pin-IsPinSet :
    (file : Fetched) {m : List (Str × Str)}
    → load_pin file ≡ pins m
    → IsPinSet m × (has_key (codes "Makefile") m ≡ true)
unfolding load_pin
load_pin-IsPinSet missing e = cc
load_pin-IsPinSet unreadable e = cc
load_pin-IsPinSet (bytes b) {m} e = elim (Option-cases (decode_utf8 b)) [
  | inl d ↦ cc (rw (d, pin_text) at e)
  | inr (text, d) ↦ subst Loads (rw (d, pin_text) at e) (
      pin_lines-Loads (split_on b'\n' text) 1 false []
        (record { distinct = tt; inside = tt; entries = tt }))
]
