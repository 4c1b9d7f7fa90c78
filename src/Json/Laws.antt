-- ===== src/Json/Laws.antt =====
-- What a dict holds after an assignment.
use vizra_search.Base.{
  ◌||◌, true, false, ◌≡◌, refl, ◌||◌, inl, inr, ap, sym, Bool-cases, Str, str_eq, str_eq_iff,
  str_eq_refl,
}
use vizra_search.Json.Decoded.{Json, Dict, no_entry, entry, get, contains, put}

pub get-put : (k : Str) (v : Json) (d : Dict) → get k (put k v d) ≡ v
unfolding get put
get-put k v no_entry = rw (str_eq_refl k) refl
get-put k v (entry j w d) = elim (Bool-cases (str_eq k j)) [
  | inl e ↦ rw (e, e) refl
  | inr e ↦ rw (e, e) (get-put k v d)
]

-- Two keys of which `j` is the one assigned: one that differs keeps its value.
pub get-put_ne :
    (k j : Str) (v : Json) (d : Dict) → str_eq k j ≡ false → get k (put j v d) ≡ get k d
unfolding get put
get-put_ne k j v no_entry h = rw h refl
get-put_ne k j v (entry i w d) h = elim (Bool-cases (str_eq j i)) [
  | inl e ↦ rw (e, sym ((str_eq_iff j i).0 e), h) refl
  | inr e ↦ elim (Bool-cases (str_eq k i)) [
    | inl g ↦ rw (e, g) refl
    | inr g ↦ rw (e, g) (get-put_ne k j v d h)
  ]
]

pub contains-put : (k : Str) (v : Json) (d : Dict) → contains k (put k v d) ≡ true
unfolding contains put
contains-put k v no_entry = rw (str_eq_refl k) refl
contains-put k v (entry j w d) = elim (Bool-cases (str_eq k j)) [
  | inl e ↦ rw (e, e) refl
  | inr e ↦ rw (e, e) (contains-put k v d)
]

pub contains-put_ne :
    (k j : Str) (v : Json) (d : Dict) → str_eq k j ≡ false → contains k (put j v d) ≡ contains k d
unfolding contains put
contains-put_ne k j v no_entry h = rw h refl
contains-put_ne k j v (entry i w d) h = elim (Bool-cases (str_eq j i)) [
  | inl e ↦ rw (e, sym ((str_eq_iff j i).0 e), h) refl
  | inr e ↦ rw e (ap (λ b. str_eq k i || b) (contains-put_ne k j v d h))
]
