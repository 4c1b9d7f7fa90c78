-- ===== src/VendorContract/Manifest/Inserted.antt =====
-- scripts/vendor-contract.py, `insert_after`: where the key stands in the copy, and what else it holds.
use vizra_search.Base.{
  or_left, or_right, Bool, true, false, ◌||◌, ◌≡◌, refl, ap, ◌∙◌, inl, inr, Option, none, some, Str,
  str_eq, str_eq_iff, str_eq_refl, str_eq_ne_sym, Bool-cases, if◌then◌else◌,
}
use vizra_search.Json.{Json, Dict, no_entry, entry, get, contains}
use vizra_search.VendorContract.Manifest.{insert_from, insert_after}

-- `d` without the key
unfoldable pub without : Str → Dict → Dict
unfolding str_eq
without key no_entry = no_entry
without key (entry k w d) =
    let rest = without key d in if str_eq k key then rest else entry k w rest

-- The entry at the end of the dict.
abbrev pub at_the_end : Dict → Str → Json → Dict
at_the_end no_entry key v = entry key v no_entry
at_the_end (entry k w d) key v = entry k w (at_the_end d key v)

abbrev first_key : Dict → Option Str
first_key no_entry = none
first_key (entry k w d) = some k

-- The key behind `anchor`.
unfoldable pub key_behind : Str → Dict → Option Str
unfolding str_eq
key_behind anchor no_entry = none
key_behind anchor (entry k w d) =
    let rest = key_behind anchor d in if str_eq k anchor then first_key d else rest

module _ (anchor key : Str) (v : Json) where
  get-insert_from : (d : Dict) → get key (insert_from false anchor key v d) ≡ v
  unfolding get insert_from
  get-insert_from no_entry = rw (str_eq_refl key) refl
  get-insert_from (entry k w d) = elim (Bool-cases (str_eq k key)) [
    | inl e ↦ rw e (get-insert_from d)
    | inr e ↦ elim (Bool-cases (str_eq k anchor)) [
      | inl a ↦ rw (e, a, str_eq_ne_sym k key e, str_eq_refl key) refl
      | inr a ↦ rw (e, a, str_eq_ne_sym k key e) (get-insert_from d)
    ]
  ]

  pub get-insert_after : (d : Dict) → get key (insert_after d anchor key v) ≡ v
  unfolding insert_after
  get-insert_after d = get-insert_from d

  get-insert_from_ne :
      (placed : Bool) (k : Str) (d : Dict)
      → str_eq k key ≡ false
      → get k (insert_from placed anchor key v d) ≡ get k d
  unfolding get insert_from
  get-insert_from_ne true k no_entry h = refl
  get-insert_from_ne false k no_entry h = rw h refl
  get-insert_from_ne placed k (entry j w d) h = elim (Bool-cases (str_eq j key)) [
    | inl e ↦ rw (e, ap (str_eq k) ((str_eq_iff j key).0 e) ∙ h) (get-insert_from_ne placed k d h)
    | inr e ↦ elim (Bool-cases (str_eq j anchor)) [
      | inl a ↦ elim (Bool-cases (str_eq k j)) [
        | inl g ↦ rw (e, a, g) refl
        | inr g ↦ rw (e, a, g, h) (get-insert_from_ne true k d h)
      ]
      | inr a ↦ elim (Bool-cases (str_eq k j)) [
        | inl g ↦ rw (e, a, g) refl
        | inr g ↦ rw (e, a, g) (get-insert_from_ne placed k d h)
      ]
    ]
  ]

  pub get-insert_after_ne :
      (k : Str) (d : Dict) → str_eq k key ≡ false → get k (insert_after d anchor key v) ≡ get k d
  unfolding insert_after
  get-insert_after_ne k d h = get-insert_from_ne false k d h

  contains-insert_from_ne :
      (placed : Bool) (k : Str) (d : Dict)
      → str_eq k key ≡ false
      → contains k (insert_from placed anchor key v d) ≡ contains k d
  unfolding contains insert_from
  contains-insert_from_ne true k no_entry h = refl
  contains-insert_from_ne false k no_entry h = rw h refl
  contains-insert_from_ne placed k (entry j w d) h = elim (Bool-cases (str_eq j key)) [
    | inl e ↦
        rw (e, ap (str_eq k) ((str_eq_iff j key).0 e) ∙ h) (contains-insert_from_ne placed k d h)
    | inr e ↦ elim (Bool-cases (str_eq j anchor)) [
      | inl a ↦ rw (e, a, h) (ap (λ b. str_eq k j || b) (contains-insert_from_ne true k d h))
      | inr a ↦ rw (e, a) (ap (λ b. str_eq k j || b) (contains-insert_from_ne placed k d h))
    ]
  ]

  pub contains-insert_after_ne :
      (k : Str) (d : Dict)
      → str_eq k key ≡ false
      → contains k (insert_after d anchor key v) ≡ contains k d
  unfolding insert_after
  contains-insert_after_ne k d h = contains-insert_from_ne false k d h

  without-insert_from :
      (placed : Bool) (d : Dict) → without key (insert_from placed anchor key v d) ≡ without key d
  unfolding without insert_from
  without-insert_from true no_entry = refl
  without-insert_from false no_entry = rw (str_eq_refl key) refl
  without-insert_from placed (entry k w d) = elim (Bool-cases (str_eq k key)) [
    | inl e ↦ rw e (without-insert_from placed d)
    | inr e ↦ elim (Bool-cases (str_eq k anchor)) [
      | inl a ↦ rw (e, a, e, str_eq_refl key) (ap (entry k w) (without-insert_from true d))
      | inr a ↦ rw (e, a, e) (ap (entry k w) (without-insert_from placed d))
    ]
  ]

  behind-insert_from :
      (d : Dict)
      → str_eq anchor key ≡ false
      → contains anchor d ≡ true
      → key_behind anchor (insert_from false anchor key v d) ≡ some key
  unfolding key_behind insert_from contains
  behind-insert_from no_entry ne h = cc
  behind-insert_from (entry k w d) ne h = elim (Bool-cases (str_eq k anchor)) [
    | inl a ↦ rw (ap (λ s. str_eq s key) ((str_eq_iff k anchor).0 a) ∙ ne, a, a) refl
    | inr a ↦
        let later = rw (str_eq_ne_sym k anchor a) at h in
        elim (Bool-cases (str_eq k key)) [
          | inl e ↦ rw e (behind-insert_from d ne later)
          | inr e ↦ rw (e, a, a) (behind-insert_from d ne later)
        ]
  ]

  end-insert_from :
      (d : Dict)
      → contains anchor d ≡ false
      → insert_from false anchor key v d ≡ at_the_end (without key d) key v
  unfolding without insert_from contains
  end-insert_from no_entry h = refl
  end-insert_from (entry k w d) h = elim (Bool-cases (str_eq k key)) [
    | inl e ↦ rw e (end-insert_from d (or_right (str_eq anchor k) _ h))
    | inr e ↦
        rw (e, str_eq_ne_sym anchor k (or_left (str_eq anchor k) _ h))
          (ap (entry k w) (end-insert_from d (or_right (str_eq anchor k) _ h)))
  ]

-- The copy holds the value at the key, and everything else in its order. The key stands behind
-- `anchor`, or at the end where the dict has no such key.
pub record IsInserted (d : Dict) (anchor key : Str) (v : Json) (copy : Dict) : Type 0 where
  pub holds_value : get key copy ≡ v
  pub keeps_others : without key copy ≡ without key d
  pub behind : contains anchor d ≡ true → key_behind anchor copy ≡ some key
  pub or_last : contains anchor d ≡ false → copy ≡ at_the_end (without key d) key v

-- insert_after's copy holds the value at the key and every other entry in its order, with the key
-- right behind the anchor, or at the end where the dict has no anchor. Condition: the anchor is not
-- the key.
pub insert_after-IsInserted :
    (d : Dict) (anchor key : Str) (v : Json)
    → str_eq anchor key ≡ false
    → IsInserted d anchor key v (insert_after d anchor key v)
unfolding insert_after
insert_after-IsInserted d anchor key v ne = record {
  holds_value = get-insert_from anchor key v d;
  keeps_others = without-insert_from anchor key v false d;
  behind = behind-insert_from anchor key v d ne;
  or_last = end-insert_from anchor key v d;
}
