-- ===== src/CheckWorkflows/Found.antt =====
-- The search finds a key wherever it stands.
use vizra_search.Base.{
  ℕ, suc, ◌≡◌, ◌≢◌, refl, Bool, true, false, [], append-eq-nil_left, append-eq-nil_right, Str,
  str_eq, str_eq_iff, arith,
}
use vizra_search.CheckWorkflows.Search.{
  Key, Yaml, truth, text, null, scalar, array, mapping, Items, no_item, item, Entries, no_entry,
  entry, forbidden, normalise, at_index, at_key, hit_if, find_forbidden, find_entries, find_items,
}

-- `k` is a key of the mapping, or of a mapping below one of its values, at any depth.
mutual
  pub data Below (k : Key) : Yaml → Type 0 where
    in_mapping : {m : Entries} → InEntries k m → Below k (mapping m)
    in_array : {vs : Items} → InItems k vs → Below k (array vs)

  pub data InEntries (k : Key) : Entries → Type 0 where
    here : {v : Yaml} {m : Entries} → InEntries k (entry k v m)
    below : {j : Key} {v : Yaml} {m : Entries} → Below k v → InEntries k (entry j v m)
    later : {j : Key} {v : Yaml} {m : Entries} → InEntries k m → InEntries k (entry j v m)

  pub data InItems (k : Key) : Items → Type 0 where
    in_item : {v : Yaml} {vs : Items} → Below k v → InItems k (item v vs)
    in_later : {v : Yaml} {vs : Items} → InItems k vs → InItems k (item v vs)

hit_if-nil : (b : Bool) (path : Str) (v : Yaml) → hit_if b path v ≡ [] → b ≡ false
hit_if-nil true path v e = cc
hit_if-nil false path v e = refl

str_eq-false : (s t : Str) → str_eq s t ≡ false → s ≢ t
str_eq-false s t h e = ground (arith, str_eq_iff s t)

-- Where the search yields nothing, no key below the node is the forbidden one, however it is written.
mutual
  unfolding find_forbidden find_entries find_items

  pub find_forbidden-nil :
      {k : Key} (node : Yaml) (path : Str)
      → find_forbidden node path ≡ []
      → Below k node
      → normalise k ≢ forbidden
  find_forbidden-nil (truth b) path e x = elim x [ ]
  find_forbidden-nil (text s) path e x = elim x [ ]
  find_forbidden-nil null path e x = elim x [ ]
  find_forbidden-nil scalar path e x = elim x [ ]
  find_forbidden-nil (mapping m) path e (in_mapping i) = find_entries-nil m path e i
  find_forbidden-nil (array vs) path e (in_array i) = find_items-nil vs path 0 e i

  find_entries-nil :
      {k : Key} (m : Entries) (path : Str)
      → find_entries m path ≡ []
      → InEntries k m
      → normalise k ≢ forbidden
  find_entries-nil no_entry path e x = elim x [ ]
  find_entries-nil (entry key value m) path e here = str_eq-false (normalise key) forbidden (
      hit_if-nil (str_eq (normalise key) forbidden) (at_key path key) value
        (append-eq-nil_left _ _ e))
  find_entries-nil (entry key value m) path e (below b) =
      find_forbidden-nil value (at_key path key)
        (append-eq-nil_left _ (find_entries m path) (
          append-eq-nil_right (hit_if (str_eq (normalise key) forbidden) (at_key path key) value) _
            e))
        b
  find_entries-nil (entry key value m) path e (later i) =
      find_entries-nil m path
        (append-eq-nil_right (find_forbidden value (at_key path key)) _ (
          append-eq-nil_right (hit_if (str_eq (normalise key) forbidden) (at_key path key) value) _
            e))
        i

  find_items-nil :
      {k : Key} (vs : Items) (path : Str) (i : ℕ)
      → find_items vs path i ≡ []
      → InItems k vs
      → normalise k ≢ forbidden
  find_items-nil no_item path i e x = elim x [ ]
  find_items-nil (item v vs) path i e (in_item b) =
      find_forbidden-nil v (at_index path i) (append-eq-nil_left _ (find_items vs path (suc i)) e) b
  find_items-nil (item v vs) path i e (in_later l) =
      find_items-nil vs path (suc i) (append-eq-nil_right (find_forbidden v (at_index path i)) _ e)
        l
