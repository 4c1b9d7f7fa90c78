-- ===== src/Json/Decoded.antt =====
-- A decoded JSON value, and a dict as its entries in the order of insertion.
use vizra_search.Base.{
  ℕ, zero, suc, Bool, true, false, not, ◌||◌, Option, none, some, [], ◌∷◌, ◌==◌, if◌then◌else◌, Str,
  str_eq,
}

-- `fraction` is a float: its repr, and the natural number that it equals, if it equals one.
mutual
  pub data Json : Type 0 where
    null : Json
    bool : Bool → Json
    natural negative : ℕ → Json
    fraction : Str → Option ℕ → Json
    text : Str → Json
    array : Values → Json
    object : Dict → Json

  pub data Values : Type 0 where
    no_value : Values
    value : Json → Values → Values

  -- The entries of a dict, each key once.
  pub data Dict : Type 0 where
    no_entry : Dict
    entry : Str → Json → Dict → Dict

-- `d.get(k)`, with None for a missing key
unfoldable pub get : Str → Dict → Json
unfolding str_eq
get k no_entry = null
get k (entry j v m) = if str_eq k j then v else get k m

-- `k in d`
unfoldable pub contains : Str → Dict → Bool
unfolding str_eq
contains k no_entry = false
contains k (entry j v m) = str_eq k j || contains k m

-- `d[k] = v`: in the place of the key, and at the end if it is new.
unfoldable pub put : Str → Json → Dict → Dict
unfolding str_eq
put k v no_entry = entry k v no_entry
put k v (entry j w m) = let rest = put k v m in if str_eq k j then entry j v m else entry j w rest

-- `bool(v)`
abbrev pub is_true : Json → Bool
is_true null = false
is_true (bool b) = b
is_true (natural zero) = false
is_true (natural (suc n)) = true
is_true (negative n) = not (n == 0)
is_true (fraction shown (some zero)) = false
is_true (fraction shown (some (suc n))) = true
is_true (fraction shown none) = true
is_true (text []) = false
is_true (text (c ∷ s)) = true
is_true (array no_value) = false
is_true (array (value v vs)) = true
is_true (object no_entry) = false
is_true (object (entry k v m)) = true
