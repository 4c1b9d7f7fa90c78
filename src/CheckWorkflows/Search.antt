-- ===== src/CheckWorkflows/Search.antt =====
-- scripts/check-workflows.py, `normalise`, `find_forbidden`, `value_kind` and `raw_key_spelling`. The
-- parser is PyYAML's; a document is the tree that it gives, with aliases written out.
use Prim.Native.Nat.{◌/◌, ◌%◌}
use vizra_search.Base.{
  ◌+◌, zero, ltb, true, false, not, split_on, char_in, lower, is_space, ◌∷◌, suc, [], ◌||◌, List,
  ◌++◌, strip, starts_with, ℕ, Bool, ◌==◌, if◌then◌else◌, Str, codes, str_eq,
}

-- A key is a text, or another value with the text that `str` gives.
pub data Key : Type 0 where
  named other_key : Str → Key

mutual
  pub data Yaml : Type 0 where
    truth : Bool → Yaml
    text : Str → Yaml
    null scalar : Yaml
    array : Items → Yaml
    mapping : Entries → Yaml

  pub data Items : Type 0 where
    no_item : Items
    item : Yaml → Items → Items

  pub data Entries : Type 0 where
    no_entry : Entries
    entry : Key → Yaml → Entries → Entries

abbrev pub forbidden : Str
forbidden = codes "continue-on-error"

abbrev pub is_quote : ℕ → Bool
is_quote c = c == b'"' || c == b'\''

unfoldable pub fold_text : Str → Str
unfolding strip is_space lower
fold_text s = lower (strip is_space (strip is_quote (strip is_space s)))

-- `normalise`
unfoldable pub normalise : Key → Str
unfolding fold_text
normalise (named s) = fold_text s
normalise (other_key s) = []

abbrev pub shown_key : Key → Str
shown_key (named s) = s
shown_key (other_key s) = s

-- `str(i)`, on fuel
unfoldable pub decimal : ℕ → ℕ → Str
decimal zero n = []
decimal (suc fuel) n =
    let front = decimal fuel (n / 10) in
    if ltb n 10 then (b'0' + n) ∷ [] else front ++ (b'0' + n % 10) ∷ []

abbrev pub at_index : Str → ℕ → Str
at_index path i = path ++ (b'[' ∷ (decimal (suc i) i ++ b']' ∷ []))

abbrev pub at_key : Str → Key → Str
at_key path key = path ++ (b'.' ∷ shown_key key)

abbrev pub hit_if : Bool → Str → Yaml → List (Str × Yaml)
hit_if true path value = (path, value) ∷ []
hit_if false path value = []

-- `find_forbidden`, as the list of what it yields
unfoldable mutual
  unfolding normalise str_eq decimal

  pub find_forbidden : Yaml → Str → List (Str × Yaml)
  find_forbidden (mapping m) path = find_entries m path
  find_forbidden (array vs) path = find_items vs path 0
  find_forbidden _ path = []

  pub find_entries : Entries → Str → List (Str × Yaml)
  find_entries no_entry path = []
  find_entries (entry key value m) path =
      hit_if (str_eq (normalise key) forbidden) (at_key path key) value
      ++ (find_forbidden value (at_key path key) ++ find_entries m path)

  pub find_items : Items → Str → ℕ → List (Str × Yaml)
  find_items no_item path i = []
  find_items (item v vs) path i = find_forbidden v (at_index path i) ++ find_items vs path (suc i)

-- `part in s`
unfoldable pub has_part : Str → Str → Bool
unfolding starts_with
has_part part [] = starts_with part []
has_part part (c ∷ s) = starts_with part (c ∷ s) || has_part part s

pub data ValueKind : Type 0 where
  literal_true literal_false expression other : ValueKind

unfoldable pub value_kind : Yaml → ValueKind
unfolding has_part
value_kind (truth true) = literal_true
value_kind (truth false) = literal_false
value_kind (text s) = if has_part (codes "${{") s then expression else other
value_kind _ = other

abbrev pub first_of : List Str → Str
first_of [] = []
first_of (w ∷ ws) = w

-- The loop of `raw_key_spelling` over the lines.
unfoldable pub spelling_in : List Str → Str
unfolding strip is_space char_in starts_with split_on fold_text str_eq
spelling_in [] = codes "<unlocated>"
spelling_in (line ∷ lines) =
    let stripped = strip is_space line in
    let written = strip is_space (first_of (split_on b':' stripped)) in
    let later = spelling_in lines in
    if not (char_in b':' stripped) || starts_with (codes "#") stripped
    then later
    else if str_eq (fold_text written) forbidden
    then written
    else later
