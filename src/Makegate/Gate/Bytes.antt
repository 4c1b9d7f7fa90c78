-- ===== src/Makegate/Gate/Bytes.antt =====
-- scripts/makegate.py, `check_pinned_bytes`: the pinned files match their pins, and make reads these
-- files and no other.
use vizra_search.Base.{
  ◌>>=◌, ℕ, Bool, true, false, not, ◌&&◌, ◌||◌, Option, none, some, List, [], ◌∷◌, ◌++◌, map, ◌==◌,
  ltb, if◌then◌else◌, take, Str, str_eq, mem_str, is_space, strip, decode_utf8,
}
use vizra_search.Regex.{Regex, char, seq, alt, lit, does_search}
use vizra_search.Makegate.Lines.{LogicalLine, makefile_lines}
use vizra_search.Makegate.Patterns.{is_bracket}
use vizra_search.Makegate.Pin.{missing, unreadable, bytes, pins, refused, load_pin, has_key}
use vizra_search.Makegate.ReadSet.{ReadSet, static_read_set, text_of}
use vizra_search.Makegate.Gate.Machine.{
  Entry, absent, unreachable, irregular, regular, Disk, Host, GateProblem, of_pin, does_not_exist,
  not_regular, not_utf8, digest_differs, of_read, not_pinned, stale, Outcome, done, gate_refused,
  crashed, make_was_not_invoked,
}

-- The order of `sorted` on texts.
unfoldable pub lt_str : Str → Str → Bool
lt_str s [] = false
lt_str [] (b ∷ t) = true
lt_str (a ∷ s) (b ∷ t) = ltb a b || (a == b && lt_str s t)

unfoldable pub insert_pin : Str × Str → List (Str × Str) → List (Str × Str)
unfolding lt_str
insert_pin e [] = e ∷ []
insert_pin e (f ∷ m) = let later = insert_pin e m in if lt_str f.0 e.0 then f ∷ later else e ∷ f ∷ m

-- `sorted(pins)`, each name with its digest
unfoldable pub sort_pins : List (Str × Str) → List (Str × Str)
unfolding insert_pin
sort_pins [] = []
sort_pins (e ∷ m) = insert_pin e (sort_pins m)

-- What the loop over the pins has collected.
pub record Pinned : Type 0 where
  pub problems : List GateProblem
  pub digests : List (Str × Str)
  pub texts : List (Str × Str)

-- One pinned file: `none` where an exception leaves the function.
unfoldable pub read_content : Str → Str → Str → List ℕ → Pinned
unfolding str_eq decode_utf8
read_content rel want digest data_bytes =
    if not (str_eq digest want)
    then record {
      problems = digest_differs rel digest want ∷ [];
      digests = (rel, digest) ∷ [];
      texts = [];
    }
    else elim (decode_utf8 data_bytes) [
      | none ↦ record { problems = not_utf8 rel ∷ []; digests = (rel, digest) ∷ []; texts = [] }
      | some text ↦ record { problems = []; digests = (rel, digest) ∷ []; texts = (rel, text) ∷ [] }
    ]

unfoldable pub read_entry : Host → Str → Str → Entry → Option Pinned
unfolding read_content
read_entry h rel want absent =
    some (record { problems = does_not_exist rel ∷ []; digests = []; texts = [] })
read_entry h rel want unreachable = none
read_entry h rel want (irregular f) =
    some (record { problems = not_regular rel ∷ []; digests = []; texts = [] })
read_entry h rel want (regular missing) = none
read_entry h rel want (regular unreadable) = none
read_entry h rel want (regular (bytes b)) = some (read_content rel want (h.sha256 b) b)

abbrev pub and_pinned : Pinned → Option Pinned → Option Pinned
and_pinned a none = none
and_pinned a (some b) = some (record {
  problems = a.problems ++ b.problems;
  digests = a.digests ++ b.digests;
  texts = a.texts ++ b.texts;
})

unfoldable pub read_pinned : Host → Disk → List (Str × Str) → Option Pinned
unfolding read_entry
read_pinned h disk [] = some (record { problems = []; digests = []; texts = [] })
read_pinned h disk ((rel, want) ∷ m) = elim (read_entry h rel want (disk.entry rel)) [
  | none ↦ none
  | some a ↦ and_pinned a (read_pinned h disk m)
]

unfoldable pub unpinned : List (Str × Str) → List Str → List GateProblem
unfolding has_key
unpinned m [] = []
unpinned m (f ∷ order) =
    let rest = unpinned m order in if has_key f m then rest else not_pinned f ∷ rest

-- `sorted(set(pins) - set(order))`, the pins being sorted
unfoldable pub stale_of : List Str → List (Str × Str) → List Str
unfolding mem_str
stale_of order [] = []
stale_of order ((rel, want) ∷ m) =
    let rest = stale_of order m in if mem_str rel order then rest else rel ∷ rest

-- `{rel: digests[rel] for rel in order}`; `none`: KeyError
unfoldable pub digests_of : List (Str × Str) → List Str → Option (List (Str × Str))
unfolding text_of
digests_of digests [] = some []
digests_of digests (rel ∷ order) = do
  digest ← text_of rel digests
  rest ← digests_of digests order
  some ((rel, digest) ∷ rest)

-- `_PARSE_TIME_EXEC_RE`
abbrev pub parse_time_exec_re : Regex
parse_time_exec_re =
    alt
      (seq (lit "$") (
        seq (char is_bracket)
          (seq (lit "shell") (char (λ c. is_space c || c == b')' || c == b'}')))))
      (lit "!=")

pub record Site : Type 0 where
  pub rel : Str
  pub n : ℕ
  pub shown : Str

unfoldable pub sites_in : Str → List LogicalLine → List Site
unfolding does_search strip is_space
sites_in rel [] = []
sites_in rel (rec ∷ lines) =
    let rest = sites_in rel lines in
    if does_search parse_time_exec_re rec.code
    then record { rel = rel; n = rec.n; shown = take 80 (strip is_space rec.code) } ∷ rest
    else rest

unfoldable pub sites_of : List (Str × Str) → List Str → Option (List Site)
unfolding text_of sites_in makefile_lines
sites_of texts [] = some []
sites_of texts (rel ∷ order) = do
  text ← text_of rel texts
  rest ← sites_of texts order
  some (sites_in rel (makefile_lines text) ++ rest)

-- `(order, digests, sites)`
pub record Checked : Type 0 where
  pub order : List Str
  pub digests : List (Str × Str)
  pub sites : List Site

unfoldable pub report_checked : Pinned → List Str → Outcome Checked
unfolding digests_of sites_of
report_checked r order = elim (sites_of r.texts order) [
  | none ↦ crashed
  | some sites ↦ elim (digests_of r.digests order) [
    | none ↦ crashed
    | some digests ↦ done (record { order = order; digests = digests; sites = sites })
  ]
]

-- From the read set on; `m` is sorted.
unfoldable pub judge : List (Str × Str) → Pinned → ReadSet → Outcome Checked
unfolding unpinned stale_of report_checked
judge m r s = elim (r.problems ++ (map of_read s.problems ++ unpinned m s.order)) [
  | p ∷ ps ↦ gate_refused (p ∷ ps) make_was_not_invoked
  | [] ↦ elim (stale_of s.order m) [
    | f ∷ fs ↦ gate_refused (stale (f ∷ fs) ∷ []) make_was_not_invoked
    | [] ↦ report_checked r s.order
  ]
]

-- A step's value is handed on; without one, the function is left.
abbrev pub or_crash {ℓ} : {A : Type ℓ} {B : Type 0} → Option A → (A → Outcome B) → Outcome B
or_crash none f = crashed
or_crash (some a) f = f a

unfoldable pub check_pinned_bytes : Host → Disk → Outcome Checked
unfolding load_pin sort_pins read_pinned static_read_set judge
check_pinned_bytes h disk = elim (load_pin disk.pin) [
  | refused p ↦ gate_refused (of_pin p ∷ []) make_was_not_invoked
  | pins m ↦
      or_crash (read_pinned h disk (sort_pins m))
        (λ r. or_crash (static_read_set disk.listing r.texts) (λ s. judge (sort_pins m) r s))
]
