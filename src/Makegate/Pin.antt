-- ===== src/Makegate/Pin.antt =====
-- scripts/makegate.py, `load_pin`: the pin file .github/pinned-makefiles.yml and its one accepted
-- shape. `root / PIN_FILE` is the argument: what reading its bytes gives.
pub mod Entry
pub mod Valid
use vizra_search.Base.{
  ℕ, zero, suc, Bool, true, false, not, ◌||◌, Option, none, some, List, [], ◌∷◌, ◌++◌, between,
  if◌then◌else◌, Str, codes, str_eq, starts_with, is_space, strip, split_on, decode_utf8, normpath,
}
use vizra_search.Regex.{
  Regex, empty, char, seq, star, group, dollar, lit, match_re, does_match, group_of,
}
use vizra_search.Makegate.Patterns.{blanks, name_char, word_char}

-- `FileNotFoundError`, another `OSError`, or the bytes.
pub data Fetched : Type 0 where
  missing unreadable : Fetched
  bytes : List ℕ → Fetched

pub data PinProblem : Type 0 where
  no_pin_file not_readable : PinProblem
  not_header not_entry not_normalised pinned_twice : ℕ → Str → PinProblem
  pins_nothing pins_no_makefile : PinProblem

-- The entries, or the one problem that is raised.
pub data Loaded : Type 0 where
  pins : List (Str × Str) → Loaded
  refused : PinProblem → Loaded

abbrev pub times : ℕ → Regex → Regex
times zero r = empty
times (suc n) r = seq r (times n r)

abbrev pub hex_digit : ℕ → Bool
hex_digit c = between b'0' b'9' c || between b'a' b'f' c

-- `PIN_HEADER_RE`
abbrev pub pin_header_re : Regex
pin_header_re = seq (lit "makefiles:") (seq blanks dollar)

-- `PIN_ENTRY_RE`
abbrev pub pin_entry_re : Regex
pin_entry_re = seq (lit "  ") (
    seq (group 1 (seq (char name_char) (star (char word_char))))
      (seq (lit ": ") (seq (group 2 (times 64 (char hex_digit))) (seq blanks dollar))))

unfoldable pub has_key : Str → List (Str × Str) → Bool
unfolding str_eq
has_key k [] = false
has_key k ((j, v) ∷ m) = str_eq k j || has_key k m

-- `not line.strip() or line.startswith("#")`
unfoldable pub skipped : Str → Bool
unfolding strip is_space
skipped line = elim (strip is_space line) [ [] ↦ true | c ∷ s ↦ starts_with (codes "#") line ]

-- `name != os.path.normpath(name) or name.startswith("../") or name == ".."`
unfoldable pub leaves_repository : Str → Bool
unfolding str_eq normpath starts_with
leaves_repository name =
    not (str_eq name (normpath name)) || starts_with (codes "../") name || str_eq name (codes "..")

-- A matched entry: the checks on its name.
unfoldable pub check_entry : ℕ → Str → List (Str × Str) → Option PinProblem
unfolding leaves_repository has_key
check_entry n name entries =
    if leaves_repository name
    then some (not_normalised n name)
    else if has_key name entries
    then some (pinned_twice n name)
    else none

-- After the loop.
unfoldable pub finish_pin : Bool → List (Str × Str) → Loaded
unfolding has_key
finish_pin header entries = elim entries [
  | [] ↦ refused pins_nothing
  | e ∷ es ↦
      if not header
      then refused pins_nothing
      else if has_key (codes "Makefile") (e ∷ es)
      then pins (e ∷ es)
      else refused pins_no_makefile
]

-- The loop; `entries` is a dict in insertion order.
unfoldable pub pin_lines : ℕ → Bool → List (Str × Str) → List Str → Loaded
unfolding skipped does_match match_re group_of check_entry finish_pin
pin_lines n header entries [] = finish_pin header entries
pin_lines n header entries (line ∷ lines) =
    let next = pin_lines (suc n) header entries lines in
    let opened = pin_lines (suc n) true entries lines in
    let entered =
      λ (name digest : Str). pin_lines (suc n) header (entries ++ (name, digest) ∷ []) lines in
    if skipped line
    then next
    else if not header
    then (if does_match pin_header_re line then opened else refused (not_header n line))
    else elim (match_re pin_entry_re line) [
      | none ↦ refused (not_entry n line)
      | some m ↦ elim (check_entry n (group_of 1 m.caps) entries) [
        | some problem ↦ refused problem
        | none ↦ entered (group_of 1 m.caps) (group_of 2 m.caps)
      ]
    ]

abbrev pub pin_text : Option Str → Loaded
pin_text none = refused not_readable
pin_text (some text) = pin_lines 1 false [] (split_on b'\n' text)

unfoldable pub load_pin : Fetched → Loaded
unfolding decode_utf8 pin_lines split_on
load_pin missing = refused no_pin_file
load_pin unreadable = refused not_readable
load_pin (bytes data_bytes) = pin_text (decode_utf8 data_bytes)
