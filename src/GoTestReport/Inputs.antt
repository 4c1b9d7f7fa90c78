-- ===== src/GoTestReport/Inputs.antt =====
-- scripts/go-test-report.py, `main` up to the events: the floors file and the recorded exit code. A file
-- is an argument: what reading and decoding it gives. Printed text is left out.
use vizra_search.Json.{Json, bool, natural, object, Dict, no_entry, entry, get, contains, is_true}
use vizra_search.Base.{
  ℕ, suc, ◌+◌, ◌-◌, ◌*◌, Bool, true, false, not, ◌&&◌, ◌||◌, Option, none, some, List, [], ◌∷◌,
  ◌==◌, between, if◌then◌else◌, Str, codes, is_space, strip,
}

pub data FloorsFile : Type 0 where
  no_file not_json not_utf8 : FloorsFile
  document : Json → FloorsFile

pub data ExitFile : Type 0 where
  not_given not_recorded : ExitFile
  recorded : Str → ExitFile

-- Return with an exit status, end with an exception, or go on.
pub data Step (A : Type 0) : Type 0 where
  stop : ℕ → Step A
  crash : Step A
  next : A → Step A

abbrev pub and_then : {A B : Type 0} → Step A → (A → Step B) → Step B
and_then (stop n) f = stop n
and_then crash f = crash
and_then (next a) f = f a

-- The number, if the value is an `int` of at least 1; `True` is an int.
abbrev pub at_least_one : Json → Option ℕ
at_least_one (bool true) = some 1
at_least_one (natural (suc n)) = some (suc n)
at_least_one _ = none

pub record Floors : Type 0 where
  pub min_tests : ℕ
  pub packages : List (Str × ℕ)

-- The floors of at least 1, and whether there is another.
abbrev pub floors_of : Dict → List (Str × ℕ)
floors_of no_entry = []
floors_of (entry p v m) = elim (at_least_one v) [
  | some n ↦ (p, n) ∷ floors_of m
  | none ↦ floors_of m
]

abbrev pub has_vacuous : Dict → Bool
has_vacuous no_entry = false
has_vacuous (entry p v m) = elim (at_least_one v) [ some n ↦ has_vacuous m | none ↦ true ]

abbrev pub is_none_left : Dict → Bool
is_none_left no_entry = true
is_none_left (entry p v m) = false

abbrev pub package_floors : Bool → ℕ → Dict → Step Floors
package_floors emit min_tests m =
    if (is_none_left m || has_vacuous m) && not emit
    then stop 1
    else next (record { min_tests = min_tests; packages = floors_of m })

-- `floor.get("min_package_tests") or {}`, whose `items` only a dict has
abbrev pub package_step : Bool → ℕ → Json → Step Floors
package_step emit min_tests (object m) = package_floors emit min_tests m
package_step emit min_tests v = if is_true v then crash else package_floors emit min_tests no_entry

abbrev pub skips_step : Bool → ℕ → Dict → Step Floors
skips_step emit min_tests floor =
    if is_true (get (codes "allowed_skips") floor)
    then stop 1
    else package_step emit min_tests (get (codes "min_package_tests") floor)

abbrev pub min_step : Bool → Option ℕ → Dict → Step Floors
min_step emit none floor = stop 1
min_step emit (some n) floor = skips_step emit n floor

abbrev pub suite_step : Bool → Json → Step Floors
suite_step emit (object floor) = min_step emit (at_least_one (get (codes "min_tests") floor)) floor
suite_step emit v = crash

abbrev pub suites_step : Str → Bool → Json → Step Floors
suites_step suite emit (object suites) =
    if contains suite suites then suite_step emit (get suite suites) else stop 1
suites_step suite emit v = stop 1

abbrev pub document_step : Str → Bool → Json → Step Floors
document_step suite emit (object doc) = suites_step suite emit (get (codes "suites") doc)
document_step suite emit v = crash

-- The floors that the suite is held to.
unfoldable pub read_floors : Str → Bool → FloorsFile → Step Floors
unfolding get contains
read_floors suite emit no_file = stop 1
read_floors suite emit not_json = stop 1
read_floors suite emit not_utf8 = crash
read_floors suite emit (document v) = document_step suite emit v

abbrev pub is_digit : ℕ → Bool
is_digit c = between b'0' b'9' c

-- `int(s)` behind its sign, for ASCII digits, of which one `_` may stand between two.
unfoldable pub digits : ℕ → Str → Option ℕ
digits n [] = some n
digits n (c ∷ []) = if is_digit c then some (n * 10 + (c - b'0')) else none
digits n (c ∷ d ∷ s) =
    let onward = digits (n * 10 + (c - b'0')) (d ∷ s) in
    let over = digits (n * 10 + (c - b'0')) s in
    if not (is_digit c)
    then none
    else if d == b'_'
    then elim s [ [] ↦ none | e ∷ t ↦ over ]
    else onward

abbrev pub number_of : Str → Option ℕ
number_of [] = none
number_of (c ∷ s) = digits 0 (c ∷ s)

-- The distance of `int(s)` from zero: only whether it is zero is read.
abbrev pub int_size : Str → Option ℕ
int_size [] = none
int_size (c ∷ s) = if c == b'-' || c == b'+' then number_of s else number_of (c ∷ s)

abbrev pub exit_number : Option ℕ → Step ℕ
exit_number none = stop 1
exit_number (some n) = next n

unfoldable pub read_exit : ExitFile → Step ℕ
unfolding strip is_space digits
read_exit not_given = stop 1
read_exit not_recorded = stop 1
read_exit (recorded s) = exit_number (int_size (strip is_space s))
