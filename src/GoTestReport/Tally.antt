-- ===== src/GoTestReport/Tally.antt =====
-- scripts/go-test-report.py, the loop over the event stream. A line is what `json.loads` makes of it; an
-- event has the text fields that `go test -json` writes.
use vizra_search.Base.{ℕ, suc, List, [], ◌∷◌, ◌++◌, if◌then◌else◌, Str, codes, str_eq, mem_str}

pub record Event : Type 0 where
  pub action : Str
  pub pkg : Str
  pub test : Str

-- A missing field is the empty text.
pub data Line : Type 0 where
  blank not_an_event : Line
  event : Event → Line

pub record Tally : Type 0 where
  pub passed : List (Str × Str)
  pub failed : List (Str × Str)
  pub skipped : List (Str × Str)
  pub pkg_ok : List Str
  pub pkg_failed : List Str
  pub pkg_no_tests : List Str
  pub malformed : ℕ
  pub events : ℕ

abbrev pub no_events : Tally
no_events = record {
  passed = [];
  failed = [];
  skipped = [];
  pkg_ok = [];
  pkg_failed = [];
  pkg_no_tests = [];
  malformed = 0;
  events = 0;
}

-- `ev.get("Package") or "(no package)"`
abbrev pub package_of : Str → Str
package_of [] = codes "(no package)"
package_of (c ∷ s) = c ∷ s

-- `s.add(x)`
unfoldable pub add : Str → List Str → List Str
unfolding mem_str
add p ps = if mem_str p ps then ps else ps ++ p ∷ []

-- An event of a test.
unfoldable pub count_test : Str → Str × Str → Tally → Tally
unfolding str_eq
count_test action key t =
    if str_eq action (codes "pass")
    then record t { passed = t.passed ++ key ∷ [] }
    else if str_eq action (codes "fail")
    then record t { failed = t.failed ++ key ∷ [] }
    else if str_eq action (codes "skip")
    then record t { skipped = t.skipped ++ key ∷ [] }
    else t

-- An event of a package.
unfoldable pub count_package : Str → Str → Tally → Tally
unfolding str_eq add
count_package action pkg t =
    if str_eq action (codes "pass")
    then record t { pkg_ok = add pkg t.pkg_ok }
    else if str_eq action (codes "fail")
    then record t { pkg_failed = add pkg t.pkg_failed }
    else if str_eq action (codes "skip")
    then record t { pkg_no_tests = add pkg t.pkg_no_tests }
    else t

-- The output of a test is kept for printing alone.
abbrev pub count_named : Str → Str → Str → Tally → Tally
count_named action pkg [] t = count_package action pkg t
count_named action pkg (c ∷ s) t = count_test action (pkg, c ∷ s) t

unfoldable pub count_line : Line → Tally → Tally
unfolding count_test count_package
count_line blank t = t
count_line not_an_event t = record t { malformed = suc t.malformed }
count_line (event ev) t =
    count_named ev.action (package_of ev.pkg) ev.test (record t { events = suc t.events })

unfoldable pub count_lines : List Line → Tally → Tally
unfolding count_line
count_lines [] t = t
count_lines (l ∷ lines) t = count_lines lines (count_line l t)

-- `passed + failed + skipped`
abbrev pub every : Tally → List (Str × Str)
every t = t.passed ++ (t.failed ++ t.skipped)

-- `per_package.get(pkg, 0)`
unfoldable pub tests_of : Str → List (Str × Str) → ℕ
unfolding str_eq
tests_of pkg [] = 0
tests_of pkg ((p, t) ∷ tests) =
    let rest = tests_of pkg tests in if str_eq pkg p then suc rest else rest
