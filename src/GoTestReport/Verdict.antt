-- ===== src/GoTestReport/Verdict.antt =====
-- scripts/go-test-report.py, `main` from the counts on: the problems, and the exit status.
use vizra_search.Base.{
  ℕ, zero, suc, ◌+◌, Bool, true, false, not, ◌||◌, Option, none, some, List, [], ◌∷◌, ◌==◌, ltb,
  if◌then◌else◌, length, Str, str_eq,
}
use vizra_search.GoTestReport.Inputs.{
  FloorsFile, ExitFile, Step, stop, crash, next, and_then, Floors, read_floors, read_exit,
}
use vizra_search.GoTestReport.Tally.{Line, Tally, no_events, count_lines, every, tests_of}

abbrev pub one_if : Bool → ℕ
one_if true = 1
one_if false = 0

abbrev pub some_left : {A : Type 0} → List A → Bool
some_left [] = false
some_left (x ∷ xs) = true

-- `any(p == pkg for p, _ in failed)`
abbrev pub has_test : Str → List (Str × Str) → Bool
has_test pkg tests = not (tests_of pkg tests == 0)

-- The packages that failed with no failing test.
unfoldable pub unexplained : List (Str × Str) → List Str → ℕ
unfolding tests_of
unexplained failed [] = 0
unexplained failed (p ∷ ps) =
    let rest = unexplained failed ps in if has_test p failed then rest else suc rest

-- The floors that are not met.
unfoldable pub below : List (Str × Str) → List (Str × ℕ) → ℕ
unfolding tests_of
below tests [] = 0
below tests ((p, want) ∷ floors) =
    let rest = below tests floors in if ltb (tests_of p tests) want then suc rest else rest

unfoldable pub has_floor : Str → List (Str × ℕ) → Bool
unfolding str_eq
has_floor p [] = false
has_floor p ((q, n) ∷ floors) = str_eq p q || has_floor p floors

-- Whether a test ran in a package that has no floor.
unfoldable pub unfloored : List (Str × ℕ) → List (Str × Str) → Bool
unfolding has_floor
unfloored floors [] = false
unfloored floors ((p, t) ∷ tests) = not (has_floor p floors) || unfloored floors tests

-- `problems` at the end of `main`. A nonzero exit code of `go test` is one in both of its branches.
unfoldable pub count_problems : Floors → ℕ → Tally → ℕ
unfolding unexplained below unfloored
count_problems floors go_exit t =
    one_if (not (t.malformed == 0))
    + (one_if (some_left t.failed)
        + (unexplained t.failed t.pkg_failed
            + (length t.skipped
                + (length t.pkg_no_tests
                    + (one_if (ltb (length (every t)) floors.min_tests)
                        + (below (every t) floors.packages
                            + (one_if (unfloored floors.packages (every t))
                                + one_if (not (go_exit == 0)))))))))

-- The command line and what the files give; `none` stands for an events file that does not exist.
pub record Args : Type 0 where
  pub suite : Str
  pub emit_floors : Bool
  pub floors : FloorsFile
  pub go_exit_file : ExitFile
  pub events : Option (List Line)

abbrev pub status_of : ℕ → ℕ
status_of zero = 0
status_of (suc n) = 1

-- From `if events == 0` on.
unfoldable pub judge : Bool → Floors → ℕ → Tally → ℕ
unfolding count_problems
judge emit floors go_exit t =
    if t.events == 0 then 1 else if emit then 0 else status_of (count_problems floors go_exit t)

abbrev pub events_step : Bool → Floors → ℕ → Option (List Line) → Step ℕ
events_step emit floors go_exit none = stop 1
events_step emit floors go_exit (some lines) =
    next (judge emit floors go_exit (count_lines lines no_events))

-- Python ends a program that an exception leaves with status 1.
abbrev pub to_status : Step ℕ → ℕ
to_status (stop n) = n
to_status crash = 1
to_status (next n) = n

unfoldable pub main : Args → ℕ
unfolding read_floors read_exit count_lines judge
main args = to_status (
    and_then (read_floors args.suite args.emit_floors args.floors) (λ floors.
      and_then (read_exit args.go_exit_file)
        (λ go_exit. events_step args.emit_floors floors go_exit args.events)))
