-- ===== src/GoTestReport/Clean.antt =====
-- scripts/go-test-report.py, `main`: what the exit status 0 says of the events themselves.
use vizra_search.Base.{ℕ, ◌≤◌, ◌≡◌, true, false, subst, List, All, length, Str}
use vizra_search.GoTestReport.Inputs.{Floors}
use vizra_search.GoTestReport.Tally.{no_events, tests_of}
use vizra_search.GoTestReport.Verdict.{Args, has_floor, main}
use vizra_search.GoTestReport.Lane.{LanePasses, main-LanePasses}
use vizra_search.GoTestReport.Counted.{IsGood, passes_in, count_lines-good}

-- The tests that the stream reports as passed meet the floors.
pub record MeetsFloors (floors : Floors) (passed : List (Str × Str)) : Type 0 where
  pub enough : floors.min_tests ≤ length passed
  pub each_enough : All (λ (f : Str × ℕ). f.1 ≤ tests_of f.0 passed) floors.packages
  pub each_floored : All (λ (k : Str × Str). has_floor k.0 floors.packages ≡ true) passed

-- The inputs were read, and the events of the stream are those of a clean lane.
pub record IsCleanLane (args : Args) : Type 0 where
  pub inputs : LanePasses args
  pub ran : inputs.go_exit ≡ 0
  pub good : All IsGood inputs.lines
  pub meets : MeetsFloors inputs.floors (passes_in inputs.lines)

-- If the program judges a lane and ends with status 0, its inputs were read, every floor is at least
-- 1, `go test` exited with 0, the stream had an event, every line of it is empty or an event that is
-- neither a failure nor a skip, of a test or a package, and the tests that it reports as passed meet
-- the floor of the suite and of each package, each in a package with a floor.
pub main-IsCleanLane : (args : Args) → args.emit_floors ≡ false → main args ≡ 0 → IsCleanLane args
main-IsCleanLane args h e =
    let lane = main-LanePasses args h e in
    let p = lane.passes in
    let (quiet, good, passed) = count_lines-good lane.lines no_events (record {
      all_read = p.all_read;
      none_failed = p.none_failed;
      no_package_failed = p.no_package_failed;
      none_skipped = p.none_skipped;
      all_have_tests = p.all_have_tests;
    }) in
    record {
      inputs = lane;
      ran = p.ran;
      good = good;
      meets = subst (MeetsFloors lane.floors) passed (record {
        enough = p.enough;
        each_enough = p.each_enough;
        each_floored = p.each_floored;
      });
    }
