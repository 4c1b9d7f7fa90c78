-- ===== src/GoTestReport/Tests.antt =====
-- The report on a lane of one package with two tests.
use vizra_search.GoTestReport.Clean.{main-IsCleanLane, IsCleanLane}
use vizra_search.Base.{◌≡◌, refl, false, some, [], ◌∷◌, Str, codes}
use vizra_search.Json.{natural, object, no_entry, entry, Dict}
use vizra_search.GoTestReport.Inputs.{document, recorded}
use vizra_search.GoTestReport.Tally.{Line, event, blank}
use vizra_search.GoTestReport.Verdict.{Args, main}
use vizra_search.GoTestReport.Lane.{LanePasses-main, main-LanePasses}

abbrev floors : Dict
floors =
    entry (codes "suites")
      (object (
        entry (codes "unit")
          (object (
            entry (codes "min_tests") (natural 2) (
              entry (codes "min_package_tests") (object (entry (codes "m/a") (natural 1) no_entry))
                no_entry)))
          no_entry))
      no_entry

abbrev line : Str → Str → Line
line action test = event (record { action = action; pkg = codes "m/a"; test = test })

abbrev lane : Str → Args
lane action = record {
  suite = codes "unit";
  emit_floors = false;
  floors = document (object floors);
  go_exit_file = recorded (codes " 0\n");
  events = some (
      line (codes "pass") (codes "TestA")
      ∷ blank
      ∷ line action (codes "TestB")
      ∷ line (codes "pass") []
      ∷ []);
}

lane_passes : main (lane (codes "pass")) ≡ 0
unfolding main
lane_passes = refl

skip_is_refused : main (lane (codes "skip")) ≡ 1
unfolding main
skip_is_refused = refl

main-IsCleanLane_example : IsCleanLane (lane (codes "pass"))
main-IsCleanLane_example = main-IsCleanLane (lane (codes "pass")) refl lane_passes

LanePasses-main_example : main (lane (codes "pass")) ≡ 0
LanePasses-main_example =
    LanePasses-main (lane (codes "pass")) refl
      (main-LanePasses (lane (codes "pass")) refl lane_passes)
