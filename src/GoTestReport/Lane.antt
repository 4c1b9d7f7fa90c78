-- ===== src/GoTestReport/Lane.antt =====
-- What the exit status 0 of the program says of the lane.
use vizra_search.Base.{
  ==_iff, ℕ, zero, suc, ◌≡◌, ◌≢◌, refl, sym, ◌∙◌, subst, false, inl, inr, Option, none, some, List,
  ◌==◌, Bool-cases, arith,
}
use vizra_search.GoTestReport.Inputs.{
  Step, stop, crash, next, and_then, Floors, read_floors, read_exit,
}
use vizra_search.GoTestReport.Tally.{Line, Tally, no_events, count_lines}
use vizra_search.GoTestReport.Verdict.{Args, judge, status_of, events_step, to_status, main}
use vizra_search.GoTestReport.Floors.{
  StopsWithOne, read_exit-StopsWithOne, AreFloors, ReadsFloors, read_floors-ReadsFloors,
}
use vizra_search.GoTestReport.Passes.{Passes-count_problems, Passes, count_problems-Passes}

-- The files were all there, and what they say passes.
pub record LanePasses (args : Args) : Type 0 where
  pub floors : Floors
  pub go_exit : ℕ
  pub lines : List Line
  pub read : read_floors args.suite false args.floors ≡ next floors
  pub exit_read : read_exit args.go_exit_file ≡ next go_exit
  pub lines_read : args.events ≡ some lines
  pub are_floors : AreFloors floors
  pub some_event : (count_lines lines no_events).events ≢ 0
  pub passes : Passes floors go_exit (count_lines lines no_events)

one-ne-zero : suc zero ≢ zero
one-ne-zero e = omega (arith, e)

status_of-zero : (n : ℕ) → status_of n ≡ 0 → n ≡ 0
status_of-zero zero e = refl
status_of-zero (suc n) e = absurd (omega (arith, e))

judge-Passes :
    (floors : Floors) (go_exit : ℕ) (t : Tally)
    → judge false floors go_exit t ≡ 0
    → (t.events ≢ 0) × Passes floors go_exit t
unfolding judge
judge-Passes floors go_exit t e = elim (Bool-cases (t.events == 0)) [
  | inl k ↦ absurd (one-ne-zero (rw k at e))
  | inr k ↦
      ((λ z. ground arith), count_problems-Passes floors go_exit t (status_of-zero _ (rw k at e)))
]

lane-LanePasses :
    (args : Args) (f : Step Floors) (x : Step ℕ) (o : Option (List Line))
    → read_floors args.suite false args.floors ≡ f
    → read_exit args.go_exit_file ≡ x
    → args.events ≡ o
    → ReadsFloors f
    → to_status (and_then f (λ floors. and_then x (λ go_exit. events_step false floors go_exit o)))
      ≡ 0
    → LanePasses args
lane-LanePasses args (stop n) x o a b c r e = absurd (one-ne-zero (sym r ∙ e))
lane-LanePasses args crash x o a b c r e = absurd (one-ne-zero e)
lane-LanePasses args (next floors) (stop n) o a b c r e =
    absurd (one-ne-zero (sym (subst StopsWithOne b (read_exit-StopsWithOne args.go_exit_file)) ∙ e))
lane-LanePasses args (next floors) crash o a b c r e = absurd (one-ne-zero e)
lane-LanePasses args (next floors) (next go_exit) none a b c r e = absurd (one-ne-zero e)
lane-LanePasses args (next floors) (next go_exit) (some lines) a b c r e =
    let (ran, passes) = judge-Passes floors go_exit (count_lines lines no_events) e in
    record {
      floors = floors;
      go_exit = go_exit;
      lines = lines;
      read = a;
      exit_read = b;
      lines_read = c;
      are_floors = r;
      some_event = ran;
      passes = passes;
    }

-- If the program judges a lane and ends with status 0, its inputs were read, every floor is at least
-- 1, the stream had an event and no line that is none, `go test` exited with 0, the tally of the
-- stream holds no failed or skipped test or package and no package without test files, and its
-- passed tests meet the floor of the suite and of each package, each in a package with a floor.
pub main-LanePasses : (args : Args) → args.emit_floors ≡ false → main args ≡ 0 → LanePasses args
unfolding main
main-LanePasses args h e =
    lane-LanePasses args (read_floors args.suite false args.floors) (read_exit args.go_exit_file)
      args.events refl refl refl (read_floors-ReadsFloors args.suite false args.floors)
      (subst
        (λ b.
          to_status (
            and_then (read_floors args.suite b args.floors) (λ floors.
              and_then (read_exit args.go_exit_file)
                (λ go_exit. events_step b floors go_exit args.events)))
          ≡ 0)
        h e)

nonzero_test : (n : ℕ) → n ≢ 0 → (n == 0) ≡ false
nonzero_test n h = elim (Bool-cases (n == 0)) [ inl k ↦ absurd (h ((==_iff n 0).0 k)) | inr k ↦ k ]

Passes-judge :
    (floors : Floors) (go_exit : ℕ) (t : Tally)
    → t.events ≢ 0
    → Passes floors go_exit t
    → judge false floors go_exit t ≡ 0
unfolding judge
Passes-judge floors go_exit t h p =
    rw (nonzero_test t.events h, Passes-count_problems floors go_exit t p) refl

LanePasses-steps :
    (args : Args) (f : Step Floors) (x : Step ℕ) (o : Option (List Line)) (l : LanePasses args)
    → f ≡ next l.floors
    → x ≡ next l.go_exit
    → o ≡ some l.lines
    → to_status (and_then f (λ floors. and_then x (λ go_exit. events_step false floors go_exit o)))
      ≡ 0
LanePasses-steps args f x o l a b c =
    rw (a, b, c)
      (Passes-judge l.floors l.go_exit (count_lines l.lines no_events) l.some_event l.passes)

-- If the program judges a lane, its inputs were read, every floor is at least 1, `go test` exited
-- with 0, the stream had an event, and its tally has no failed, skipped or unread entry and meets
-- every floor, with each test in a package with a floor, then the program ends with status 0.
pub LanePasses-main : (args : Args) → args.emit_floors ≡ false → LanePasses args → main args ≡ 0
unfolding main
LanePasses-main args h l =
    subst
      (λ b.
        to_status (
          and_then (read_floors args.suite b args.floors) (λ floors.
            and_then (read_exit args.go_exit_file)
              (λ go_exit. events_step b floors go_exit args.events)))
        ≡ 0)
      (sym h)
      (LanePasses-steps args (read_floors args.suite false args.floors)
        (read_exit args.go_exit_file) args.events l l.read l.exit_read l.lines_read)
