-- ===== src/MakeIntegrity/Anchor/Passed.antt =====
-- scripts/make-integrity-guard.py, `main`: what a status of 0 says.
use vizra_search.MakeIntegrity.Anchor.Runs.{check_targets-Runs, and_then-clean, Runs}
use vizra_search.MakeIntegrity.Anchor.Started.{
  before_make-IsReady, failed-ne-passed, broken-ne-passed, IsReady, map-eq-nil,
}
use vizra_search.MakeIntegrity.Closure.{prerequisite_closure}
use vizra_search.Base.{
  Option-some, Bool, true, false, not, ◌≡◌, refl, sym, ap, ◌∙◌, Option, none, some, List, [], ◌∷◌,
  map, Str, codes, normpath, if◌then◌else◌,
}
use vizra_search.Makegate.Lines.{LogicalLine}
use vizra_search.Makegate.Gate.Machine.{
  Disk, read_bytes, Process, Host, World, done, gate_refused, crashed,
}
use vizra_search.Makegate.Gate.Bytes.{Checked}
use vizra_search.Makegate.Gate.Run.{Result, Gate, pinned_lines, remake_probe, recheck, gate_run}
use vizra_search.MakeIntegrity.Text.{check_text}
use vizra_search.MakeIntegrity.Resolver.{database_of, files_read}
use vizra_search.MakeIntegrity.Checks.{
  Failure, of_gate, of_text, as_pins, Before, ready, stopped, broken_off, before_make,
}
use vizra_search.MakeIntegrity.Anchor.{
  prerequisite_closure, Verdict, passed, failed, exists, Findings, and_then, is_zero, check_runs,
  check_targets, recheck_gate, last_probe, same_files, closure_of, text_findings, check_files_read,
  verdict_of, check_read, judge_first, resolve_first, gate_of, judge_probe, run_anchor, main,
  pn_args,
}

verdict_of-passed : (f : Findings) {w : World} → verdict_of f ≡ (passed, w) → f ≡ (some [], w)
verdict_of-passed (none, v) k = absurd (broken-ne-passed (ap (λ (x : Verdict × World). x.0) k))
verdict_of-passed (some [], v) k =
    ap (λ (x : World). (some [], x)) (ap (λ (x : Verdict × World). x.1) k)
verdict_of-passed (some (f ∷ fs), v) k =
    absurd (failed-ne-passed (ap (λ (x : Verdict × World). x.0) k))

-- The reading of the files found nothing, on the closure of the targets.
pub record IsReadClean (disk : Disk) (mfiles targets : List Str) : Type 0 where
  pub lines : List LogicalLine
  pub read : pinned_lines disk (as_pins (map normpath mfiles)) ≡ some lines
  pub closure : List Str
  pub expanded : prerequisite_closure lines targets ≡ some closure
  pub clean : check_text (λ rel. read_bytes (disk.entry (normpath rel))) mfiles closure targets ≡ []

closure_of-some :
    (lines : Option (List LogicalLine)) (targets : List Str) {closure : List Str}
    → closure_of lines targets ≡ some closure
    → ((ls : List LogicalLine) × (lines ≡ some ls)
        × (prerequisite_closure ls targets ≡ some closure))
closure_of-some none targets k = cc
closure_of-some (some ls) targets k = (ls, refl, k)

text_findings-clean :
    (disk : Disk) (mfiles targets : List Str) (closure : Option (List Str))
    → text_findings disk mfiles targets closure ≡ some []
    → ((c : List Str) × (closure ≡ some c)
        × (check_text (λ rel. read_bytes (disk.entry (normpath rel))) mfiles c targets ≡ []))
text_findings-clean disk mfiles targets none k = cc
text_findings-clean disk mfiles targets (some c) k = (c, refl, map-eq-nil of_text _ (Option-some k))

check_files_read-clean :
    (disk : Disk) (mfiles targets : List Str)
    → check_files_read disk mfiles targets ≡ some []
    → IsReadClean disk mfiles targets
unfolding check_files_read
check_files_read-clean disk mfiles targets k =
    let (closure, has_closure, clean) = text_findings-clean disk mfiles targets _ k in
    let (lines, read, expanded) =
      closure_of-some (pinned_lines disk (as_pins (map normpath mfiles))) targets has_closure in
    record { lines = lines; read = read; closure = closure; expanded = expanded; clean = clean }

-- The run behind the first reading found nothing either, and ended with the digests as they were.
pub record IsRunClean (h : Host) (gate : Gate) (targets mfiles : List Str) (w w' : World)
    : Type 0 where
  pub pinned_set : same_files (map normpath mfiles) gate.files ≡ true
  pub text_clean : IsReadClean w.disk mfiles targets
  pub ran : World
  pub runs : Runs h gate targets w ran
  pub unchanged : recheck h w'.disk gate.digests ≡ []

recheck_gate-clean :
    (h : Host) (gate : Gate) (w : World) {w' : World}
    → recheck_gate h gate w ≡ (some [], w')
    → recheck h w'.disk gate.digests ≡ []
unfolding recheck_gate
recheck_gate-clean h gate w k =
    ap (λ (v : World). recheck h v.disk gate.digests) (sym (ap (λ (x : Findings). x.1) k))
    ∙ map-eq-nil of_gate (recheck h w.disk gate.digests)
        (Option-some (ap (λ (x : Findings). x.0) k))

check_runs-clean :
    (h : Host) (gate : Gate) (targets : List Str) (w : World) {w' : World}
    → check_runs h gate targets w ≡ (some [], w')
    → ((ran : World) × Runs h gate targets w ran) × (recheck h w'.disk gate.digests ≡ [])
unfolding check_runs
check_runs-clean h gate targets w k =
    let w1 = (check_targets h gate targets w).1 in
    let w2 = (recheck_gate h gate w1).1 in
    let (of_targets, k1) =
      and_then-clean (check_targets h gate targets w)
        (λ v.
          and_then (recheck_gate h gate v)
            (λ u. and_then (last_probe h gate u) (recheck_gate h gate)))
        k in
    let (first, k2) =
      and_then-clean (recheck_gate h gate w1)
        (λ u. and_then (last_probe h gate u) (recheck_gate h gate)) k1 in
    let (probe, k3) = and_then-clean (last_probe h gate w2) (recheck_gate h gate) k2 in
    (
      (
        w1,
        check_targets-Runs h gate targets w
            (ap (λ (o : Option (List Failure)). (o, w1)) of_targets),
      ),
      recheck_gate-clean h gate (last_probe h gate w2).1 k3,
    )

unless_differs :
    (same : Bool) (fs : List Failure) (w : World) (onward : Findings) {w' : World}
    → (if not same then (failed fs, w) else verdict_of onward) ≡ (passed, w')
    → (same ≡ true) × (onward ≡ (some [], w'))
unless_differs true fs w onward k = (refl, verdict_of-passed onward k)
unless_differs false fs w onward k = absurd (failed-ne-passed (ap (λ (x : Verdict × World). x.0) k))

check_read-clean :
    (h : Host) (gate : Gate) (targets mfiles : List Str) (w : World) {w' : World}
    → check_read h gate targets mfiles w ≡ (passed, w')
    → IsRunClean h gate targets mfiles w w'
unfolding check_read
check_read-clean h gate targets mfiles w k =
    let (same, k1) = unless_differs _ _ _ _ k in
    let (texts, k2) =
      and_then-clean (check_files_read w.disk mfiles targets, w) (check_runs h gate targets) k1 in
    let (of_runs, unchanged) = check_runs-clean h gate targets w k2 in
    record {
      pinned_set = same;
      text_clean = check_files_read-clean w.disk mfiles targets texts;
      ran = of_runs.0;
      runs = of_runs.1;
      unchanged = unchanged;
    }

-- What the anchor has established when it ends with status 0 in the world `w'`.
pub record IsPassed (h : Host) (workflow : Bool) (targets : List Str) (w w' : World) : Type 0 where
  pub checked : Checked
  pub make : Str
  pub before : IsReady h workflow w.disk checked make
  -- the world after the first probe, and after the first reading of the database
  pub probed : World
  pub probe : remake_probe h make checked.order w ≡ (done tt, probed)
  pub target : Str
  pub others : List Str
  pub targets_are : targets ≡ target ∷ others
  pub database : Process
  pub read_in : World
  pub ran :
      gate_run h (gate_of checked make) true (pn_args target) probed ≡ (done database, read_in)
  pub ended_well : is_zero database.status ≡ true
  pub run :
      IsRunClean h
        (gate_of checked make)
        targets
        (files_read (database_of database.stdout))
        read_in
        w'

unless_fails :
    (zero_status : Bool) (fs : List Failure) (w : World) (onward : Verdict × World) {w' : World}
    → (if not zero_status then (failed fs, w) else onward) ≡ (passed, w')
    → (zero_status ≡ true) × (onward ≡ (passed, w'))
unless_fails true fs w onward k = (refl, k)
unless_fails false fs w onward k = absurd (failed-ne-passed (ap (λ (x : Verdict × World). x.0) k))

judge_first-passed :
    (h : Host) (gate : Gate) (t : Str) (targets : List Str) (r : Result Process) {w' : World}
    → judge_first h gate t targets r ≡ (passed, w')
    → ((proc : Process) × (w : World) × (r ≡ (done proc, w))
        × (is_zero proc.status ≡ true)
        × IsRunClean h gate targets (files_read (database_of proc.stdout)) w w')
judge_first-passed h gate t targets (gate_refused ps i, w) k =
    absurd (failed-ne-passed (ap (λ (x : Verdict × World). x.0) k))
judge_first-passed h gate t targets (crashed, w) k =
    absurd (broken-ne-passed (ap (λ (x : Verdict × World). x.0) k))
judge_first-passed h gate t targets (done proc, w) k =
    let (ended_well, k1) = unless_fails _ _ _ _ k in
    (proc, w, refl, ended_well, check_read-clean h gate targets _ w k1)

judge_probe-passed :
    (h : Host) (gate : Gate) (targets : List Str) (r : Result Unit) {w' : World}
    → judge_probe h gate targets r ≡ (passed, w')
    → ((w : World) × (r ≡ (done tt, w)) × (resolve_first h gate targets w ≡ (passed, w')))
judge_probe-passed h gate targets (gate_refused ps i, w) k =
    absurd (failed-ne-passed (ap (λ (x : Verdict × World). x.0) k))
judge_probe-passed h gate targets (crashed, w) k =
    absurd (broken-ne-passed (ap (λ (x : Verdict × World). x.0) k))
judge_probe-passed h gate targets (done u, w) k = (w, refl, k)

run_anchor-passed :
    (h : Host) (workflow : Bool) (targets : List Str) (w : World) (b : Before) {w' : World}
    → before_make h workflow w.disk ≡ b
    → run_anchor h targets w b ≡ (passed, w')
    → IsPassed h workflow targets w w'
unfolding run_anchor resolve_first
run_anchor-passed h workflow targets w (stopped fs) same k =
    absurd (failed-ne-passed (ap (λ (x : Verdict × World). x.0) k))
run_anchor-passed h workflow targets w broken_off same k =
    absurd (broken-ne-passed (ap (λ (x : Verdict × World). x.0) k))
run_anchor-passed h workflow [] w (ready c make) same k =
    let (w1, probe, k1) = judge_probe-passed h (gate_of c make) [] _ k in
    absurd (broken-ne-passed (ap (λ (x : Verdict × World). x.0) k1))
run_anchor-passed h workflow (t ∷ others) w (ready c make) same k =
    let (w1, probe, k1) = judge_probe-passed h (gate_of c make) (t ∷ others) _ k in
    let (proc, w2, ran, ended_well, run) =
      judge_first-passed h (gate_of c make) t (t ∷ others)
        (gate_run h (gate_of c make) true (pn_args t) w1) k1 in
    record {
      checked = c;
      make = make;
      before = before_make-IsReady h workflow w.disk same;
      probed = w1;
      probe = probe;
      target = t;
      others = others;
      targets_are = refl;
      database = proc;
      read_in = w2;
      ran = ran;
      ended_well = ended_well;
      run = run;
    }

-- If the anchor ends with status 0, its checks before make held and its first probe passed; the
-- database for the first target was read with status 0 and its MAKEFILE_LIST names exactly the files
-- of the read set; these files are as check_text-IsCleanText says, on the closure of the targets;
-- for each target in order make ended with status 0 and a database with the approved SHELL and
-- .SHELLFLAGS, no .ONESHELL, and a MAKEFLAGS that has none of thirteen refused words and whose first
-- word that is no option and no assignment has the letters p and n alone, and its dry run named no
-- duplicate and only commands that end with none of the listed suffixes, or are the exempt one; and
-- in the last world every pinned file has its digest.
pub main-IsPassed :
    (h : Host) (workflow : Bool) (targets : List Str) (w : World) {w' : World}
    → main h workflow targets w ≡ (passed, w')
    → IsPassed h workflow targets w w'
unfolding main
main-IsPassed h workflow targets w k =
    let (there_is, k1) = unless_fails (exists (w.disk.entry (codes "Makefile"))) _ _ _ k in
    run_anchor-passed h workflow targets w (before_make h workflow w.disk) refl k1
