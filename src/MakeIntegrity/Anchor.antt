-- ===== src/MakeIntegrity/Anchor.antt =====
-- scripts/make-integrity-guard.py, `main` behind its argument parser, with `run_make`, `resolve_database`
-- and `check_warnings`, which start make. The world is that of the gate: the files, and the processes
-- of make so far.
pub mod Started
pub mod Runs
pub mod Passed
mod Tests
use vizra_search.Base.{
  ℕ, zero, suc, Bool, true, false, not, ◌&&◌, Option, none, some, List, [], ◌∷◌, ◌++◌, map,
  if◌then◌else◌, Str, codes, mem_str, normpath,
}
use vizra_search.Makegate.Lines.{LogicalLine}
use vizra_search.Makegate.Pin.{missing, unreadable, bytes}
use vizra_search.Makegate.Gate.Machine.{
  Disk, Entry, absent, unreachable, irregular, regular, read_bytes, Status, exited, signalled,
  Process, Host, World, Outcome, done, gate_refused, crashed,
}
use vizra_search.Makegate.Gate.Bytes.{Checked}
use vizra_search.Makegate.Gate.Run.{Result, Gate, pinned_lines, remake_probe, recheck, gate_run}
use vizra_search.MakeIntegrity.Recipe.{check_expanded_commands}
use vizra_search.MakeIntegrity.Text.{check_text}
use vizra_search.MakeIntegrity.Resolver.{
  duplicate_definition, database_of, files_read, check_resolved, warns_of_duplicate,
}
use vizra_search.MakeIntegrity.Closure.{prerequisite_closure}
use vizra_search.MakeIntegrity.Checks.{
  Before, Failure, as_pins, before_make, broken_off, make_failed, no_makefile, of_command, of_gate,
  of_resolver, of_text, read_differs, ready, stopped,
}

-- Status 0, status 1 with what the guard found, or an exception.
pub data Verdict : Type 0 where
  passed : Verdict
  failed : List Failure → Verdict
  broken : Verdict

-- `(root / "Makefile").exists()`
abbrev pub exists : Entry → Bool
exists absent = false
exists unreachable = false
exists (irregular missing) = false
exists (irregular unreadable) = true
exists (irregular (bytes b)) = true
exists (regular f) = true

-- What a step has found, or `none` for an exception, with the world after it.
abbrev pub Findings : Type 0
Findings = Option (List Failure) × World

-- More findings behind those of a step, which may have changed the world.
abbrev pub and_then : Findings → (World → Findings) → Findings
and_then (none, w) onward = (none, w)
and_then (some fs, w) onward =
    let (more, last) = onward w in (elim more [ none ↦ none | some gs ↦ some (fs ++ gs) ], last)

abbrev pub is_zero : Status → Bool
is_zero (exited zero) = true
is_zero (exited (suc n)) = false
is_zero (signalled n) = false

abbrev pub judge_dry_run : Str → Process → List Failure
judge_dry_run t proc =
    if warns_of_duplicate proc.stderr
    then of_resolver (duplicate_definition t) ∷ []
    else map of_command (check_expanded_commands t proc.stdout)

-- `check_warnings` on what its dry run gave.
abbrev pub judge_warnings : Str → Result Process → Findings
judge_warnings t (gate_refused ps i, w) = (some (map of_gate ps), w)
judge_warnings t (crashed, w) = (none, w)
judge_warnings t (done proc, w) = (some (judge_dry_run t proc), w)

-- One round of the loop over the targets, and whether a GateRefused has ended the loop.
abbrev pub Round : Type 0
Round = Findings × Bool

abbrev pub refuses : {A : Type 0} → Outcome A → Bool
refuses (gate_refused ps i) = true
refuses _ = false

-- `check_warnings`
unfoldable pub warnings_round : Host → Gate → Str → World → Round
unfolding gate_run warns_of_duplicate check_expanded_commands
warnings_round h gate t w =
    let ran = gate_run h gate true (codes "--dry-run" ∷ codes "--no-print-directory" ∷ t ∷ []) w in
    (judge_warnings t ran, refuses ran.0)

abbrev pub judge_target : Host → Gate → Str → Result Process → Round
judge_target h gate t (gate_refused ps i, w) = ((some (map of_gate ps), w), true)
judge_target h gate t (crashed, w) = ((none, w), true)
judge_target h gate t (done proc, w) =
    if not (is_zero proc.status)
    then ((some (make_failed t proc.status ∷ []), w), false)
    else let (found, ends) = warnings_round h gate t w in
      (
        and_then (some (map of_resolver (check_resolved t (database_of proc.stdout))), w)
            (λ v. found),
        ends,
      )

abbrev pub pn_args : Str → List Str
pn_args t = codes "-pn" ∷ t ∷ []

unfoldable pub check_target : Host → Gate → Str → World → Round
unfolding gate_run warnings_round check_resolved database_of
check_target h gate t w = judge_target h gate t (gate_run h gate true (pn_args t) w)

abbrev pub after_round : Round → (World → Findings) → Findings
after_round (found, true) onward = found
after_round (found, false) onward = and_then found onward

unfoldable pub check_targets : Host → Gate → List Str → World → Findings
unfolding check_target
check_targets h gate [] w = (some [], w)
check_targets h gate (t ∷ targets) w =
    after_round (check_target h gate t w) (check_targets h gate targets)

-- `for p in makegate.recheck(root, GATE.digests): g.fail(p)`
unfoldable pub recheck_gate : Host → Gate → World → Findings
unfolding recheck
recheck_gate h gate w = (some (map of_gate (recheck h w.disk gate.digests)), w)

abbrev pub judge_last_probe : Result Unit → Findings
judge_last_probe (gate_refused ps i, w) = (some (map of_gate ps), w)
judge_last_probe (crashed, w) = (none, w)
judge_last_probe (done u, w) = (some [], w)

unfoldable pub last_probe : Host → Gate → World → Findings
unfolding remake_probe
last_probe h gate w = judge_last_probe (remake_probe h gate.make gate.files w)

-- From the loop over the targets on.
unfoldable pub check_runs : Host → Gate → List Str → World → Findings
unfolding check_targets recheck_gate last_probe
check_runs h gate targets w = and_then (check_targets h gate targets w) (λ w1.
    and_then (recheck_gate h gate w1) (λ w2. and_then (last_probe h gate w2) (recheck_gate h gate)))

abbrev pub all_in : List Str → List Str → Bool
all_in [] held = true
all_in (a ∷ names) held = mem_str a held && all_in names held

-- `sorted({normpath(f) for f in mfiles}) == sorted(files)`, where `files` holds each path once
unfoldable pub same_files : List Str → List Str → Bool
unfolding mem_str
same_files read files = all_in read files && all_in files read

abbrev pub closure_of : Option (List LogicalLine) → List Str → Option (List Str)
closure_of none targets = none
closure_of (some lines) targets = prerequisite_closure lines targets

abbrev pub text_findings : Disk → List Str → List Str → Option (List Str) → Option (List Failure)
text_findings disk mfiles targets none = none
text_findings disk mfiles targets (some closure) = some (
    map of_text (check_text (λ rel. read_bytes (disk.entry (normpath rel))) mfiles closure targets))

-- `check_text` on the closure, for the files that make read.
unfoldable pub check_files_read : Disk → List Str → List Str → Option (List Failure)
unfolding pinned_lines prerequisite_closure check_text read_bytes normpath
check_files_read disk mfiles targets =
    text_findings disk mfiles targets
      (closure_of (pinned_lines disk (as_pins (map normpath mfiles))) targets)

abbrev pub verdict_of : Findings → Verdict × World
verdict_of (none, w) = (broken, w)
verdict_of (some [], w) = (passed, w)
verdict_of (some (f ∷ fs), w) = (failed (f ∷ fs), w)

-- From MAKEFILE_LIST on.
unfoldable pub check_read : Host → Gate → List Str → List Str → World → Verdict × World
unfolding same_files check_files_read check_runs normpath
check_read h gate targets mfiles w =
    if not (same_files (map normpath mfiles) gate.files)
    then (failed (read_differs (map normpath mfiles) gate.files ∷ []), w)
    else verdict_of
        (and_then (check_files_read w.disk mfiles targets, w) (check_runs h gate targets))

abbrev pub judge_first : Host → Gate → Str → List Str → Result Process → Verdict × World
judge_first h gate t targets (gate_refused ps i, w) = (failed (map of_gate ps), w)
judge_first h gate t targets (crashed, w) = (broken, w)
judge_first h gate t targets (done proc, w) =
    if not (is_zero proc.status)
    then (failed (make_failed t proc.status ∷ []), w)
    else check_read h gate targets (files_read (database_of proc.stdout)) w

-- `targets[0]`, which an empty list does not have
unfoldable pub resolve_first : Host → Gate → List Str → World → Verdict × World
unfolding gate_run check_read database_of files_read
resolve_first h gate [] w = (broken, w)
resolve_first h gate (t ∷ targets) w =
    judge_first h gate t (t ∷ targets) (gate_run h gate true (pn_args t) w)

abbrev pub gate_of : Checked → Str → Gate
gate_of c make = record { files = c.order; digests = c.digests; sites = c.sites; make = make }

abbrev pub judge_probe : Host → Gate → List Str → Result Unit → Verdict × World
judge_probe h gate targets (gate_refused ps i, w) =
    (failed (map of_gate ps ++ map of_gate (recheck h w.disk gate.digests)), w)
judge_probe h gate targets (crashed, w) = (broken, w)
judge_probe h gate targets (done u, w) = resolve_first h gate targets w

-- From the first process of make on.
unfoldable pub run_anchor : Host → List Str → World → Before → Verdict × World
unfolding remake_probe recheck resolve_first
run_anchor h targets w (ready c make) =
    judge_probe h (gate_of c make) targets (remake_probe h make c.order w)
run_anchor h targets w (stopped failures) = (failed failures, w)
run_anchor h targets w broken_off = (broken, w)

unfoldable pub main : Host → Bool → List Str → World → Verdict × World
unfolding before_make run_anchor
main h workflow targets w =
    if not (exists (w.disk.entry (codes "Makefile")))
    then (failed (no_makefile ∷ []), w)
    else run_anchor h targets w (before_make h workflow w.disk)

abbrev pub exit_status : Verdict → ℕ
exit_status passed = 0
exit_status (failed fs) = 1
exit_status broken = 1
