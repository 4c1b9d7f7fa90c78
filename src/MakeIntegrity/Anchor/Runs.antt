-- ===== src/MakeIntegrity/Anchor/Runs.antt =====
-- scripts/make-integrity-guard.py, the loop of `main` over the targets: what the runs of make showed.
use vizra_search.Base.{
  ◌⊎◌, subst, ◌≡◌, ◌≢◌, refl, sym, ap, ap₂, ◌∙◌, Bool, true, false, not, Option, none, some, List,
  [], ◌∷◌, ◌++◌, map, All, Str, codes, split_lines, Option-some, append-eq-nil_left,
  append-eq-nil_right, if◌then◌else◌, inl, inr,
}
use vizra_search.Makegate.Pin.{Loaded, load_pin, refused, pins}
use vizra_search.Makegate.Lines.{LogicalLine}
use vizra_search.Makegate.Gate.Machine.{
  Process, Host, World, GateProblem, Outcome, done, gate_refused, crashed, ran_and_changed, of_pin,
  make_was_not_invoked,
}
use vizra_search.Makegate.Gate.Run.{
  Result, Gate, gate_run, run_make, start_make, process_of, unless_changed, after_run, recheck,
  pinned_lines, make_env,
}
use vizra_search.Makegate.Gate.Bytes.{sort_pins}
use vizra_search.MakeIntegrity.Recipe.{commands_of}
use vizra_search.MakeIntegrity.Recipe.Expanded.{
  IsUnswallowedCommand, check_expanded_commands-IsUnswallowedCommand,
}
use vizra_search.MakeIntegrity.Resolver.{database_of, check_resolved, warns_of_duplicate}
use vizra_search.MakeIntegrity.Resolver.Approved.{IsApproved, check_resolved-IsApproved}
use vizra_search.MakeIntegrity.Checks.{Failure, of_gate, of_resolver, of_command}
use vizra_search.MakeIntegrity.Anchor.{
  Findings, and_then, is_zero, Round, refuses, judge_dry_run, judge_warnings, warnings_round,
  judge_target, pn_args, check_target, after_round, check_targets,
}
use vizra_search.MakeIntegrity.Anchor.Started.{map-eq-nil, none-ne-some}

and_then_lem :
    (fs : List Failure) (w : World) (onward : World → Findings) (r : Findings) {w' : World}
    → onward w ≡ r
    → and_then (some fs, w) (λ v. r) ≡ (some [], w')
    → (fs ≡ []) × (onward w ≡ (some [], w'))
and_then_lem fs w onward (none, v) same k =
    let none_found = ap (λ (x : Findings). x.0) k in absurd (none-ne-some none_found)
and_then_lem fs w onward (some gs, v) same k =
    let found = Option-some (ap (λ (x : Findings). x.0) k) in
    (
      append-eq-nil_left fs gs found,
      same
          ∙ ap₂ (λ (l : List Failure) (x : World). (some l, x)) (append-eq-nil_right fs gs found)
              (ap (λ (x : Findings). x.1) k),
    )

pub and_then-clean :
    (f : Findings) (onward : World → Findings) {w' : World}
    → and_then f onward ≡ (some [], w')
    → ((f.0 ≡ some []) × (onward f.1 ≡ (some [], w')))
and_then-clean (none, w) onward k = absurd (none-ne-some (ap (λ (x : Findings). x.0) k))
and_then-clean (some fs, w) onward k =
    let (none_found, rest) = and_then_lem fs w onward (onward w) refl k in
    (ap some none_found, rest)

-- A refusal names a problem.
abbrev pub Explains : Outcome Process → Type 0
Explains (gate_refused ps i) = ps ≢ []
Explains crashed = Unit
Explains (done proc) = Unit

process_of-Explains : (o : Option Process) → Explains (process_of o)
process_of-Explains none = tt
process_of-Explains (some proc) = tt

run_lines-Explains :
    (h : Host) (make : Str) (args : List Str) (w : World) (lines : Option (List LogicalLine))
    → Explains
        (elim lines as (λ x. Result Process) [
          | none ↦ (crashed, w)
          | some ls ↦ start_make h make args (make_env h.environ ls) w
        ]).0
unfolding start_make
run_lines-Explains h make args w none = tt
run_lines-Explains h make args w (some ls) = process_of-Explains _

run_loaded-Explains :
    (h : Host) (make : Str) (args : List Str) (w : World) (pin_file : Loaded)
    → Explains
        (elim pin_file as (λ x. Result Process) [
          | refused p ↦ (gate_refused (of_pin p ∷ []) make_was_not_invoked, w)
          | pins m ↦ elim (pinned_lines w.disk (sort_pins m)) as (λ x. Result Process) [
            | none ↦ (crashed, w)
            | some ls ↦ start_make h make args (make_env h.environ ls) w
          ]
        ]).0
run_loaded-Explains h make args w (refused p) = λ k. cc
run_loaded-Explains h make args w (pins m) =
    run_lines-Explains h make args w (pinned_lines w.disk (sort_pins m))

run_make-Explains :
    (h : Host) (make : Str) (args : List Str) (w : World) → Explains (run_make h make args w).0
unfolding run_make
run_make-Explains h make args w = run_loaded-Explains h make args w (load_pin w.disk.pin)

after_run-Explains :
    (h : Host) (gate : Gate) (r : Result Process) → Explains r.0 → Explains (after_run h gate r).0
after_run-Explains h gate (gate_refused ps i, w) e = e
after_run-Explains h gate (crashed, w) e = tt
after_run-Explains h gate (done proc, w) e = unchanged_or (recheck h w.disk gate.digests)
  where
    unchanged_or : (ps : List GateProblem) → Explains (unless_changed ps ran_and_changed proc)
    unchanged_or [] = tt
    unchanged_or (p ∷ ps) = λ k. cc

gate_run-Explains :
    (h : Host) (gate : Gate) (args : List Str) (w : World)
    → Explains (gate_run h gate true args w).0
unfolding gate_run
gate_run-Explains h gate args w =
    after_run-Explains h gate _ (run_make-Explains h gate.make (gate.files ++ args) w)

-- One round: the database of the target, then its dry run.
pub record IsTargetClean (h : Host) (gate : Gate) (t : Str) (w w' : World) : Type 0 where
  pub database : Process
  pub between : World
  pub ran : gate_run h gate true (pn_args t) w ≡ (done database, between)
  pub ended_well : is_zero database.status ≡ true
  pub resolved : IsApproved (database_of database.stdout)
  pub dry_run : Process
  pub dry_ran :
      gate_run h gate true (codes "--dry-run" ∷ codes "--no-print-directory" ∷ t ∷ []) between
      ≡ (done dry_run, w')
  pub no_duplicate : warns_of_duplicate dry_run.stderr ≡ false
  pub commands : All IsUnswallowedCommand (commands_of [] (split_lines dry_run.stdout))

-- A round for each target, in their order.
pub data Runs (h : Host) (gate : Gate) : List Str → World → World → Type 0 where
  finished : {w : World} → Runs h gate [] w w
  next :
      {t : Str} {targets : List Str} {w w1 w2 : World}
      → IsTargetClean h gate t w w1
      → Runs h gate targets w1 w2
      → Runs h gate (t ∷ targets) w w2

some-map-nil : {A B : Type 0} (f : A → B) (xs : List A) → some (map f xs) ≡ some [] → xs ≡ []
some-map-nil f xs k = map-eq-nil f xs (Option-some k)

unless_duplicate :
    (b : Bool) (f : Failure) (fs : List Failure)
    → (if b then f ∷ [] else fs) ≡ []
    → (b ≡ false) × (fs ≡ [])
unless_duplicate true f fs k = cc
unless_duplicate false f fs k = (refl, k)

judge_dry_run-nil :
    (t : Str) (proc : Process)
    → judge_dry_run t proc ≡ []
    → (warns_of_duplicate proc.stderr ≡ false)
      × All IsUnswallowedCommand (commands_of [] (split_lines proc.stdout))
judge_dry_run-nil t proc k =
    let (no_duplicate, commands) = unless_duplicate _ _ _ k in
    (
      no_duplicate,
      check_expanded_commands-IsUnswallowedCommand t proc.stdout (map-eq-nil of_command _ commands),
    )

judge_warnings-clean :
    (t : Str) (r : Result Process) {w' : World}
    → Explains r.0
    → judge_warnings t r ≡ (some [], w')
    → ((proc : Process) × (r ≡ (done proc, w'))
        × (refuses r.0 ≡ false)
        × (judge_dry_run t proc ≡ []))
judge_warnings-clean t (gate_refused ps i, w) e k =
    absurd (e (some-map-nil of_gate ps (ap (λ (x : Findings). x.0) k)))
judge_warnings-clean t (crashed, w) e k = absurd (none-ne-some (ap (λ (x : Findings). x.0) k))
judge_warnings-clean t (done proc, w) e k = (
  proc,
  ap (λ (v : World). (done proc, v)) (ap (λ (x : Findings). x.1) k),
  refl,
  Option-some (ap (λ (x : Findings). x.0) k),
)

unless_failed :
    (ended_well : Bool) (f : Failure) (w : World) (onward : Round) {w' : World} {ends : Bool}
    → (if not ended_well then ((some (f ∷ []), w), false) else onward) ≡ ((some [], w'), ends)
    → (ended_well ≡ true) × (onward ≡ ((some [], w'), ends))
unless_failed true f w onward k = (refl, k)
unless_failed false f w onward k = let none_found = ap (λ (x : Round). x.0.0) k in cc

judge_target-clean :
    (h : Host) (gate : Gate) (t : Str) (w : World) (r : Result Process) {w' : World} {ends : Bool}
    → gate_run h gate true (pn_args t) w ≡ r
    → Explains r.0
    → judge_target h gate t r ≡ ((some [], w'), ends)
    → IsTargetClean h gate t w w' × (ends ≡ false)
unfolding warnings_round
judge_target-clean h gate t w (gate_refused ps i, v) same e k =
    absurd (e (some-map-nil of_gate ps (ap (λ (x : Round). x.0.0) k)))
judge_target-clean h gate t w (crashed, v) same e k =
    absurd (none-ne-some (ap (λ (x : Round). x.0.0) k))
judge_target-clean h gate t w (done proc, v) same e k =
    let dry = codes "--dry-run" ∷ codes "--no-print-directory" ∷ t ∷ [] in
    let (ended_well, k1) = unless_failed _ _ _ _ k in
    let (resolved, k2) =
      and_then-clean (some (map of_resolver (check_resolved t (database_of proc.stdout))), v)
        (λ u. judge_warnings t (gate_run h gate true dry v)) (ap (λ (x : Round). x.0) k1) in
    let (dry_run, dry_ran, not_refused, clean) =
      judge_warnings-clean t (gate_run h gate true dry v) (gate_run-Explains h gate dry v) k2 in
    let (no_duplicate, commands) = judge_dry_run-nil t dry_run clean in
    (
      record {
        database = proc;
        between = v;
        ran = same;
        ended_well = ended_well;
        resolved =
            check_resolved-IsApproved t (database_of proc.stdout)
              (some-map-nil of_resolver _ resolved);
        dry_run = dry_run;
        dry_ran = dry_ran;
        no_duplicate = no_duplicate;
        commands = commands;
      },
      sym (ap (λ (x : Round). x.1) k1) ∙ not_refused,
    )

check_target-IsTargetClean :
    (h : Host) (gate : Gate) (t : Str) (w : World) {w' : World} {ends : Bool}
    → check_target h gate t w ≡ ((some [], w'), ends)
    → IsTargetClean h gate t w w' × (ends ≡ false)
unfolding check_target
check_target-IsTargetClean h gate t w k =
    judge_target-clean h gate t w (gate_run h gate true (pn_args t) w) refl
      (gate_run-Explains h gate (pn_args t) w) k

true-ne-false_lem : true ≢ false
true-ne-false_lem = λ e. cc

after_round-clean :
    (r : Round) (onward : World → Findings) {w' : World}
    → after_round r onward ≡ (some [], w')
    → (r.0.0 ≡ some []) × ((r.1 ≡ true) ⊎ (onward r.0.1 ≡ (some [], w')))
after_round-clean (found, true) onward k = (ap (λ (x : Findings). x.0) k, inl refl)
after_round-clean (found, false) onward k =
    let (clean, rest) = and_then-clean found onward k in (clean, inr rest)

pub check_targets-Runs :
    (h : Host) (gate : Gate) (targets : List Str) (w : World) {w' : World}
    → check_targets h gate targets w ≡ (some [], w')
    → Runs h gate targets w w'
unfolding check_targets
check_targets-Runs h gate [] w k = subst (Runs h gate [] w) (ap (λ (x : Findings). x.1) k) finished
check_targets-Runs h gate (t ∷ targets) w k =
    let r = check_target h gate t w in
    let (clean, rest) = after_round-clean r (check_targets h gate targets) k in
    let (run, goes_on) =
      check_target-IsTargetClean h gate t w
        (ap (λ (o : Option (List Failure)). ((o, r.0.1), r.1)) clean) in
    elim rest [
      | inl ends ↦ absurd (true-ne-false_lem (sym ends ∙ goes_on))
      | inr onward ↦ next run (check_targets-Runs h gate targets r.0.1 onward)
    ]
