-- ===== src/Makegate/Gate/Commands.antt =====
-- What holds after a command that went through the gate.
use vizra_search.Base.{
  Option, none, some, some, Option, ◌≡◌, refl, ap, sym, subst, Bool, false, List, [], ◌∷◌, ◌++◌,
  if◌then◌else◌, Str, All,
}
use vizra_search.Makegate.Gate.Machine.{
  ran_and_changed, Host, Process, Start, World, done, gate_refused, crashed,
}
use vizra_search.Makegate.Gate.Run.{
  process_of, start_make, Result, recheck, Gate, after_run, gate_run, drop_dashes, run_opened,
  open_gate, main, make_env,
}
use vizra_search.Makegate.Gate.Started.{Ran, pin_refused, not_text, started_one, run_make-Ran}
use vizra_search.Makegate.Gate.Opens.{
  HasDigest, recheck-HasDigest, unless_changed-done, Opened, open_gate-Opened,
}

-- One process of the gate's make ran with these arguments, and the pinned files have their digests.
pub record Commanded (h : Host) (gate : Gate) (args : List Str) (w w2 : World) : Type 0 where
  pub start : Start
  pub program : start.program ≡ gate.make
  pub arguments : start.args ≡ args
  pub started : w2.started ≡ w.started ++ start ∷ []
  pub unchanged : All (HasDigest h w2.disk) gate.digests

after_run-ends :
    (h : Host) (gate : Gate) (w2 : World) (process : Process) (o : Option Process) (w3 : World)
    → after_run h gate (process_of o, w3) ≡ (done process, w2)
    → (w3 ≡ w2) × (recheck h w2.disk gate.digests ≡ [])
after_run-ends h gate w2 process none w3 e = cc (ap (λ (x : Result Process). x.0) e)
after_run-ends h gate w2 process (some p) w3 e =
    let same : w3 ≡ w2 = ap (λ (x : Result Process). x.1) e in
    let (silent, q) =
      unless_changed-done (recheck h w3.disk gate.digests) ran_and_changed p process
        (ap (λ (x : Result Process). x.0) e) in
    (same, subst (λ (x : World). recheck h x.disk gate.digests ≡ []) same silent)

after_run-Commanded :
    (h : Host) (gate : Gate) (args : List Str) (w w2 : World) (process : Process)
    (r : Result Process)
    → Ran h gate.make args w r
    → after_run h gate r ≡ (done process, w2)
    → Commanded h gate args w w2
unfolding start_make
after_run-Commanded h gate args w w2 process r (pin_refused p) e =
    cc (ap (λ (x : Result Process). x.0) e)
after_run-Commanded h gate args w w2 process r not_text e = cc (ap (λ (x : Result Process). x.0) e)
after_run-Commanded h gate args w w2 process r (started_one m lines a b) e =
    let env = make_env h.environ lines in
    let ran = h.make gate.make args env w.disk in
    let (world, silent) =
      after_run-ends h gate w2 process ran.0
        (record {
          disk = ran.1;
          started = w.started ++ record { program = gate.make; args = args; env = env } ∷ [];
        })
        e in
    record {
      start = record { program = gate.make; args = args; env = env };
      program = refl;
      arguments = refl;
      started = ap (λ (x : World). x.started) (sym world);
      unchanged = recheck-HasDigest h w2.disk gate.digests silent;
    }

-- Where Gate.run returns, one process of the gate's make was started with the arguments and every
-- pinned file still has its digest.
pub gate_run-Commanded :
    (h : Host) (gate : Gate) (name_goals : Bool) (args : List Str) (w w2 : World)
    (process : Process)
    → gate_run h gate name_goals args w ≡ (done process, w2)
    → Commanded h gate (if name_goals then gate.files ++ args else args) w w2
unfolding gate_run
gate_run-Commanded h gate name_goals args w w2 process e =
    let goals = if name_goals then gate.files ++ args else args in
    after_run-Commanded h gate goals w w2 process _ (run_make-Ran h gate.make goals w) e

run_opened-Commanded :
    (h : Host) (args : List Str) (w2 : World) (process : Process) (r : Result Gate)
    → run_opened h args r ≡ (done process, w2)
    → (gate : Gate) × (r.0 ≡ done gate) × Commanded h gate args r.1 w2
run_opened-Commanded h args w2 process (gate_refused ps i, w) e =
    cc (ap (λ (x : Result Process). x.0) e)
run_opened-Commanded h args w2 process (crashed, w) e = cc (ap (λ (x : Result Process). x.0) e)
run_opened-Commanded h args w2 process (done gate, w) e =
    (gate, refl, gate_run-Commanded h gate false args w w2 process e)

-- If main ends with make's result, the gate had opened in a world between, and then exactly one
-- process of the approved make ran the requested arguments and every pinned file kept its digest.
pub main-Commanded :
    (h : Host) (make_args : List Str) (w w2 : World) (process : Process)
    → main h make_args w ≡ (done process, w2)
    → (gate : Gate) × (between : World) × Opened h [] w gate between
      × Commanded h gate (drop_dashes make_args) between w2
unfolding main
main-Commanded h make_args w w2 process e =
    let r = open_gate h [] w in
    let (gate, same, ran) = run_opened-Commanded h (drop_dashes make_args) w2 process r e in
    (gate, r.1, open_gate-Opened h [] w r.1 gate (ap (λ x. (x, r.1)) same), ran)
