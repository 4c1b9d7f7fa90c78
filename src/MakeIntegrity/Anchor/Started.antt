-- ===== src/MakeIntegrity/Anchor/Started.antt =====
-- scripts/make-integrity-guard.py, `main`: what holds when make is started.
use vizra_search.Base.{
  Option-some, Bool, true, false, not, ◌≡◌, ◌≢◌, refl, sym, ap, ◌∙◌, Option, none, some, List, [],
  ◌∷◌, ◌++◌, map, Str, codes, append-eq-nil_left, append-eq-nil_right, if◌then◌else◌,
}
use vizra_search.Makegate.Lines.{LogicalLine}
use vizra_search.Makegate.Gate.Machine.{Disk, Host, World, Outcome, done, gate_refused, crashed}
use vizra_search.Makegate.Gate.Bytes.{Checked, check_pinned_bytes}
use vizra_search.Makegate.Gate.Program.{resolve_make}
use vizra_search.Makegate.Gate.Run.{pinned_lines}
use vizra_search.MakeIntegrity.Environment.{
  EnvFailure, check_environment, check_environment_overrides,
}
use vizra_search.MakeIntegrity.Checks.{
  no_makefile, Failure, of_environment, as_pins, Before, ready, stopped, broken_off, overrides_in,
  overrides_of, stop_or, join_before, before_make,
}
use vizra_search.MakeIntegrity.Anchor.{passed, failed, broken, exists, run_anchor, main}

-- What is established before the first process of make.
pub record IsReady (h : Host) (workflow : Bool) (disk : Disk) (c : Checked) (make : Str)
    : Type 0 where
  pub bytes_hold : check_pinned_bytes h disk ≡ done c
  pub environment : check_environment h.is_executable workflow h.environ ≡ []
  pub program : resolve_make h ≡ done make
  pub lines : List LogicalLine
  pub reviewed : pinned_lines disk (as_pins c.order) ≡ some lines
  pub not_taken : check_environment_overrides h.environ lines workflow ≡ []

pub map-eq-nil : {A B : Type 0} (f : A → B) (xs : List A) → map f xs ≡ [] → xs ≡ []
map-eq-nil f [] k = refl
map-eq-nil f (x ∷ xs) k = cc

pub none-ne-some : {A : Type 0} {a : A} → none ≢ some a
none-ne-some = λ e. cc

pub broken-ne-passed : broken ≢ passed
broken-ne-passed = λ e. cc

pub failed-ne-passed : {fs : List Failure} → failed fs ≢ passed
failed-ne-passed = λ e. cc

stop_or-ready :
    (fs : List Failure) (b : Outcome Checked) (m : Outcome Str) {c : Checked} {make : Str}
    → stop_or fs b m ≡ ready c make
    → (fs ≡ []) × (b ≡ done c) × (m ≡ done make)
stop_or-ready (f ∷ fs) b m k = cc
stop_or-ready [] crashed m k = cc
stop_or-ready [] (gate_refused ps i) m k = cc
stop_or-ready [] (done c) crashed k = cc
stop_or-ready [] (done c) (gate_refused ps i) k = cc
stop_or-ready [] (done c) (done make) k = (refl, cc, cc)

join_before-ready :
    (b : Outcome Checked) (env : List EnvFailure) (m : Outcome Str) (o : Option (List EnvFailure))
    {c : Checked} {make : Str}
    → join_before b env m o ≡ ready c make
    → (b ≡ done c) × (env ≡ []) × (m ≡ done make) × (o ≡ some [])
join_before-ready crashed env m o k = cc
join_before-ready (done c) env crashed o k = cc
join_before-ready (done c) env (done make) none k = cc
join_before-ready (done c) env (gate_refused ps i) none k = cc
join_before-ready (done c) env (gate_refused ps i) (some taken) k =
    let (none_found, b_done, m_done) = stop_or-ready _ _ _ k in cc
join_before-ready (gate_refused ps i) env crashed o k = cc
join_before-ready (gate_refused ps i) env (done make) none k = cc
join_before-ready (gate_refused ps i) env (gate_refused qs j) none k = cc
join_before-ready (gate_refused ps i) env (done make) (some taken) k =
    let (none_found, b_done, m_done) = stop_or-ready _ _ _ k in cc
join_before-ready (gate_refused ps i) env (gate_refused qs j) (some taken) k =
    let (none_found, b_done, m_done) = stop_or-ready _ _ _ k in cc
join_before-ready (done c) env (done make) (some taken) k =
    let (none_found, b_done, m_done) = stop_or-ready _ _ _ k in
    let front =
      append-eq-nil_left (map of_environment env ++ []) (map of_environment taken) none_found in
    (
      b_done,
      map-eq-nil of_environment env (append-eq-nil_left (map of_environment env) [] front),
      m_done,
      ap some (
          map-eq-nil of_environment taken (
            append-eq-nil_right (map of_environment env ++ []) (map of_environment taken)
              none_found)),
    )

overrides_in-some :
    (h : Host) (workflow : Bool) (lines : Option (List LogicalLine)) {taken : List EnvFailure}
    → overrides_in h workflow lines ≡ some taken
    → ((ls : List LogicalLine) × (lines ≡ some ls)
        × (check_environment_overrides h.environ ls workflow ≡ taken))
overrides_in-some h workflow none k = cc
overrides_in-some h workflow (some ls) k = (ls, refl, Option-some k)

-- Where make may be started, everything before it held.
pub before_make-IsReady :
    (h : Host) (workflow : Bool) (disk : Disk) {c : Checked} {make : Str}
    → before_make h workflow disk ≡ ready c make
    → IsReady h workflow disk c make
unfolding before_make
before_make-IsReady h workflow disk {c} k =
    let (bytes_hold, environment, program, taken) = join_before-ready _ _ _ _ k in
    let (lines, reviewed, not_taken) =
      overrides_in-some h workflow (pinned_lines disk (as_pins c.order))
        (sym (ap (overrides_of h workflow disk) bytes_hold) ∙ taken) in
    record {
      bytes_hold = bytes_hold;
      environment = environment;
      program = program;
      lines = lines;
      reviewed = reviewed;
      not_taken = not_taken;
    }

run_anchor-started :
    (h : Host) (targets : List Str) (w : World) (b : Before)
    → (run_anchor h targets w b).1 ≢ w
    → ((c : Checked) × (make : Str) × (b ≡ ready c make))
unfolding run_anchor
run_anchor-started h targets w (ready c make) t = (c, make, refl)
run_anchor-started h targets w (stopped fs) t = absurd (t refl)
run_anchor-started h targets w broken_off t = absurd (t refl)

main-started_lem :
    (h : Host) (workflow : Bool) (targets : List Str) (w : World) (there_is : Bool)
    → (if not there_is
        then (failed (no_makefile ∷ []), w)
        else run_anchor h targets w (before_make h workflow w.disk)).1
      ≢ w
    → ((c : Checked) × (make : Str) × IsReady h workflow w.disk c make)
main-started_lem h workflow targets w false t = absurd (t refl)
main-started_lem h workflow targets w true t =
    let (c, make, is_ready) = run_anchor-started h targets w _ t in
    (c, make, before_make-IsReady h workflow w.disk is_ready)

-- If a run of the anchor changes the world, so starts a process of make, then before it the pinned
-- bytes held, check_environment and check_environment_overrides found nothing, and resolve_make gave
-- the program.
pub main-started :
    (h : Host) (workflow : Bool) (targets : List Str) (w : World)
    → (main h workflow targets w).1 ≢ w
    → ((c : Checked) × (make : Str) × IsReady h workflow w.disk c make)
unfolding main
main-started h workflow targets w t =
    main-started_lem h workflow targets w (exists (w.disk.entry (codes "Makefile"))) t
