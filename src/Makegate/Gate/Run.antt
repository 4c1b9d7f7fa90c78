-- ===== src/Makegate/Gate/Run.antt =====
-- scripts/makegate.py, `run_make`, `remake_probe`, `recheck`, the class Gate, `open_gate` and `main`
-- behind its argument parser. A function takes the world and gives its outcome with the world after it.
use vizra_search.Base.{
  zero, suc, Bool, true, false, ◌||◌, Option, none, some, List, [], ◌∷◌, ◌++◌, map, if◌then◌else◌,
  Str, codes, str_eq, decode_utf8,
}
use vizra_search.Makegate.Lines.{LogicalLine, makefile_lines}
use vizra_search.Makegate.Pin.{Fetched, missing, unreadable, bytes, pins, refused, load_pin}
use vizra_search.Makegate.Environ.{Env, clean_env, environment_taken, environment_words}
use vizra_search.Makegate.Gate.Machine.{
  Disk, read_bytes, Status, exited, signalled, Process, Host, World, Invoked, make_was_not_invoked,
  only_q_ran, ran_and_changed, only_q_ran_and_changed, GateProblem, callers, of_pin, would_remake,
  not_reread, changed, not_established, Outcome, done, gate_refused, crashed,
}
use vizra_search.Makegate.Gate.Bytes.{Checked, Site, sort_pins, check_pinned_bytes}
use vizra_search.Makegate.Gate.Program.{check_environment, resolve_make}

-- `read_makefile_lines` for each pinned file: an OSError skips the file, and `none` is the exception
-- of a text that is not UTF-8.
unfoldable pub lines_read : Fetched → Option (List LogicalLine)
unfolding decode_utf8 makefile_lines
lines_read missing = some []
lines_read unreadable = some []
lines_read (bytes b) = elim (decode_utf8 b) [ none ↦ none | some text ↦ some (makefile_lines text) ]

abbrev pub and_lines : List LogicalLine → Option (List LogicalLine) → Option (List LogicalLine)
and_lines a none = none
and_lines a (some b) = some (a ++ b)

unfoldable pub pinned_lines : Disk → List (Str × Str) → Option (List LogicalLine)
unfolding lines_read read_bytes
pinned_lines disk [] = some []
pinned_lines disk ((rel, want) ∷ m) = elim (lines_read (read_bytes (disk.entry rel))) [
  | none ↦ none
  | some a ↦ and_lines a (pinned_lines disk m)
]

-- The environment of a process of make.
unfoldable pub make_env : Env → List LogicalLine → Env
unfolding clean_env environment_taken environment_words
make_env environ lines = clean_env environ (environment_taken lines ++ environment_words lines)

abbrev pub Result : Type 0 → Type 0
Result A = Outcome A × World

abbrev pub process_of : Option Process → Outcome Process
process_of none = crashed
process_of (some proc) = done proc

unfoldable pub start_make : Host → Str → List Str → Env → World → Result Process
start_make h make args env w =
    let ran = h.make make args env w.disk in
    (
      process_of ran.0,
      record {
        disk = ran.1;
        started = w.started ++ record { program = make; args = args; env = env } ∷ [];
      },
    )

unfoldable pub run_make : Host → Str → List Str → World → Result Process
unfolding load_pin sort_pins pinned_lines make_env start_make
run_make h make args w = elim (load_pin w.disk.pin) [
  | refused p ↦ (gate_refused (of_pin p ∷ []) make_was_not_invoked, w)
  | pins m ↦ elim (pinned_lines w.disk (sort_pins m)) [
    | none ↦ (crashed, w)
    | some lines ↦ start_make h make args (make_env h.environ lines) w
  ]
]

-- `returncode != 0`
abbrev pub judge_status : Status → Outcome Unit
judge_status (exited zero) = done tt
judge_status (exited (suc n)) = gate_refused (would_remake (exited (suc n)) ∷ []) only_q_ran
judge_status (signalled n) = gate_refused (would_remake (signalled n) ∷ []) only_q_ran

abbrev pub judge_probe : Outcome Process → Outcome Unit
judge_probe (gate_refused ps i) = gate_refused ps i
judge_probe crashed = crashed
judge_probe (done proc) = judge_status proc.status

unfoldable pub remake_probe : Host → Str → List Str → World → Result Unit
unfolding run_make
remake_probe h make files w =
    let (out, w2) = run_make h make (codes "-q" ∷ files) w in (judge_probe out, w2)

abbrev pub recheck_one : Host → Str → Str → Fetched → List GateProblem
recheck_one h rel want missing = not_reread rel ∷ []
recheck_one h rel want unreadable = not_reread rel ∷ []
recheck_one h rel want (bytes b) =
    let got = h.sha256 b in if str_eq got want then [] else changed rel want got ∷ []

unfoldable pub recheck : Host → Disk → List (Str × Str) → List GateProblem
unfolding str_eq read_bytes
recheck h disk [] = []
recheck h disk ((rel, want) ∷ digests) =
    recheck_one h rel want (read_bytes (disk.entry rel)) ++ recheck h disk digests

-- The attributes of Gate; its root is the root of the world.
pub record Gate : Type 0 where
  pub files : List Str
  pub digests : List (Str × Str)
  pub sites : List Site
  pub make : Str

abbrev pub unless_changed : {A : Type 0} → List GateProblem → Invoked → A → Outcome A
unless_changed [] i a = done a
unless_changed (p ∷ ps) i a = gate_refused (p ∷ ps) i

abbrev pub after_run : Host → Gate → Result Process → Result Process
after_run h gate (gate_refused ps i, w) = (gate_refused ps i, w)
after_run h gate (crashed, w) = (crashed, w)
after_run h gate (done proc, w) =
    (unless_changed (recheck h w.disk gate.digests) ran_and_changed proc, w)

-- `Gate.run`
unfoldable pub gate_run : Host → Gate → Bool → List Str → World → Result Process
unfolding run_make recheck
gate_run h gate name_goals args w =
    after_run h gate (run_make h gate.make (if name_goals then gate.files ++ args else args) w)

abbrev pub problems_of : {A : Type 0} → Outcome A → List GateProblem
problems_of (gate_refused ps i) = ps
problems_of _ = []

abbrev pub is_crash : {A : Type 0} → Outcome A → Bool
is_crash crashed = true
is_crash _ = false

abbrev pub value : {A : Type 0} → Outcome A → Option A
value (done a) = some a
value _ = none

abbrev pub after_probe : Host → Gate → Result Unit → Result Gate
after_probe h gate (gate_refused ps i, w) = (gate_refused ps i, w)
after_probe h gate (crashed, w) = (crashed, w)
after_probe h gate (done u, w) =
    (unless_changed (recheck h w.disk gate.digests) only_q_ran_and_changed gate, w)

-- `if problems or files is None or make is None`, and what follows it but for the probe.
abbrev pub settle : List GateProblem → Option Checked → Option Str → Outcome Gate
settle (p ∷ ps) c make = gate_refused (p ∷ ps) make_was_not_invoked
settle [] none make = gate_refused (not_established ∷ []) make_was_not_invoked
settle [] (some c) none = gate_refused (not_established ∷ []) make_was_not_invoked
settle [] (some c) (some make) =
    done (record { files = c.order; digests = c.digests; sites = c.sites; make = make })

-- The steps that precede make, their problems put together.
unfoldable pub before_make : List Str → Outcome Checked → Outcome Unit → Outcome Str → Outcome Gate
before_make extra bytes_step env_step make_step =
    if is_crash bytes_step || is_crash env_step || is_crash make_step
    then crashed
    else settle
        (map callers extra
          ++ (problems_of bytes_step ++ (problems_of env_step ++ problems_of make_step)))
        (value bytes_step) (value make_step)

abbrev pub probe_gate : Host → World → Outcome Gate → Result Gate
probe_gate h w (gate_refused ps i) = (gate_refused ps i, w)
probe_gate h w crashed = (crashed, w)
probe_gate h w (done gate) = after_probe h gate (remake_probe h gate.make gate.files w)

unfoldable pub open_gate : Host → List Str → World → Result Gate
unfolding before_make remake_probe recheck check_pinned_bytes check_environment resolve_make
open_gate h extra w =
    probe_gate h w (
      before_make extra (check_pinned_bytes h w.disk) (check_environment h.environ)
        (resolve_make h))

abbrev pub run_opened : Host → List Str → Result Gate → Result Process
run_opened h args (gate_refused ps i, w) = (gate_refused ps i, w)
run_opened h args (crashed, w) = (crashed, w)
run_opened h args (done gate, w) = gate_run h gate false args w

abbrev pub drop_dashes : List Str → List Str
drop_dashes [] = []
drop_dashes (a ∷ args) = if str_eq a (codes "--") then args else a ∷ args

-- `main`, from the parsed `make_args` on.
unfoldable pub main : Host → List Str → World → Result Process
unfolding open_gate gate_run str_eq
main h make_args w = run_opened h (drop_dashes make_args) (open_gate h [] w)

-- Its exit code: 3 for a GateRefused, the process's own otherwise, and 1 for another exception.
unfoldable pub exit_code : Outcome Process → Status
exit_code (gate_refused ps i) = exited 3
exit_code crashed = exited 1
exit_code (done proc) = proc.status
