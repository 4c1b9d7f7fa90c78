-- ===== src/Makegate/Gate/Started.antt =====
-- Which processes of make are started, by what is reported, and with what environment.
use vizra_search.Base.{
  In-append, ◌||◌, Bool-cases, suc, zero, suc, ◌≡◌, ◌⊎◌, refl, sym, subst, true, false, inl, inr,
  Option, none, some, List, [], ◌∷◌, ◌++◌, Option-cases, Str, codes, In, here, there,
  In-append_right, mem_str, str_eq_refl, arith,
}
use vizra_search.Makegate.Lines.{LogicalLine}
use vizra_search.Makegate.Pin.{Loaded, pins, refused, load_pin, PinProblem}
use vizra_search.Makegate.Environ.{Env, keep_env, environment_taken, environment_words}
use vizra_search.Makegate.Environ.Cleaned.{clean_env-In}
use vizra_search.Makegate.Environ.Words.{IsWordOfLines, environment_words-In}
use vizra_search.Makegate.Gate.Machine.{
  signalled, exited, Status, Disk, Host, Process, Start, World, Invoked, make_was_not_invoked,
  only_q_ran, only_q_ran_and_changed, GateProblem, of_pin, Outcome, done, gate_refused, crashed,
}
use vizra_search.Makegate.Gate.Bytes.{Checked, sort_pins, check_pinned_bytes}
use vizra_search.Makegate.Gate.Program.{check_environment, resolve_make}
use vizra_search.Makegate.Gate.Run.{
  value, is_crash, settle, pinned_lines, make_env, Result, process_of, start_make, run_make,
  judge_status, judge_probe, remake_probe, recheck, Gate, unless_changed, after_probe, before_make,
  probe_gate, open_gate,
}

-- How `run_make` ends: refused by the pin file, left by an exception, or with one process started,
-- whose environment is cleaned by the pinned files' lines.
pub data Ran (h : Host) (make : Str) (args : List Str) (w : World) : Result Process → Type 0 where
  pin_refused :
      (p : PinProblem) → Ran h make args w (gate_refused (of_pin p ∷ []) make_was_not_invoked, w)
  not_text : Ran h make args w (crashed, w)
  started_one :
      (pinned : List (Str × Str)) (lines : List LogicalLine)
      → load_pin w.disk.pin ≡ pins pinned
      → pinned_lines w.disk (sort_pins pinned) ≡ some lines
      → Ran h make args w (start_make h make args (make_env h.environ lines) w)

Loaded-cases :
    (l : Loaded) → ((p : PinProblem) × (l ≡ refused p)) ⊎ ((m : List (Str × Str)) × (l ≡ pins m))
Loaded-cases (refused p) = inl (p, refl)
Loaded-cases (pins m) = inr (m, refl)

-- `run_make` ends in one of these ways.
pub run_make-Ran :
    (h : Host) (make : Str) (args : List Str) (w : World)
    → Ran h make args w (run_make h make args w)
unfolding run_make
run_make-Ran h make args w = elim (Loaded-cases (load_pin w.disk.pin)) [
  | inl (p, e) ↦ rw (e, run_make) (pin_refused p)
  | inr (m, e) ↦ elim (Option-cases (pinned_lines w.disk (sort_pins m))) [
    | inl n ↦ rw (e, n, run_make) not_text
    | inr (lines, n) ↦ rw (e, n, run_make) (started_one m lines e n)
  ]
]

mem_str-In : (k : Str) (ws : List Str) → In k ws → mem_str k ws ≡ true
unfolding mem_str
mem_str-In k [] m = elim m [ ]
mem_str-In k (w ∷ ws) (here e) = rw (sym e, str_eq_refl k) refl
mem_str-In k (w ∷ ws) (there m) = ground (arith, mem_str-In k ws m)

-- No process of make sees a variable whose name is a whole word of the pinned files' lines, unless
-- it is on the keep list.
pub make_env-Lacks :
    (environ : Env) (lines : List LogicalLine) (k v : Str)
    → IsWordOfLines k lines
    → mem_str k keep_env ≡ false
    → ¬ In (k, v) (make_env environ lines)
unfolding make_env
make_env-Lacks environ lines k v r h = λ m.
    let words = environment_words lines in
    let (found, kept) = (clean_env-In environ (environment_taken lines ++ words) k v).0 m in
    let named =
      mem_str-In k (environment_taken lines ++ words)
        (In-append_right (environment_taken lines) (environment_words-In k lines r h)) in
    cc (kept.asked, named)

-- The environment of the process has no variable whose name is a whole word of the pinned files' lines,
-- unless it is on the keep list.
pub record IsCleaned (disk : Disk) (start : Start) : Type 0 where
  pub pinned : List (Str × Str)
  pub lines : List LogicalLine
  pub loads : load_pin disk.pin ≡ pins pinned
  pub are_lines : pinned_lines disk (sort_pins pinned) ≡ some lines
  pub lacks :
      (name value : Str)
      → IsWordOfLines name lines
      → mem_str name keep_env ≡ false
      → ¬ In (name, value) start.env

last_In : {A : Type 0} (x a : A) → In x (a ∷ []) → x ≡ a
last_In x a (here e) = e
last_In x a (there m) = elim m [ ]

Ran-IsCleaned :
    (h : Host) (make : Str) (args : List Str) (w : World) (r : Result Process)
    → Ran h make args w r
    → (start : Start) → In start r.1.started
    → In start w.started ⊎ IsCleaned w.disk start
unfolding start_make
Ran-IsCleaned h make args w r (pin_refused p) start i = inl i
Ran-IsCleaned h make args w r not_text start i = inl i
Ran-IsCleaned h make args w r (started_one m lines a b) start i = elim (In-append w.started _ i) [
  | inl before ↦ inl before
  | inr last ↦ inr (record {
    pinned = m;
    lines = lines;
    loads = a;
    are_lines = b;
    lacks = λ name value word kept.
        rw (last_In start _ last) (make_env-Lacks h.environ lines name value word kept);
  })
]

-- Each process that run_make has started is one of those before, or its environment has no variable
-- whose name is a whole word of the lines of the files that the pin file names, unless the name is
-- on the keep list.
pub run_make-IsCleaned :
    (h : Host) (make : Str) (args : List Str) (w : World) (start : Start)
    → In start (run_make h make args w).1.started
    → In start w.started ⊎ IsCleaned w.disk start
run_make-IsCleaned h make args w = Ran-IsCleaned h make args w _ (run_make-Ran h make args w)

-- What a refusal reports of the processes that were started since `w`.
pub data Reports (w : World) : Invoked → World → Type 0 where
  none_started : Reports w make_was_not_invoked w
  probe_refused :
      (s : Start) (files : List Str) (disk : Disk)
      → s.args ≡ codes "-q" ∷ files
      → Reports w only_q_ran (record { disk = disk; started = w.started ++ s ∷ [] })
  probe_changed :
      (s : Start) (files : List Str) (disk : Disk)
      → s.args ≡ codes "-q" ∷ files
      → Reports w only_q_ran_and_changed (record { disk = disk; started = w.started ++ s ∷ [] })

-- What is claimed of a result of `open_gate`.
abbrev pub IsTrueReport : World → Result Gate → Type 0
IsTrueReport w (gate_refused ps i, w2) = Reports w i w2
IsTrueReport w (crashed, w2) = Unit
IsTrueReport w (done gate, w2) = Unit

-- The world after one process.
abbrev one_more : World → Start → Disk → World
one_more w s disk = record { disk = disk; started = w.started ++ s ∷ [] }

unless_changed-IsTrueReport :
    (h : Host) (gate : Gate) (w : World) (s : Start) (disk : Disk) (found : List GateProblem)
    → s.args ≡ codes "-q" ∷ gate.files
    → IsTrueReport w (unless_changed found only_q_ran_and_changed gate, one_more w s disk)
unless_changed-IsTrueReport h gate w s disk [] e = tt
unless_changed-IsTrueReport h gate w s disk (p ∷ ps) e = probe_changed s gate.files disk e

judge_status-IsTrueReport :
    (h : Host) (gate : Gate) (w : World) (s : Start) (disk : Disk) (status : Status)
    → s.args ≡ codes "-q" ∷ gate.files
    → IsTrueReport w (after_probe h gate (judge_status status, one_more w s disk))
judge_status-IsTrueReport h gate w s disk (exited zero) e =
    unless_changed-IsTrueReport h gate w s disk (recheck h disk gate.digests) e
judge_status-IsTrueReport h gate w s disk (exited (suc n)) e = probe_refused s gate.files disk e
judge_status-IsTrueReport h gate w s disk (signalled n) e = probe_refused s gate.files disk e

judge_probe-IsTrueReport :
    (h : Host) (gate : Gate) (w : World) (s : Start) (disk : Disk) (o : Option Process)
    → s.args ≡ codes "-q" ∷ gate.files
    → IsTrueReport w (after_probe h gate (judge_probe (process_of o), one_more w s disk))
judge_probe-IsTrueReport h gate w s disk none e = tt
judge_probe-IsTrueReport h gate w s disk (some proc) e =
    judge_status-IsTrueReport h gate w s disk proc.status e

after_probe-IsTrueReport :
    (h : Host) (gate : Gate) (w : World) (r : Result Process)
    → Ran h gate.make (codes "-q" ∷ gate.files) w r
    → IsTrueReport w (after_probe h gate (judge_probe r.0, r.1))
unfolding start_make
after_probe-IsTrueReport h gate w r (pin_refused p) = none_started
after_probe-IsTrueReport h gate w r not_text = tt
after_probe-IsTrueReport h gate w r (started_one m lines a b) =
    let args = codes "-q" ∷ gate.files in
    let env = make_env h.environ lines in
    let ran = h.make gate.make args env w.disk in
    judge_probe-IsTrueReport h gate w (record { program = gate.make; args = args; env = env }) ran.1
      ran.0 refl

-- A refusal that the steps before make report, or that reading the pin again reports.
abbrev pub IsBeforeMake : Outcome Gate → Type 0
IsBeforeMake (gate_refused ps i) = i ≡ make_was_not_invoked
IsBeforeMake crashed = Unit
IsBeforeMake (done gate) = Unit

settle-IsBeforeMake :
    (ps : List GateProblem) (c : Option Checked) (make : Option Str)
    → IsBeforeMake (settle ps c make)
settle-IsBeforeMake (p ∷ ps) c make = refl
settle-IsBeforeMake [] none make = refl
settle-IsBeforeMake [] (some c) none = refl
settle-IsBeforeMake [] (some c) (some make) = tt

before_make-IsBeforeMake :
    (extra : List Str) (b : Outcome Checked) (e : Outcome Unit) (m : Outcome Str)
    → IsBeforeMake (before_make extra b e m)
unfolding before_make
before_make-IsBeforeMake extra b e m = elim (Bool-cases (is_crash b || is_crash e || is_crash m)) [
  | inl k ↦ rw k tt
  | inr k ↦ rw k (settle-IsBeforeMake _ (value b) (value m))
]

probe_gate-IsTrueReport :
    (h : Host) (w : World) (o : Outcome Gate) → IsBeforeMake o → IsTrueReport w (probe_gate h w o)
unfolding remake_probe
probe_gate-IsTrueReport h w (gate_refused ps i) e = subst (λ x. Reports w x w) (sym e) none_started
probe_gate-IsTrueReport h w crashed e = tt
probe_gate-IsTrueReport h w (done gate) e =
    after_probe-IsTrueReport h gate w _ (run_make-Ran h gate.make (codes "-q" ∷ gate.files) w)

-- Whatever open_gate refuses, its report is true: with `make was NOT invoked` the world is
-- unchanged, with the two `only make -q ran` texts exactly one process of `make -q` was started.
pub open_gate-IsTrueReport :
    (h : Host) (extra : List Str) (w : World) → IsTrueReport w (open_gate h extra w)
unfolding open_gate
open_gate-IsTrueReport h extra w =
    probe_gate-IsTrueReport h w
      (before_make extra (check_pinned_bytes h w.disk) (check_environment h.environ)
        (resolve_make h))
      (before_make-IsBeforeMake extra (check_pinned_bytes h w.disk) (check_environment h.environ)
        (resolve_make h))
