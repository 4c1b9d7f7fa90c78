-- ===== src/Makegate/Gate/Opens.antt =====
-- What holds where the gate opens, and after a command that went through it.
use vizra_search.Base.{
  ap₂, ℕ, zero, suc, ◌≡◌, refl, ap, subst, false, ◌||◌, inl, inr, Option, none, some, List, [], ◌∷◌,
  map, Bool-cases, Option-some, append-eq-nil_left, append-eq-nil_right, Str, codes, All, str_eq,
  str_eq_iff,
}
use vizra_search.Makegate.Lines.{LogicalLine}
use vizra_search.Makegate.Gate.Started.{Ran, pin_refused, not_text, started_one, run_make-Ran}
use vizra_search.Makegate.Pin.{pins, load_pin, Fetched, missing, unreadable, bytes}
use vizra_search.Makegate.Environ.{assigns}
use vizra_search.Makegate.Gate.Machine.{
  callers, only_q_ran_and_changed, Disk, read_bytes, Status, exited, signalled, Host, Process,
  World, Invoked, GateProblem, Outcome, done, gate_refused, crashed,
}
use vizra_search.Makegate.Gate.Bytes.{Checked, check_pinned_bytes, sort_pins}
use vizra_search.Makegate.Gate.Program.{check_environment, resolve_make}
use vizra_search.Makegate.Gate.Digests.{done-eq, map-nil}
use vizra_search.Makegate.Gate.Steps.{
  IsReviewed, check_pinned_bytes-IsReviewed, IsApproved, resolve_make-IsApproved,
  check_environment-unset,
}
use vizra_search.Makegate.Gate.Run.{
  pinned_lines, make_env, Result, start_make, run_make, judge_status, judge_probe, remake_probe,
  recheck_one, recheck, Gate, unless_changed, problems_of, is_crash, value, after_probe, settle,
  before_make, probe_gate, open_gate,
}

-- The file's bytes have the digest.
abbrev pub HasDigest : Host → Disk → Str × Str → Type 0
HasDigest h disk e =
    (content : List ℕ) × (read_bytes (disk.entry e.0) ≡ bytes content) × (h.sha256 content ≡ e.1)

recheck_one-HasDigest :
    (h : Host) (rel want : Str) (f : Fetched)
    → recheck_one h rel want f ≡ []
    → (content : List ℕ) × (f ≡ bytes content) × (h.sha256 content ≡ want)
recheck_one-HasDigest h rel want missing e = cc
recheck_one-HasDigest h rel want unreadable e = cc
recheck_one-HasDigest h rel want (bytes b) e = elim (Bool-cases (str_eq (h.sha256 b) want)) [
  | inl k ↦ (b, refl, (str_eq_iff (h.sha256 b) want).0 k)
  | inr k ↦ cc (rw k at e)
]

-- A silent `recheck` says that every file still has its digest.
pub recheck-HasDigest :
    (h : Host) (disk : Disk) (digests : List (Str × Str))
    → recheck h disk digests ≡ []
    → All (HasDigest h disk) digests
unfolding recheck
recheck-HasDigest h disk [] e = tt
recheck-HasDigest h disk ((rel, want) ∷ digests) e = (
  recheck_one-HasDigest h rel want (read_bytes (disk.entry rel))
      (append-eq-nil_left _ (recheck h disk digests) e),
  recheck-HasDigest h disk digests
      (append-eq-nil_right (recheck_one h rel want (read_bytes (disk.entry rel))) _ e),
)

-- The steps before make all succeeded, and the caller found no problem.
record Settled (extra : List Str) (b : Outcome Checked) (e : Outcome Unit) (m : Outcome Str)
    (gate : Gate) : Type 0 where
  no_extra : extra ≡ []
  of_bytes : b ≡ done (record { order = gate.files; digests = gate.digests; sites = gate.sites })
  of_env : problems_of e ≡ []
  of_make : m ≡ done gate.make

settle-done :
    (ps : List GateProblem) (c : Option Checked) (make : Option Str) (gate : Gate)
    → settle ps c make ≡ done gate
    → (ps ≡ [])
      × (c ≡ some (record { order = gate.files; digests = gate.digests; sites = gate.sites }))
      × (make ≡ some gate.make)
settle-done (p ∷ ps) c make gate e = cc
settle-done [] none make gate e = cc
settle-done [] (some c) none gate e = cc
settle-done [] (some c) (some make) gate e =
    let same = done-eq e in
    (
      refl,
      ap (λ (g : Gate). some (record { order = g.files; digests = g.digests; sites = g.sites }))
          same,
      ap (λ (g : Gate). some g.make) same,
    )

value-some : {A : Type 0} {a : A} (o : Outcome A) → value o ≡ some a → o ≡ done a
value-some (done b) e = ap done (Option-some e)
value-some (gate_refused ps i) e = cc
value-some crashed e = cc

before_make-Settled :
    (extra : List Str) (b : Outcome Checked) (e : Outcome Unit) (m : Outcome Str) (gate : Gate)
    → before_make extra b e m ≡ done gate
    → Settled extra b e m gate
unfolding before_make
before_make-Settled extra b e m gate k =
    elim (Bool-cases (is_crash b || is_crash e || is_crash m)) [
      | inl x ↦ cc (rw x at k)
      | inr x ↦
          let (none_left, c, make) = settle-done _ (value b) (value m) gate (rw x at k) in
          let later = append-eq-nil_right (map callers extra) _ none_left in
          record {
            no_extra = map-nil callers extra (append-eq-nil_left (map callers extra) _ none_left);
            of_bytes = value-some b c;
            of_env =
                append-eq-nil_left (problems_of e) _ (append-eq-nil_right (problems_of b) _ later);
            of_make = value-some m make;
          }
    ]

-- One process of make ran to an exit status of 0, in the environment that `run_make` gives it.
pub record Probed (h : Host) (gate : Gate) (w w2 : World) : Type 0 where
  pub pinned : List (Str × Str)
  pub lines : List LogicalLine
  pub loads : load_pin w.disk.pin ≡ pins pinned
  pub reads : pinned_lines w.disk (sort_pins pinned) ≡ some lines
  pub process : Process
  pub ends :
      start_make h gate.make (codes "-q" ∷ gate.files) (make_env h.environ lines) w
      ≡ (done process, w2)
  pub succeeds : process.status ≡ exited 0

pub record Opened (h : Host) (extra : List Str) (w : World) (gate : Gate) (w2 : World)
    : Type 0 where
  pub no_extra : extra ≡ []
  pub reviewed :
      IsReviewed h w.disk
        (record { order = gate.files; digests = gate.digests; sites = gate.sites })
  pub unset : assigns (codes "MAKEFILES") h.environ ≡ false
  pub approved : IsApproved h gate.make
  pub probed : Probed h gate w w2
  pub unchanged : All (HasDigest h w2.disk) gate.digests

pub unless_changed-done :
    {A : Type 0} (found : List GateProblem) (i : Invoked) (a b : A)
    → unless_changed found i a ≡ done b
    → (found ≡ []) × (a ≡ b)
unless_changed-done [] i a b e = (refl, done-eq e)
unless_changed-done (p ∷ ps) i a b e = cc

judge_status-ends :
    (h : Host) (gate opened : Gate) (w3 w2 : World) (status : Status)
    → after_probe h gate (judge_status status, w3) ≡ (done opened, w2)
    → (status ≡ exited 0) × (gate ≡ opened) × (w3 ≡ w2) × (recheck h w2.disk gate.digests ≡ [])
judge_status-ends h gate opened w3 w2 (exited zero) e =
    let same : w3 ≡ w2 = ap (λ (x : Result Gate). x.1) e in
    let (silent, g) =
      unless_changed-done (recheck h w3.disk gate.digests) only_q_ran_and_changed gate opened
        (ap (λ (x : Result Gate). x.0) e) in
    (refl, g, same, subst (λ (x : World). recheck h x.disk gate.digests ≡ []) same silent)
judge_status-ends h gate opened w3 w2 (exited (suc n)) e = cc (ap (λ (x : Result Gate). x.0) e)
judge_status-ends h gate opened w3 w2 (signalled n) e = cc (ap (λ (x : Result Gate). x.0) e)

after_probe-ends :
    (h : Host) (gate opened : Gate) (w2 : World) (out : Outcome Process) (w3 : World)
    → after_probe h gate (judge_probe out, w3) ≡ (done opened, w2)
    → (process : Process) × (out ≡ done process)
      × (process.status ≡ exited 0)
      × (gate ≡ opened)
      × (w3 ≡ w2)
      × (recheck h w2.disk gate.digests ≡ [])
after_probe-ends h gate opened w2 (gate_refused ps i) w3 e = cc (ap (λ (x : Result Gate). x.0) e)
after_probe-ends h gate opened w2 crashed w3 e = cc (ap (λ (x : Result Gate). x.0) e)
after_probe-ends h gate opened w2 (done process) w3 e =
    let (s, g, same, silent) = judge_status-ends h gate opened w3 w2 process.status e in
    (process, refl, s, g, same, silent)

Probed-intro :
    (h : Host) (gate : Gate) (w w2 : World) (r : Result Process) (process : Process)
    → Ran h gate.make (codes "-q" ∷ gate.files) w r
    → r ≡ (done process, w2)
    → process.status ≡ exited 0
    → Probed h gate w w2
Probed-intro h gate w w2 r process (pin_refused p) e s = cc (ap (λ (x : Result Process). x.0) e)
Probed-intro h gate w w2 r process not_text e s = cc (ap (λ (x : Result Process). x.0) e)
Probed-intro h gate w w2 r process (started_one m lines a b) e s = record {
  pinned = m;
  lines = lines;
  loads = a;
  reads = b;
  process = process;
  ends = e;
  succeeds = s;
}

probe_gate-Opened :
    (h : Host) (extra : List Str) (w w2 : World) (gate opened : Gate)
    → Settled extra
        (check_pinned_bytes h w.disk)
        (check_environment h.environ)
        (resolve_make h)
        gate
    → after_probe h gate (remake_probe h gate.make gate.files w) ≡ (done opened, w2)
    → Opened h extra w opened w2
unfolding remake_probe
probe_gate-Opened h extra w w2 gate opened s e =
    let r = run_make h gate.make (codes "-q" ∷ gate.files) w in
    let (process, out, zero_status, same, world, silent) =
      after_probe-ends h gate opened w2 r.0 r.1 e in
    subst (λ g. Opened h extra w g w2) same
      (record {
        no_extra = s.no_extra;
        reviewed = check_pinned_bytes-IsReviewed h w.disk _ s.of_bytes;
        unset = check_environment-unset h.environ s.of_env;
        approved = resolve_make-IsApproved h gate.make s.of_make;
        probed =
            Probed-intro h gate w w2 r process
              (run_make-Ran h gate.make (codes "-q" ∷ gate.files) w) (ap₂ (λ x y. (x, y)) out world)
              zero_status;
        unchanged = recheck-HasDigest h w2.disk gate.digests silent;
      })

-- If open_gate returns a gate, then no caller's problem stood, the pinned bytes match their pins and
-- the read set is the pinned, accepted files, MAKEFILES is unset, make is approved, exactly one
-- `make -q` ran and exited 0, and every digest still holds after it.
pub open_gate-Opened :
    (h : Host) (extra : List Str) (w w2 : World) (gate : Gate)
    → open_gate h extra w ≡ (done gate, w2)
    → Opened h extra w gate w2
unfolding open_gate
open_gate-Opened h extra w w2 gate e =
    go
      (before_make extra (check_pinned_bytes h w.disk) (check_environment h.environ)
        (resolve_make h))
      refl e
  where
    go :
        (o : Outcome Gate)
        → before_make extra
            (check_pinned_bytes h w.disk)
            (check_environment h.environ)
            (resolve_make h)
          ≡ o
        → probe_gate h w o ≡ (done gate, w2)
        → Opened h extra w gate w2
    go (gate_refused ps i) k e = cc (ap (λ (x : Result Gate). x.0) e)
    go crashed k e = cc (ap (λ (x : Result Gate). x.0) e)
    go (done g) k e =
        probe_gate-Opened h extra w w2 g gate
          (before_make-Settled extra (check_pinned_bytes h w.disk) (check_environment h.environ)
            (resolve_make h) g k)
          e
