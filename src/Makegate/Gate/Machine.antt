-- ===== src/Makegate/Gate/Machine.antt =====
-- What scripts/makegate.py finds and changes: the pinned files on disk, the environment, the shell's
-- answer, make itself. A process of make is a parameter that may change every file.
use vizra_search.Base.{ℕ, Option, List, Bool, Str}
use vizra_search.Makegate.Pin.{Fetched, missing, unreadable, PinProblem}
use vizra_search.Makegate.ReadSet.{ReadProblem}
use vizra_search.Makegate.Environ.{Env}

-- What `os.lstat` says of a path. `irregular` holds what reading through it gives.
pub data Entry : Type 0 where
  absent unreachable : Entry
  irregular : Fetched → Entry
  regular : Fetched → Entry

pub record Disk : Type 0 where
  pub pin : Fetched
  pub entry : Str → Entry
  -- the names at the root, where they can be listed
  pub listing : Option (List Str)

-- `(root / rel).read_bytes()`
unfoldable pub read_bytes : Entry → Fetched
read_bytes absent = missing
read_bytes unreachable = unreadable
read_bytes (irregular f) = f
read_bytes (regular f) = f

-- `returncode`: an exit status, or the signal that ended the process.
pub data Status : Type 0 where
  exited signalled : ℕ → Status

pub record Process : Type 0 where
  pub status : Status
  pub stdout : Str
  pub stderr : Str

-- `none`: the shell could not be run, or ran too long.
pub record Host : Type 0 where
  pub environ : Env
  pub sha256 : List ℕ → Str
  pub ask_shell : Env → Option Str
  pub realpath : Str → Str
  -- `os.path.isfile(p) and os.access(p, os.X_OK)`
  pub is_executable : Str → Bool
  -- the program, its arguments, its environment; `none`: it could not be started
  pub make : Str → List Str → Env → Disk → Option Process × Disk

-- One process of make that was started.
pub record Start : Type 0 where
  pub program : Str
  pub args : List Str
  pub env : Env

-- The files, and the processes of make so far, the first one first; `MAKE_INVOCATIONS` is their number.
pub record World : Type 0 where
  pub disk : Disk
  pub started : List Start

-- The `invoked` text of a GateRefused.
pub data Invoked : Type 0 where
  make_was_not_invoked only_q_ran ran_and_changed only_q_ran_and_changed : Invoked

pub data GateProblem : Type 0 where
  -- a problem that the caller found
  callers : Str → GateProblem
  of_pin : PinProblem → GateProblem
  does_not_exist not_regular not_utf8 : Str → GateProblem
  -- path, digest, pin
  digest_differs : Str → Str → Str → GateProblem
  of_read : ReadProblem → GateProblem
  not_pinned : Str → GateProblem
  stale : List Str → GateProblem
  makefiles_set : Str → GateProblem
  cannot_ask : GateProblem
  no_make not_a_file not_executable not_approved not_named_make : Str → GateProblem
  would_remake : Status → GateProblem
  not_reread : Str → GateProblem
  -- path, digest before, digest now
  changed : Str → Str → Str → GateProblem
  not_established : GateProblem

-- A value, a GateRefused, or another exception.
pub data Outcome (A : Type 0) : Type 0 where
  done : A → Outcome A
  gate_refused : List GateProblem → Invoked → Outcome A
  crashed : Outcome A
