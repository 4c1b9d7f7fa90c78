-- ===== src/Makegate/Gate/Tests.antt =====
-- The gate with a make that succeeds, on a Makefile of one rule.
use vizra_search.Base.{
  ◌⊎◌, ◌≡◌, ◌++◌, refl, true, false, some, List, [], ◌∷◌, Str, codes, str_eq, In, here, there,
  mem_str, if◌then◌else◌,
}
use vizra_search.Makegate.Lines.{makefile_lines}
use vizra_search.Makegate.Pin.{bytes}
use vizra_search.Makegate.Environ.{environment_words, keep_env, is_name}
use vizra_search.Makegate.Environ.Words.{IsWordOfLines, environment_words-In}
use vizra_search.Makegate.Gate.Steps.{
  check_pinned_bytes-IsReviewed, resolve_make-IsApproved, IsReviewed, IsApproved,
}
use vizra_search.Makegate.Gate.Started.{open_gate-IsTrueReport, IsTrueReport}
use vizra_search.Makegate.Gate.Opens.{open_gate-Opened, Opened}
use vizra_search.Makegate.Gate.Commands.{main-Commanded, gate_run-Commanded, Commanded}
use vizra_search.Makegate.Gate.Machine.{
  Entry, absent, regular, Disk, exited, Process, Host, Start, World, done,
}
use vizra_search.Makegate.Gate.Bytes.{Checked, check_pinned_bytes}
use vizra_search.Makegate.Gate.Program.{resolve_make}
use vizra_search.Makegate.Gate.Run.{Gate, open_gate, gate_run, main, run_make}
use vizra_search.Makegate.Gate.Started.{run_make-IsCleaned, IsCleaned}

abbrev digest : Str
digest = codes "0123456789abcdef0123456789abcdef0123456789abcdef0123456789abcdef"

abbrev text : Str
text = codes "a:\n\techo $(V)\n"

abbrev entry_of : Str → Entry
entry_of rel = if str_eq rel (codes "Makefile") then regular (bytes text) else absent

abbrev disk : Disk
disk = record {
  pin = bytes (codes "makefiles:\n  Makefile: " ++ digest);
  entry = entry_of;
  listing = some (codes "Makefile" ∷ []);
}

abbrev success : Process
success = record { status = exited 0; stdout = []; stderr = [] }

-- Every file has the one digest, and make changes nothing.
abbrev host : Host
host = record {
  environ = (codes "HOME", codes "/root") ∷ (codes "V", codes "1") ∷ [];
  sha256 = λ b. digest;
  ask_shell = λ env. some (codes "file\n/usr/bin/make\n");
  realpath = λ p. p;
  is_executable = λ p. true;
  make = λ program args env d. (some success, d);
}

abbrev world : World
world = record { disk = disk; started = [] }

abbrev start : List Str → Start
start args = record {
  program = codes "/usr/bin/make";
  args = args;
  env = (codes "HOME", codes "/root") ∷ [];
}

abbrev probed : World
probed = record { disk = disk; started = start (codes "-q" ∷ codes "Makefile" ∷ []) ∷ [] }

abbrev ran : World
ran = record {
  disk = disk;
  started = start (codes "-q" ∷ codes "Makefile" ∷ []) ∷ start (codes "a" ∷ []) ∷ [];
}

abbrev gate : Gate
gate = record {
  files = codes "Makefile" ∷ [];
  digests = (codes "Makefile", digest) ∷ [];
  sites = [];
  make = codes "/usr/bin/make";
}

abbrev checked : Checked
checked = record { order = gate.files; digests = gate.digests; sites = [] }

checks : check_pinned_bytes host disk ≡ done checked
unfolding check_pinned_bytes
checks = refl

resolves : resolve_make host ≡ done (codes "/usr/bin/make")
unfolding resolve_make
resolves = refl

opens : open_gate host [] world ≡ (done gate, probed)
unfolding open_gate
opens = refl

runs : gate_run host gate false (codes "a" ∷ []) probed ≡ (done success, ran)
unfolding gate_run
runs = refl

main_runs : main host (codes "--" ∷ codes "a" ∷ []) world ≡ (done success, ran)
unfolding main
main_runs = refl

check_pinned_bytes-IsReviewed_example : IsReviewed host disk checked
check_pinned_bytes-IsReviewed_example = check_pinned_bytes-IsReviewed host disk checked checks

resolve_make-IsApproved_example : IsApproved host (codes "/usr/bin/make")
resolve_make-IsApproved_example = resolve_make-IsApproved host (codes "/usr/bin/make") resolves

open_gate-Opened_example : Opened host [] world gate probed
open_gate-Opened_example = open_gate-Opened host [] world probed gate opens

open_gate-IsTrueReport_example :
    IsTrueReport world (open_gate host (codes "GOFLAGS is set" ∷ []) world)
open_gate-IsTrueReport_example = open_gate-IsTrueReport host (codes "GOFLAGS is set" ∷ []) world

gate_run-Commanded_example : Commanded host gate (codes "a" ∷ []) probed ran
gate_run-Commanded_example =
    gate_run-Commanded host gate false (codes "a" ∷ []) probed ran success runs

main-Commanded_example :
    (g : Gate) × (between : World) × Opened host [] world g between
    × Commanded host g (codes "a" ∷ []) between ran
unfolding str_eq
main-Commanded_example =
    main-Commanded host (codes "--" ∷ codes "a" ∷ []) world ran success main_runs

has_word : IsWordOfLines (codes "V") (makefile_lines text)
unfolding makefile_lines is_name
has_word = (
  _,
  there (here refl),
  record {
    before = codes "\techo $(";
    after = codes ")";
    splits = refl;
    spelled = refl;
    opens = refl;
    closes = refl;
  },
)

is_not_kept : mem_str (codes "V") keep_env ≡ false
unfolding mem_str
is_not_kept = refl

environment_words-In_example : In (codes "V") (environment_words (makefile_lines text))
environment_words-In_example =
    environment_words-In (codes "V") (makefile_lines text) has_word is_not_kept

starts_one :
    In
      (start (codes "a" ∷ []))
      (run_make host (codes "/usr/bin/make") (codes "a" ∷ []) world).1.started
unfolding run_make
starts_one = here refl

run_make-IsCleaned_example :
    In (start (codes "a" ∷ [])) world.started ⊎ IsCleaned world.disk (start (codes "a" ∷ []))
run_make-IsCleaned_example =
    run_make-IsCleaned host (codes "/usr/bin/make") (codes "a" ∷ []) world (start (codes "a" ∷ []))
      starts_one
