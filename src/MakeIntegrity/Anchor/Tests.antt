-- ===== src/MakeIntegrity/Anchor/Tests.antt =====
-- The anchor with a make that succeeds, on a Makefile of one target.
use vizra_search.Makegate.Gate.Bytes.{Checked}
use vizra_search.Base.{
  ◌↔◌, ℕ, ◌≡◌, ◌≢◌, ◌++◌, refl, true, some, List, [], ◌∷◌, All, Str, codes, str_eq, mem_str,
  if◌then◌else◌, ap,
}
use vizra_search.Makegate.Pin.{bytes}
use vizra_search.Makegate.Environ.{Env}
use vizra_search.Makegate.Gate.Machine.{Entry, absent, regular, Disk, exited, Process, Host, World}
use vizra_search.MakeIntegrity.Recipe.{check_recipe}
use vizra_search.MakeIntegrity.Recipe.Kept.{IsUnswallowed, check_recipe-IsUnswallowed}
use vizra_search.MakeIntegrity.Text.{check_text}
use vizra_search.MakeIntegrity.Text.Whole.{IsCleanText, check_text-IsCleanText}
use vizra_search.MakeIntegrity.Environment.{check_environment}
use vizra_search.MakeIntegrity.Environment.Strict.{IsStrict, check_environment-IsStrict}
use vizra_search.MakeIntegrity.Anchor.{Checked, passed, main}
use vizra_search.MakeIntegrity.Anchor.Started.{IsReady, main-started}
use vizra_search.MakeIntegrity.Anchor.Passed.{IsPassed, main-IsPassed}

abbrev digest : Str
digest = codes "0123456789abcdef0123456789abcdef0123456789abcdef0123456789abcdef"

abbrev text : Str
text = codes "SHELL := /bin/bash\n.SHELLFLAGS := -eu -o pipefail -c\na:\n\t@ go vet\n"

abbrev entry_of : Str → Entry
entry_of rel = if str_eq rel (codes "Makefile") then regular (bytes text) else absent

abbrev disk : Disk
disk = record {
  pin = bytes (codes "makefiles:\n  Makefile: " ++ digest);
  entry = entry_of;
  listing = some (codes "Makefile" ∷ []);
}

abbrev database : Str
database =
    codes
      "MAKEFLAGS = pn\nMAKEFILE_LIST :=  Makefile\nSHELL := /bin/bash\n.SHELLFLAGS := -eu -o pipefail -c\n"

-- What make prints: its database with `-pn`, the command with `--dry-run`.
abbrev reply : List Str → Process
reply args = record {
  status = exited 0;
  stdout = if mem_str (codes "-pn") args then database else codes "go vet\n";
  stderr = [];
}

abbrev environ : Env
environ = (codes "HOME", codes "/root") ∷ (codes "SHELL", codes "/bin/bash") ∷ []

-- Every file has the one digest, and make changes nothing.
abbrev host : Host
host = record {
  environ = environ;
  sha256 = λ b. digest;
  ask_shell = λ env. some (codes "file\n/usr/bin/make\n");
  realpath = λ p. p;
  is_executable = λ p. true;
  make = λ program args env d. (some (reply args), d);
}

abbrev world : World
world = record { disk = disk; started = [] }

abbrev targets : List Str
targets = codes "a" ∷ []

passes : (main host true targets world).0 ≡ passed
unfolding main
passes = refl

main-IsPassed_example : IsPassed host true targets world (main host true targets world).1
unfolding main
main-IsPassed_example = main-IsPassed host true targets world refl

starts : (main host true targets world).1 ≢ world
unfolding main
starts = λ e. let differ = ap (λ (w : World). w.started) e in cc

main-started_example : (c : Checked) × (make : Str) × IsReady host true disk c make
main-started_example = main-started host true targets world starts

check_environment-IsStrict_example :
    (check_environment (λ p. true) true environ ≡ []) ↔ IsStrict (λ p. true) environ
check_environment-IsStrict_example = check_environment-IsStrict (λ p. true) environ

abbrev recipe : List (ℕ × Str)
recipe = (4, codes "@ go vet") ∷ (5, codes "go test || false") ∷ []

recipe_passes : check_recipe (codes "Makefile") (codes "a") recipe ≡ []
unfolding check_recipe
recipe_passes = refl

check_recipe-IsUnswallowed_example : All (λ (l : ℕ × Str). IsUnswallowed (codes "a") l.1) recipe
check_recipe-IsUnswallowed_example =
    check_recipe-IsUnswallowed (codes "Makefile") (codes "a") recipe recipe_passes

text_passes : check_text (λ rel. bytes text) (codes "Makefile" ∷ []) targets targets ≡ []
unfolding check_text
text_passes = refl

check_text-IsCleanText_example :
    IsCleanText (λ rel. bytes text) (codes "Makefile" ∷ []) targets targets
check_text-IsCleanText_example =
    check_text-IsCleanText (λ rel. bytes text) (codes "Makefile" ∷ []) targets targets text_passes
