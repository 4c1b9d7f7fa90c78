-- ===== src/MakeIntegrity/Checks.antt =====
-- scripts/make-integrity-guard.py, `main`: the checks before the first process of make.
use vizra_search.Base.{Bool, Option, none, some, List, [], ◌∷◌, ◌++◌, map, Str}
use vizra_search.Makegate.Lines.{LogicalLine}
use vizra_search.Makegate.Gate.Machine.{Disk, Status, Host, GateProblem, Outcome, done, crashed}
use vizra_search.Makegate.Gate.Bytes.{Checked, check_pinned_bytes}
use vizra_search.Makegate.Gate.Program.{resolve_make}
use vizra_search.Makegate.Gate.Run.{pinned_lines, problems_of}
use vizra_search.MakeIntegrity.Recipe.{RecipeFailure}
use vizra_search.MakeIntegrity.Text.{TextFailure}
use vizra_search.MakeIntegrity.Environment.{
  EnvFailure, check_environment, check_environment_overrides,
}
use vizra_search.MakeIntegrity.Resolver.{ResolverFailure}

-- One call of `Guard.fail`.
pub data Failure : Type 0 where
  no_makefile : Failure
  of_gate : GateProblem → Failure
  of_environment : EnvFailure → Failure
  of_text : TextFailure → Failure
  of_resolver : ResolverFailure → Failure
  of_command : RecipeFailure → Failure
  make_failed : Str → Status → Failure
  -- the files that make read, the files that are pinned
  read_differs : List Str → List Str → Failure

-- The paths as a dict's keys, for `pinned_lines`, which reads the files of a list of pins.
abbrev pub as_pins : List Str → List (Str × Str)
as_pins [] = []
as_pins (f ∷ files) = (f, []) ∷ as_pins files

-- What is known before make may be started.
pub data Before : Type 0 where
  ready : Checked → Str → Before
  stopped : List Failure → Before
  broken_off : Before

abbrev pub overrides_in : Host → Bool → Option (List LogicalLine) → Option (List EnvFailure)
overrides_in h workflow none = none
overrides_in h workflow (some lines) = some (check_environment_overrides h.environ lines workflow)

-- `check_environment_overrides`, where the pinned bytes hold; `none` is an exception.
abbrev pub overrides_of : Host → Bool → Disk → Outcome Checked → Option (List EnvFailure)
overrides_of h workflow disk (done c) =
    overrides_in h workflow (pinned_lines disk (as_pins c.order))
overrides_of h workflow disk _ = some []

abbrev pub stop_or : List Failure → Outcome Checked → Outcome Str → Before
stop_or [] (done c) (done make) = ready c make
stop_or failures bytes_step make_step = stopped failures

abbrev pub join_before :
    Outcome Checked → List EnvFailure → Outcome Str → Option (List EnvFailure) → Before
join_before crashed env make_step overrides = broken_off
join_before bytes_step env crashed overrides = broken_off
join_before bytes_step env make_step none = broken_off
join_before bytes_step env make_step (some taken) =
    stop_or
      (map of_gate (problems_of bytes_step)
        ++ map of_environment env
        ++ map of_gate (problems_of make_step)
        ++ map of_environment taken)
      bytes_step make_step

unfoldable pub before_make : Host → Bool → Disk → Before
unfolding check_pinned_bytes check_environment resolve_make pinned_lines check_environment_overrides
before_make h workflow disk =
    join_before (check_pinned_bytes h disk) (check_environment h.is_executable workflow h.environ)
      (resolve_make h) (overrides_of h workflow disk (check_pinned_bytes h disk))
