-- ===== src/Lib.antt =====
-- Five programs of vizra-search. The makefile gate (scripts/makegate.py): every process of `make`
-- that a script or a test of the repository starts goes through it. It reads the pin file
-- .github/pinned-makefiles.yml, compares every pinned file with its digest, works out from the
-- bytes which files make will read, accepts only the lines of a small grammar, cleans the
-- environment, checks which program make is, probes with `make -q` that nothing would be remade,
-- and only then runs the requested command, after which every pinned file is hashed again.
--
-- The test report (scripts/go-test-report.py) judges the events of a `go test -json` lane against
-- the floors file and the recorded exit code. The workflow check (scripts/check-workflows.py)
-- refuses `continue-on-error` in the workflows. These two are independent of the gate.
--
-- The anchor (scripts/make-integrity-guard.py) is the first make step of a lane. It runs the gate's
-- checks and probe, checks its own environment, asks make for its database and a dry run of each
-- gate target, and reads the files that make read: the lines that would disarm a recipe, and the
-- recipes of the targets and of what they depend on.
--
-- The vendoring script (scripts/vendor-contract.py) copies the contract's files from a checkout of
-- vizra-core, records their origin and digests in api/CONTRACT-SOURCE.json, and checks the copies.
--
-- Files and code. A text is the list of its code points; a list of problems holds one value per
-- message.
--   Base, Regex           Python's str, os.path, UTF-8 decoding and re, as far as the script uses them
--   Makegate/Comment      _strip_comment
--   Makegate/Lines        LogicalLine, makefile_lines, keeps_rule_open, recipe_lines
--   Makegate/Patterns     the patterns of the grammar, with a description of what each matches
--   Makegate/Dollars      _dollar_problems
--   Makegate/Characters   _forbidden_char
--   Makegate/Grammar      grammar_problems; Grammar/Shapes describes the allowed lines
--   Makegate/Rules        _rule_parts, _assigned_name, computed_name_problems, rule_line_problems
--   Makegate/Reviewed     reviewed_bytes_problems
--   Makegate/Pin          load_pin
--   Makegate/ReadSet      static_read_set
--   Makegate/Environ      clean_env, environment_taken, environment_words
--   Makegate/Gate         check_pinned_bytes, resolve_make, check_environment, run_make, remake_probe,
--                         recheck, Gate.run, open_gate, main
--   GoTestReport          main: Inputs (the floors file, the exit code), Tally (the event loop),
--                         Verdict (the problems and the status)
--   MakeIntegrity         Closure (prerequisite_closure), Recipe (check_recipe,
--                         check_expanded_commands), Text (check_text), Environment (check_environment,
--                         check_environment_overrides), Resolver (resolve_database, check_resolved, the
--                         warnings), Checks and Anchor (main)
--   Json                  the decoded JSON values that two of the scripts read
--   VendorContract        Url (parse_remote_url), Git (git_raw, git, gits), Refs (the remote, the ref, the
--                         commit), Manifest (load_manifest, insert_after, write_manifest,
--                         read_from_core), Vendor (vendor), Check (check, main)
--   CheckWorkflows        Search (normalise, find_forbidden, value_kind, raw_key_spelling), Status (main)
--
-- The gate is a function of a world: the files on disk and the processes of make started so far. A
-- process of make is a parameter that may change every file; so are sha256, the shell's answer to
-- `type -t make`, PyYAML's safe_load, os.path.realpath and the test for an executable file. An
-- outcome is a value, a GateRefused with its problems and its `invoked` text, or another exception.
-- The anchor runs in the same world, through the same functions; a call of its Guard.fail is a value
-- of a list.
--
-- The vendoring script is a function of the files, which are a function from a path to what reading it
-- gives. Its parameters are what git answers to each command, json.loads, json.dumps, sha256, the
-- date, and a write of the file system, which may fail or change anything; a theorem that needs
-- more of them says so. A step ends with a value, with `die` or with an exception, and the files
-- come back in each case.
--
-- Fuel. A loop of a pattern takes the length of its text, since a round takes a character. The
-- queue of static_read_set takes one round for Makefile and one for each file that a text can
-- queue, which Makegate/ReadSet/Total shows to be enough; so does prerequisite_closure with the
-- seeds and the prerequisites of all rules, in MakeIntegrity/Total. _dollar_problems takes the
-- length of its text.
--
-- Not modelled: the wording of messages, Gate.describe, the argument parsers, the cache of
-- makefile_lines (it returns equal values), decoding the JSON of the floors and the events and the
-- rows that go-test-report.py prints for --emit-floors, digits outside ASCII in `int`, in a
-- port and in what make prints, redact_url and the other printed text of vendor-contract.py, aliases of a
-- YAML document that contain themselves, str.lower beyond the names it is compared with, and the
-- notes of make-integrity-guard.py, which fail nothing. The other scripts
-- (scripts/ci-required-guard.py, contract-drift-guard.py) and the Go service are not part of it.
pub mod Base
pub mod Regex
pub mod Makegate
pub mod GoTestReport
pub mod CheckWorkflows
pub mod MakeIntegrity
pub mod Json
pub mod VendorContract
