-- ===== src/Dsl/Parser/Apply.antt =====
-- crates/shellflow-dsl/src/parser.rs: `apply_directive`, the directives by their keywords.
use shellflow.Base.{ℕ, not, List, [], ◌∷◌, Option, none, some, Text, if◌then◌else◌, is_empty}
use shellflow.Base.Text.{codes, eq_text, trim}
use shellflow.Base.Text.Number.{parse_uint, max_u64}
use shellflow.Base.Result.{Result, ok, err, ◌>>=◌, ◌>>◌, ensure}
use shellflow.Dsl.Error.{ParseError, invalid_directive, unknown_directive}
use shellflow.Dsl.Parser.Flags.{ticked, require_target, positive}
use shellflow.Dsl.Parser.State.{State, in_local, in_remote, flush}
use shellflow.Dsl.Parser.Declare.{
  declare_server, declare_group, declare_env, declare_secrets, declare_export, add_workdir,
}
use shellflow.Dsl.Parser.Files.{add_copy}
use shellflow.Dsl.Parser.Store.{add_install, add_backup, add_credstore}
use shellflow.Dsl.Parser.Units.{add_wait, add_reload, add_service}
use shellflow.Dsl.Parser.Builds.{add_unit_inventory, add_helper, add_release}
use shellflow.Dsl.Parser.Fleet.{add_build, add_toolchain, add_image}
use shellflow.Dsl.Parser.Conditions.{
  add_assert, add_assert_enabled, add_assert_port, add_assert_port_free, add_assert_rendered,
}
use shellflow.Dsl.Parser.Health.{add_assert_health}
use shellflow.Dsl.Parser.Probes.{add_assert_no_leak, add_assert_digest, add_assert_credstore}

-- The keywords of the language.
pub data Keyword : Type 0 where
  at_server : Keyword
  at_group : Keyword
  at_env : Keyword
  at_secrets : Keyword
  at_local : Keyword
  at_remote : Keyword
  at_copy : Keyword
  at_wait_active : Keyword
  at_reload : Keyword
  at_assert : Keyword
  at_assert_health : Keyword
  at_assert_port : Keyword
  at_assert_port_free : Keyword
  at_assert_enabled : Keyword
  at_assert_rendered : Keyword
  at_service : Keyword
  at_install : Keyword
  at_backup : Keyword
  at_credstore : Keyword
  at_assert_no_leak : Keyword
  at_assert_digest : Keyword
  at_assert_credstore : Keyword
  at_unit_inventory : Keyword
  at_helper : Keyword
  at_release : Keyword
  at_build : Keyword
  at_toolchain : Keyword
  at_image : Keyword
  at_workdir : Keyword
  at_export : Keyword
  at_timeout : Keyword
  at_name : Keyword
  at_only_if : Keyword

-- The patterns of the `match` in its order, each with its arm.
abbrev pub keywords : List (Text × Keyword)
keywords =
    (codes "server", at_server)
    ∷ (codes "group", at_group)
    ∷ (codes "env", at_env)
    ∷ (codes "secrets", at_secrets)
    ∷ (codes "local", at_local)
    ∷ (codes "remote", at_remote)
    ∷ (codes "copy", at_copy)
    ∷ (codes "wait_active", at_wait_active)
    ∷ (codes "reload", at_reload)
    ∷ (codes "assert", at_assert)
    ∷ (codes "assert_health", at_assert_health)
    ∷ (codes "assert_port", at_assert_port)
    ∷ (codes "assert_port_free", at_assert_port_free)
    ∷ (codes "assert_enabled", at_assert_enabled)
    ∷ (codes "assert_rendered", at_assert_rendered)
    ∷ (codes "service", at_service)
    ∷ (codes "install", at_install)
    ∷ (codes "backup", at_backup)
    ∷ (codes "credstore", at_credstore)
    ∷ (codes "assert_no_leak", at_assert_no_leak)
    ∷ (codes "assert_digest", at_assert_digest)
    ∷ (codes "assert_credstore", at_assert_credstore)
    ∷ (codes "unit_inventory", at_unit_inventory)
    ∷ (codes "helper", at_helper)
    ∷ (codes "release", at_release)
    ∷ (codes "build", at_build)
    ∷ (codes "toolchain", at_toolchain)
    ∷ (codes "image", at_image)
    ∷ (codes "workdir", at_workdir)
    ∷ (codes "export", at_export)
    ∷ (codes "timeout", at_timeout)
    ∷ (codes "name", at_name)
    ∷ (codes "only_if", at_only_if)
    ∷ []

unfoldable pub find_keyword : Text → List (Text × Keyword) → Option Keyword
unfolding eq_text
find_keyword text [] = none
find_keyword text ((spelling, keyword) ∷ rest) =
    let found = find_keyword text rest in if eq_text text spelling then some keyword else found

-- `mode`, `target` and `target_line` of a local block.
unfoldable pub enter_local : State → State
enter_local s = record s { mode = in_local; target = []; target_line = 0 }

unfoldable pub enter_remote : Text → ℕ → State → Result ParseError State
unfolding require_target
enter_remote payload line s = do
  target ← require_target payload (codes "remote") line
  ok (record s { mode = in_remote; target = target; target_line = line })

unfoldable pub set_timeout : Text → ℕ → State → Result ParseError State
unfolding trim parse_uint
set_timeout payload line s = do
  seconds ←
      positive
        (invalid_directive line (codes "timeout") (ticked (codes "invalid seconds ") payload []))
        (invalid_directive line (codes "timeout") (codes "must be greater than zero"))
        (parse_uint max_u64 (trim payload))
  ok (record s { pending_timeout = some seconds })

unfoldable pub set_name : Text → ℕ → State → Result ParseError State
unfolding trim
set_name payload line s = do
  ensure (not (is_empty (trim payload)))
      (invalid_directive line (codes "name") (codes "missing label"))
  ok (record s { pending_name = some (trim payload) })

unfoldable pub set_guard : Text → ℕ → State → Result ParseError State
unfolding trim
set_guard payload line s = do
  ensure (not (is_empty (trim payload)))
      (invalid_directive line (codes "only_if") (codes "missing command"))
  ok (record s { pending_guard = some (trim payload) })

-- The arm of a keyword, behind the first flush.
unfoldable pub run_keyword : Keyword → Text → ℕ → State → Result ParseError State
unfolding declare_server declare_group declare_env declare_secrets declare_export add_workdir
    add_copy add_install add_backup add_credstore add_wait add_reload add_service add_unit_inventory
    add_helper add_release add_build add_toolchain add_image add_assert add_assert_enabled
    add_assert_port add_assert_port_free add_assert_rendered add_assert_health add_assert_no_leak
    add_assert_digest add_assert_credstore enter_local enter_remote set_timeout set_name set_guard
    flush
run_keyword at_server payload line s = declare_server payload line s
run_keyword at_group payload line s = declare_group payload line s
run_keyword at_env payload line s = declare_env payload line s
run_keyword at_secrets payload line s = declare_secrets payload line s
run_keyword at_local payload line s = ok (enter_local s)
run_keyword at_remote payload line s = enter_remote payload line s
run_keyword at_copy payload line s = add_copy payload line (enter_local s)
run_keyword at_wait_active payload line s = add_wait payload line s
run_keyword at_reload payload line s = add_reload payload line s
run_keyword at_assert payload line s = add_assert payload line s
run_keyword at_assert_health payload line s = add_assert_health payload line s
run_keyword at_assert_port payload line s = add_assert_port payload line s
run_keyword at_assert_port_free payload line s = add_assert_port_free payload line s
run_keyword at_assert_enabled payload line s = add_assert_enabled payload line s
run_keyword at_assert_rendered payload line s = add_assert_rendered payload line s
run_keyword at_service payload line s = add_service payload line s
run_keyword at_install payload line s = add_install payload line s
run_keyword at_backup payload line s = add_backup payload line s
run_keyword at_credstore payload line s = add_credstore payload line s
run_keyword at_assert_no_leak payload line s = add_assert_no_leak payload line s
run_keyword at_assert_digest payload line s = add_assert_digest payload line s
run_keyword at_assert_credstore payload line s = add_assert_credstore payload line s
run_keyword at_unit_inventory payload line s = add_unit_inventory payload line s
run_keyword at_helper payload line s = add_helper payload line s
run_keyword at_release payload line s = add_release payload line s
run_keyword at_build payload line s = add_build payload line s
run_keyword at_toolchain payload line s = add_toolchain payload line s
run_keyword at_image payload line s = add_image payload line s
run_keyword at_workdir payload line s = add_workdir payload line s
run_keyword at_export payload line s = declare_export payload line s
run_keyword at_timeout payload line s = set_timeout payload line s
run_keyword at_name payload line s = set_name payload line (flush s)
run_keyword at_only_if payload line s = set_guard payload line (flush s)

-- Every directive but `@export` flushes the pending block.
unfoldable pub apply_directive : Text → Text → ℕ → State → Result ParseError State
unfolding eq_text flush find_keyword run_keyword
apply_directive keyword payload line s =
    let s' = if eq_text keyword (codes "export") then s else flush s in
    elim (find_keyword keyword keywords) [
      | some found ↦ run_keyword found payload line s'
      | none ↦ err (unknown_directive line keyword)
    ]
