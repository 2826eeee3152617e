-- ===== src/Dsl/Valid/Keywords.antt =====
-- The arms of `apply_directive` keep the invariant of the state.
use shellflow.Base.{ℕ, Text}
use shellflow.Base.Text.{trim}
use shellflow.Base.Text.Number.{parse_uint, parse_uint_bound, max_u64}
use shellflow.Base.Yields.{Yields, Yields-ok, Yields-then, Yields-bind}
use shellflow.Dsl.Parser.Apply.{
  Keyword, at_server, at_group, at_env, at_secrets, at_local, at_remote, at_copy, at_wait_active,
  at_reload, at_assert, at_assert_health, at_assert_port, at_assert_port_free, at_assert_enabled,
  at_assert_rendered, at_service, at_install, at_backup, at_credstore, at_assert_no_leak,
  at_assert_digest, at_assert_credstore, at_unit_inventory, at_helper, at_release, at_build,
  at_toolchain, at_image, at_workdir, at_export, at_timeout, at_name, at_only_if, enter_local,
  enter_remote, set_timeout, set_name, set_guard, run_keyword,
}
use shellflow.Dsl.Parser.Builds.{add_unit_inventory, add_helper, add_release}
use shellflow.Dsl.Parser.Conditions.{
  add_assert, add_assert_enabled, add_assert_port, add_assert_port_free, add_assert_rendered,
}
use shellflow.Dsl.Parser.Fleet.{add_build, add_toolchain, add_image}
use shellflow.Dsl.Parser.Health.{add_assert_health}
use shellflow.Dsl.Parser.Probes.{add_assert_no_leak, add_assert_digest, add_assert_credstore}
use shellflow.Dsl.Parser.State.{State, flush}
use shellflow.Dsl.Parser.Store.{add_install, add_backup, add_credstore}
use shellflow.Dsl.Parser.Units.{add_wait, add_reload, add_service}
use shellflow.Dsl.Valid.{IsState}
use shellflow.Dsl.Valid.Builds.{
  read_unit_inventory-IsStep, read_helper-IsStep, read_release-IsStep, read_build-IsStep,
  read_toolchain-IsStep, read_image-IsStep,
}
use shellflow.Dsl.Valid.Checks.{
  read_assert-IsCheck, read_assert_enabled-IsCheck, read_assert_port-IsCheck,
  read_assert_port_free-IsCheck, read_assert_rendered-IsCheck,
}
use shellflow.Dsl.Valid.Probes.{
  read_assert_health-IsCheck, read_assert_no_leak-IsCheck, read_assert_digest-IsCheck,
  read_assert_credstore-IsCheck,
}
use shellflow.Dsl.Valid.Declarations.{
  declare_server-IsState, declare_group-IsState, declare_env-IsState, declare_secrets-IsState,
  add_workdir-IsState,
}
use shellflow.Dsl.Valid.Exports.{declare_export-IsState}
use shellflow.Dsl.Valid.Files.{read_install-IsStep, read_backup-IsStep, read_credstore-IsStep}
use shellflow.Dsl.Valid.Steps.{flush-IsState, add_step-IsState, add_copy-IsState, add_check-IsState}
use shellflow.Dsl.Valid.Units.{read_wait-IsStep, read_reload-IsStep, read_service-IsStep}
use shellflow.Dsl.Valid.Values.{positive-IsPositive}

enter_remote-IsState :
    (payload : Text) (line : ℕ) (s : State)
    → IsState s
    → Yields IsState (enter_remote payload line s)
unfolding enter_remote
enter_remote-IsState payload line s h = Yields-then _ (λ target. Yields-ok _ h)

set_timeout-IsState :
    (payload : Text) (line : ℕ) (s : State)
    → IsState s
    → Yields IsState (set_timeout payload line s)
unfolding set_timeout
set_timeout-IsState payload line s (p, ex, t) =
    Yields-bind
      (positive-IsPositive max_u64 _ _ (parse_uint max_u64 (trim payload))
        (parse_uint_bound max_u64 (trim payload)))
      (λ seconds q. Yields-ok _ (p, ex, q))

set_name-IsState :
    (payload : Text) (line : ℕ) (s : State) → IsState s → Yields IsState (set_name payload line s)
unfolding set_name
set_name-IsState payload line s h = Yields-then _ (λ _. Yields-ok _ h)

set_guard-IsState :
    (payload : Text) (line : ℕ) (s : State) → IsState s → Yields IsState (set_guard payload line s)
unfolding set_guard
set_guard-IsState payload line s h = Yields-then _ (λ _. Yields-ok _ h)

pub run_keyword-IsState :
    (keyword : Keyword) (payload : Text) (line : ℕ) (s : State)
    → IsState s
    → Yields IsState (run_keyword keyword payload line s)
unfolding run_keyword enter_local add_wait add_reload add_service add_install add_backup
    add_credstore add_unit_inventory add_helper add_release add_build add_toolchain add_image
    add_assert add_assert_enabled add_assert_port add_assert_port_free add_assert_rendered
    add_assert_health add_assert_no_leak add_assert_digest add_assert_credstore
run_keyword-IsState at_server payload line s h = declare_server-IsState payload line s h
run_keyword-IsState at_group payload line s h = declare_group-IsState payload line s h
run_keyword-IsState at_env payload line s h = declare_env-IsState payload line s h
run_keyword-IsState at_secrets payload line s h = declare_secrets-IsState payload line s h
run_keyword-IsState at_local payload line s h = Yields-ok _ h
run_keyword-IsState at_remote payload line s h = enter_remote-IsState payload line s h
run_keyword-IsState at_copy payload line s h = add_copy-IsState payload line (enter_local s) h
run_keyword-IsState at_wait_active payload line s h =
    add_step-IsState _ line _ s (read_wait-IsStep payload line s h.2) h
run_keyword-IsState at_reload payload line s h =
    add_step-IsState _ line _ s (read_reload-IsStep payload line s h.2) h
run_keyword-IsState at_assert payload line s h =
    add_check-IsState _ line _ s (read_assert-IsCheck payload line s) h
run_keyword-IsState at_assert_health payload line s h =
    add_check-IsState _ line _ s (read_assert_health-IsCheck payload line s) h
run_keyword-IsState at_assert_port payload line s h =
    add_check-IsState _ line _ s (read_assert_port-IsCheck payload line s) h
run_keyword-IsState at_assert_port_free payload line s h =
    add_check-IsState _ line _ s (read_assert_port_free-IsCheck payload line s) h
run_keyword-IsState at_assert_enabled payload line s h =
    add_check-IsState _ line _ s (read_assert_enabled-IsCheck payload line s) h
run_keyword-IsState at_assert_rendered payload line s h =
    add_check-IsState _ line _ s (read_assert_rendered-IsCheck payload line s) h
run_keyword-IsState at_service payload line s h =
    add_step-IsState _ line _ s (read_service-IsStep payload line s h.2) h
run_keyword-IsState at_install payload line s h =
    add_step-IsState _ line _ s (read_install-IsStep payload line s h.2) h
run_keyword-IsState at_backup payload line s h =
    add_step-IsState _ line _ s (read_backup-IsStep payload line s h.2) h
run_keyword-IsState at_credstore payload line s h =
    add_step-IsState _ line _ s (read_credstore-IsStep payload line s h.2) h
run_keyword-IsState at_assert_no_leak payload line s h =
    add_check-IsState _ line _ s (read_assert_no_leak-IsCheck payload line s) h
run_keyword-IsState at_assert_digest payload line s h =
    add_check-IsState _ line _ s (read_assert_digest-IsCheck payload line s) h
run_keyword-IsState at_assert_credstore payload line s h =
    add_check-IsState _ line _ s (read_assert_credstore-IsCheck payload line s) h
run_keyword-IsState at_unit_inventory payload line s h =
    add_step-IsState _ line _ s (read_unit_inventory-IsStep payload line s h.2) h
run_keyword-IsState at_helper payload line s h =
    add_step-IsState _ line _ s (read_helper-IsStep payload line s h.2) h
run_keyword-IsState at_release payload line s h =
    add_step-IsState _ line _ s (read_release-IsStep payload line s h.2) h
run_keyword-IsState at_build payload line s h =
    add_step-IsState _ line _ s (read_build-IsStep payload line s h.2) h
run_keyword-IsState at_toolchain payload line s h =
    add_step-IsState _ line _ s (read_toolchain-IsStep payload line s h.2) h
run_keyword-IsState at_image payload line s h =
    add_step-IsState _ line _ s (read_image-IsStep payload line s h.2) h
run_keyword-IsState at_workdir payload line s h = add_workdir-IsState payload line s h
run_keyword-IsState at_export payload line s h = declare_export-IsState payload line s h
run_keyword-IsState at_timeout payload line s h = set_timeout-IsState payload line s h
run_keyword-IsState at_name payload line s h =
    set_name-IsState payload line (flush s) (flush-IsState s h)
run_keyword-IsState at_only_if payload line s h =
    set_guard-IsState payload line (flush s) (flush-IsState s h)
