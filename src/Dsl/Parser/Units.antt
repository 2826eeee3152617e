-- ===== src/Dsl/Parser/Units.antt =====
-- crates/shellflow-dsl/src/parser.rs: the directives that drive a unit: `@wait_active`, `@reload`
-- and `@service`.
use shellflow.Base.{
  ℕ, Bool, true, false, not, ◌&&◌, List, [], ◌∷◌, ◌++◌, Option, none, some, Text, if◌then◌else◌,
  is_empty, all,
}
use shellflow.Base.Text.{codes, eq_text}
use shellflow.Base.Result.{Result, ok, err, ◌>>=◌, ok_or, try_fold}
use shellflow.Shell.{is_valid_unit_name, normalize_unit, is_word}
use shellflow.Dsl.Error.{ParseError, invalid_directive}
use shellflow.Dsl.Target.{target_at}
use shellflow.Dsl.Step.{Step, wait_step, reload_step, service_step}
use shellflow.Dsl.Parser.Flags.{
  Flag, ticked, split_flags, flag_value, unknown_flag, require_target, parse_secs, exactly_two,
}
use shellflow.Dsl.Parser.State.{State, add_step}

-- The name of a unit file, or the error that names it.
unfoldable pub safe_unit : Text → ℕ → Text → Result ParseError Text
unfolding normalize_unit is_valid_unit_name
safe_unit directive line raw =
    if is_valid_unit_name (normalize_unit raw)
    then ok (normalize_unit raw)
    else err (
        invalid_directive line directive
          (ticked (codes "unsafe unit name ") (normalize_unit raw) []))

-- `<unit> @<target>`: both of the positional arguments.
unfoldable pub unit_and_target : Text → Text → ℕ → List Text → Result ParseError (Text × Text)
unfolding safe_unit require_target
unit_and_target directive usage line positional = do
  (raw_unit, raw_target) ←
      ok_or (invalid_directive line directive (ticked (codes "expected ") usage []))
        (exactly_two positional)
  unit ← safe_unit directive line raw_unit
  target ← require_target raw_target directive line
  ok (unit, target)

-- The value of `--timeout`.
unfoldable pub timeout_value : Text → ℕ → Flag → Result ParseError ℕ
unfolding flag_value parse_secs
timeout_value directive line (flag, value) = do
  raw ← flag_value value flag directive line
  parse_secs raw directive line

unfoldable pub wait_flag : ℕ → Option ℕ → Flag → Result ParseError (Option ℕ)
unfolding eq_text timeout_value unknown_flag
wait_flag line timeout (flag, value) =
    if eq_text flag (codes "--timeout")
    then timeout_value (codes "wait_active") line (flag, value) >>= (λ secs. ok (some secs))
    else err (unknown_flag (codes "wait_active") flag line)

unfoldable pub read_wait : Text → ℕ → State → Result ParseError (Text × Step)
unfolding split_flags try_fold wait_flag unit_and_target target_at
read_wait payload line s = do
  (positional, flags) ← split_flags payload [] (codes "wait_active") line
  timeout ← try_fold (wait_flag line) s.pending_timeout flags
  (unit, target) ←
      unit_and_target (codes "wait_active") (codes "<unit> @<target> [--timeout SECS]") line
        positional
  ok (
    target,
    wait_step (record {
      name = s.pending_name;
      target = target_at target line;
      unit = unit;
      timeout = timeout;
      interval_secs = 5;
    }),
  )

unfoldable pub add_wait : Text → ℕ → State → Result ParseError State
unfolding read_wait add_step
add_wait payload line s = add_step (codes "wait_active") line (read_wait payload line s) s

pub record ReloadFlags : Type 0 where
  pub signal : Option Text
  pub wait : Bool
  pub timeout : Option ℕ

unfoldable pub signal_name : ℕ → Text → Result ParseError Text
signal_name line sig =
    if not (is_empty sig) && all is_word sig
    then ok sig
    else err (
        invalid_directive line (codes "reload")
          (ticked (codes "invalid signal ") sig (codes " (want e.g. SIGUSR1)")))

unfoldable pub reload_flag : ℕ → ReloadFlags → Flag → Result ParseError ReloadFlags
unfolding eq_text flag_value timeout_value signal_name unknown_flag
reload_flag line opts (flag, value) =
    if eq_text flag (codes "--wait")
    then ok (record opts { wait = true })
    else if eq_text flag (codes "--timeout")
    then timeout_value (codes "reload") line (flag, value)
      >>= (λ secs. ok (record opts { timeout = some secs }))
    else if eq_text flag (codes "--signal")
    then flag_value value flag (codes "reload") line
      >>= (λ raw. signal_name line raw >>= λ sig. ok (record opts { signal = some sig }))
    else err (unknown_flag (codes "reload") flag line)

unfoldable pub read_reload : Text → ℕ → State → Result ParseError (Text × Step)
unfolding split_flags try_fold reload_flag unit_and_target target_at
read_reload payload line s = do
  (positional, flags) ← split_flags payload (codes "--wait" ∷ []) (codes "reload") line
  opts ←
      try_fold (reload_flag line)
        (record { signal = none; wait = false; timeout = s.pending_timeout }) flags
  (unit, target) ←
      unit_and_target (codes "reload")
        (codes "<unit> @<target> [--signal SIG] [--wait] [--timeout SECS]") line positional
  ok (
    target,
    reload_step (record {
      name = s.pending_name;
      target = target_at target line;
      unit = unit;
      signal = opts.signal;
      wait = opts.wait;
      timeout = opts.timeout;
    }),
  )

unfoldable pub add_reload : Text → ℕ → State → Result ParseError State
unfolding read_reload add_step
add_reload payload line s = add_step (codes "reload") line (read_reload payload line s) s

pub record ServiceFlags : Type 0 where
  pub enable : Bool
  pub restart : Bool
  pub reload : Bool
  pub wait : Bool
  pub verify : Bool
  pub force_start : Bool
  pub timeout : Option ℕ

abbrev no_actions : Option ℕ → ServiceFlags
no_actions timeout = record {
  enable = false;
  restart = false;
  reload = false;
  wait = false;
  verify = false;
  force_start = false;
  timeout = timeout;
}

unfoldable pub service_flag : ℕ → ServiceFlags → Flag → Result ParseError ServiceFlags
unfolding eq_text timeout_value unknown_flag
service_flag line opts (flag, value) =
    if eq_text flag (codes "--enable")
    then ok (record opts { enable = true })
    else if eq_text flag (codes "--restart")
    then ok (record opts { restart = true })
    else if eq_text flag (codes "--reload")
    then ok (record opts { reload = true })
    else if eq_text flag (codes "--wait")
    then ok (record opts { wait = true })
    else if eq_text flag (codes "--verify")
    then ok (record opts { verify = true })
    else if eq_text flag (codes "--force-start")
    then ok (record opts { force_start = true })
    else if eq_text flag (codes "--timeout")
    then timeout_value (codes "service") line (flag, value)
      >>= (λ secs. ok (record opts { timeout = some secs }))
    else err (unknown_flag (codes "service") flag line)

-- The flags of `@service` that take no value.
abbrev service_switches : List Text
service_switches =
    codes "--enable"
    ∷ codes "--restart"
    ∷ codes "--reload"
    ∷ codes "--wait"
    ∷ codes "--verify"
    ∷ codes "--force-start"
    ∷ []

unfoldable pub read_service : Text → ℕ → State → Result ParseError (Text × Step)
unfolding split_flags try_fold service_flag unit_and_target target_at
read_service payload line s = do
  (positional, flags) ← split_flags payload service_switches (codes "service") line
  opts ← try_fold (service_flag line) (no_actions s.pending_timeout) flags
  (unit, target) ←
      unit_and_target (codes "service")
        (codes "<unit> @<target> [--enable] [--restart] [--reload] [--wait] "
          ++ codes "[--verify] [--force-start]")
        line positional
  ok (
    target,
    service_step (record {
      name = s.pending_name;
      target = target_at target line;
      unit = unit;
      enable = opts.enable;
      restart = opts.restart;
      reload = opts.reload;
      wait = opts.wait;
      verify = opts.verify;
      force_start = opts.force_start;
      timeout = opts.timeout;
    }),
  )

unfoldable pub add_service : Text → ℕ → State → Result ParseError State
unfolding read_service add_step
add_service payload line s = add_step (codes "service") line (read_service payload line s) s
