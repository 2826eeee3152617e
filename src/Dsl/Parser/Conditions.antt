-- ===== src/Dsl/Parser/Conditions.antt =====
-- crates/shellflow-dsl/src/parser.rs: the assertions on units, ports and rendered files.
use shellflow.Base.{
  ℕ, Bool, true, false, not, List, [], ◌∷◌, ◌++◌, Option, none, some, Text, if◌then◌else◌, is_empty,
  is_some,
}
use shellflow.Base.Text.{codes, eq_text}
use shellflow.Base.Text.Decimal.{parse_u16}
use shellflow.Base.Result.{Result, ok, err, ◌>>=◌, ◌>>◌, ok_or, ensure, try_fold}
use shellflow.Shell.{strip_surrounding_quotes}
use shellflow.Dsl.Error.{ParseError, invalid_directive}
use shellflow.Dsl.States.{
  ActiveState, active, parse_active, parse_enabled, active_legal, enabled_legal,
}
use shellflow.Dsl.Step.{Assertion, unit_state, enabled, port, port_free, rendered}
use shellflow.Dsl.Parser.Words.{split_words}
use shellflow.Dsl.Parser.Flags.{ticked, comma_list, is_absolute, positive}
use shellflow.Dsl.Parser.Checks.{add_check}
use shellflow.Dsl.Parser.Inherit.{resolve_assert_target, target_or}
use shellflow.Dsl.Parser.State.{State}
use shellflow.Dsl.Parser.Units.{safe_unit}

-- The first and the second word of `@assert` and `@assert_enabled`; a third is an error.
unfoldable pub two_words :
    ParseError → Option Text × Option Text → Text → Result ParseError (Option Text × Option Text)
two_words usage (none, state) token = ok (some token, state)
two_words usage (some unit, none) token = ok (some unit, some token)
two_words usage (some unit, some state) token = err usage

abbrev bad_state : Text → ℕ → Text → Text → ParseError
bad_state directive line raw legal =
    invalid_directive line directive
      (ticked (codes "invalid state ") raw (codes " (expected " ++ legal ++ codes ")"))

unfoldable pub active_or_default : ℕ → Option Text → Result ParseError ActiveState
unfolding parse_active
active_or_default line none = ok active
active_or_default line (some raw) =
    ok_or (bad_state (codes "assert") line raw active_legal) (parse_active raw)

unfoldable pub read_assert : Text → ℕ → State → Result ParseError (Text × Assertion)
unfolding split_words try_fold target_or two_words safe_unit active_or_default resolve_assert_target
read_assert payload line s = do
  (named, words) ←
      try_fold
        (target_or (codes "assert") line (
          two_words (
            invalid_directive line (codes "assert")
              (ticked (codes "expected ") (codes "<unit> [@<target>] [<state>]") []))))
        (none, (none, none)) (split_words payload)
  raw ← ok_or (invalid_directive line (codes "assert") (codes "missing unit name")) words.0
  unit ← safe_unit (codes "assert") line raw
  state ← active_or_default line words.1
  target ← resolve_assert_target named (codes "assert") line s
  ok (target, unit_state unit state)

unfoldable pub add_assert : Text → ℕ → State → Result ParseError State
unfolding read_assert add_check
add_assert payload line s = add_check (codes "assert") line (read_assert payload line s) s

-- The unit is completed where it is read, and its name is tested behind the state.
unfoldable pub read_assert_enabled : Text → ℕ → State → Result ParseError (Text × Assertion)
unfolding split_words try_fold target_or two_words parse_enabled safe_unit resolve_assert_target
read_assert_enabled payload line s = do
  (named, words) ←
      try_fold
        (target_or (codes "assert_enabled") line (
          two_words (
            invalid_directive line (codes "assert_enabled")
              (ticked (codes "expected ") (codes "<unit> <state> [@<target>]") []))))
        (none, (none, none)) (split_words payload)
  raw ← ok_or (invalid_directive line (codes "assert_enabled") (codes "missing unit")) words.0
  word ←
      ok_or
        (invalid_directive line (codes "assert_enabled")
          (codes "missing state (expected enabled, disabled, static, or masked)"))
        words.1
  state ← ok_or (bad_state (codes "assert_enabled") line word enabled_legal) (parse_enabled word)
  unit ← safe_unit (codes "assert_enabled") line raw
  target ← resolve_assert_target named (codes "assert_enabled") line s
  ok (target, enabled unit state)

unfoldable pub add_assert_enabled : Text → ℕ → State → Result ParseError State
unfolding read_assert_enabled add_check
add_assert_enabled payload line s =
    add_check (codes "assert_enabled") line (read_assert_enabled payload line s) s

unfoldable pub add_port : Text → ℕ → List ℕ → Text → Result ParseError (List ℕ)
unfolding parse_u16
add_port directive line ports part = do
  number ←
      positive (invalid_directive line directive (ticked (codes "invalid port ") part []))
        (invalid_directive line directive (codes "port 0 is not a listening port")) (parse_u16 part)
  ok (ports ++ number ∷ [])

-- The loop over the parts of one token.
unfoldable pub add_ports : Text → ℕ → List ℕ → Text → Result ParseError (List ℕ)
unfolding try_fold add_port comma_list
add_ports directive line ports token = try_fold (add_port directive line) ports (comma_list token)

unfoldable pub port_word : ℕ → Bool × List ℕ → Text → Result ParseError (Bool × List ℕ)
unfolding eq_text add_ports
port_word line (udp, ports) token =
    if eq_text token (codes "--udp")
    then ok (true, ports)
    else add_ports (codes "assert_port") line ports token >>= (λ ports'. ok (udp, ports'))

unfoldable pub read_assert_port : Text → ℕ → State → Result ParseError (Text × Assertion)
unfolding split_words try_fold target_or port_word resolve_assert_target
read_assert_port payload line s = do
  (named, found) ←
      try_fold (target_or (codes "assert_port") line (port_word line)) (none, (false, []))
        (split_words payload)
  ensure (not (is_empty found.1))
      (invalid_directive line (codes "assert_port") (codes "missing port"))
  target ← resolve_assert_target named (codes "assert_port") line s
  ok (target, port found.1 found.0)

unfoldable pub add_assert_port : Text → ℕ → State → Result ParseError State
unfolding read_assert_port add_check
add_assert_port payload line s =
    add_check (codes "assert_port") line (read_assert_port payload line s) s

unfoldable pub read_assert_port_free : Text → ℕ → State → Result ParseError (Text × Assertion)
unfolding split_words try_fold target_or add_ports resolve_assert_target
read_assert_port_free payload line s = do
  (named, ports) ←
      try_fold
        (target_or (codes "assert_port_free") line (add_ports (codes "assert_port_free") line))
        (none, []) (split_words payload)
  ensure (not (is_empty ports))
      (invalid_directive line (codes "assert_port_free") (codes "missing port"))
  target ← resolve_assert_target named (codes "assert_port_free") line s
  ok (target, port_free ports)

unfoldable pub add_assert_port_free : Text → ℕ → State → Result ParseError State
unfolding read_assert_port_free add_check
add_assert_port_free payload line s =
    add_check (codes "assert_port_free") line (read_assert_port_free payload line s) s

abbrev one_path : ℕ → Option Text → Text → Result ParseError (Option Text)
one_path line path token = do
  ensure (not (is_some path)) (
      invalid_directive line (codes "assert_rendered")
        (ticked (codes "expected ") (codes "<path> [@<target>]") []))
  ok (some (strip_surrounding_quotes token))

unfoldable pub read_assert_rendered : Text → ℕ → State → Result ParseError (Text × Assertion)
unfolding split_words try_fold target_or strip_surrounding_quotes resolve_assert_target
read_assert_rendered payload line s = do
  (named, found) ←
      try_fold (target_or (codes "assert_rendered") line (one_path line)) (none, none)
        (split_words payload)
  path ← ok_or (invalid_directive line (codes "assert_rendered") (codes "missing path")) found
  ensure (is_absolute path) (
      invalid_directive line (codes "assert_rendered")
        (codes "the path must be absolute (got " ++ ticked [] path (codes ")")))
  target ← resolve_assert_target named (codes "assert_rendered") line s
  ok (target, rendered path)

unfoldable pub add_assert_rendered : Text → ℕ → State → Result ParseError State
unfolding read_assert_rendered add_check
add_assert_rendered payload line s =
    add_check (codes "assert_rendered") line (read_assert_rendered payload line s) s
