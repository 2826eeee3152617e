-- ===== src/Dsl/Parser/Probes.antt =====
-- crates/shellflow-dsl/src/parser.rs: the assertions on a journal, a digest and a credential store.
use shellflow.Base.{
  ℕ, ◌&&◌, List, [], ◌∷◌, ◌++◌, Option, none, some, Text, ◌==◌, if◌then◌else◌, all, length, map,
}
use shellflow.Base.Text.{codes, eq_text, starts_with, trim}
use shellflow.Base.Text.Number.{parse_uint, max_u64}
use shellflow.Base.Result.{Result, ok, err, ◌>>=◌, ◌>>◌, ok_or, ensure, try_fold}
use shellflow.Core.Mask.{to_lower}
use shellflow.Dsl.Error.{ParseError, invalid_directive}
use shellflow.Dsl.SshSpec.{is_hex}
use shellflow.Dsl.Step.{Assertion, no_leak, digest, credstore}
use shellflow.Dsl.Parser.Flags.{
  Flag, ticked, split_flags, flag_value, unknown_flag, is_absolute, positive,
}
use shellflow.Dsl.Parser.Checks.{add_check}
use shellflow.Dsl.Parser.Inherit.{resolve_assert_target, first_target}
use shellflow.Dsl.Parser.State.{State}
use shellflow.Dsl.Parser.Store.{service_name}
use shellflow.Dsl.Parser.Units.{safe_unit}

-- The first positional argument, and the target behind it.
abbrev first_word : List Text → Option (Text × List Text)
first_word [] = none
first_word (word ∷ words) = some (word, words)

unfoldable pub lines_flag : ℕ → Option ℕ → Flag → Result ParseError (Option ℕ)
unfolding eq_text flag_value parse_uint unknown_flag
lines_flag line count (flag, value) = do
  ensure (eq_text flag (codes "--lines")) (unknown_flag (codes "assert_no_leak") flag line)
  raw ← flag_value value flag (codes "assert_no_leak") line
  parsed ←
      positive
        (invalid_directive line (codes "assert_no_leak")
          (ticked (codes "invalid line count ") raw []))
        (invalid_directive line (codes "assert_no_leak")
          (ticked [] (codes "--lines") (codes " must be greater than zero")))
        (parse_uint max_u64 raw)
  ok (some parsed)

unfoldable pub read_assert_no_leak : Text → ℕ → State → Result ParseError (Text × Assertion)
unfolding split_flags try_fold lines_flag safe_unit first_target resolve_assert_target
read_assert_no_leak payload line s = do
  (positional, flags) ← split_flags payload [] (codes "assert_no_leak") line
  count ← try_fold (lines_flag line) none flags
  (raw, rest) ←
      ok_or (invalid_directive line (codes "assert_no_leak") (codes "missing unit name"))
        (first_word positional)
  unit ← safe_unit (codes "assert_no_leak") line raw
  target ← resolve_assert_target (first_target rest) (codes "assert_no_leak") line s
  ok (target, no_leak unit count)

unfoldable pub add_assert_no_leak : Text → ℕ → State → Result ParseError State
unfolding read_assert_no_leak add_check
add_assert_no_leak payload line s =
    add_check (codes "assert_no_leak") line (read_assert_no_leak payload line s) s

unfoldable pub sha256_value : ℕ → Text → Result ParseError Text
unfolding trim to_lower
sha256_value line raw =
    let hex = map to_lower (trim raw) in
    if length hex == 64 && all is_hex hex
    then ok hex
    else err (
        invalid_directive line (codes "assert_digest") (
          ticked [] (codes "--sha256")
            (codes " wants 64 hex characters (got " ++ ticked [] raw (codes ")"))))

-- `sha256` and `local`
unfoldable pub digest_flag :
    ℕ → Option Text × Option Text → Flag → Result ParseError (Option Text × Option Text)
unfolding eq_text flag_value sha256_value unknown_flag
digest_flag line (sha256, file) (flag, value) =
    if eq_text flag (codes "--sha256")
    then flag_value value flag (codes "assert_digest") line
      >>= (λ raw. sha256_value line raw >>= λ hex. ok (some hex, file))
    else if eq_text flag (codes "--local")
    then flag_value value flag (codes "assert_digest") line >>= (λ raw. ok (sha256, some raw))
    else err (unknown_flag (codes "assert_digest") flag line)

unfoldable pub read_assert_digest : Text → ℕ → State → Result ParseError (Text × Assertion)
unfolding split_flags try_fold digest_flag trim starts_with first_target resolve_assert_target
read_assert_digest payload line s = do
  (positional, flags) ← split_flags payload [] (codes "assert_digest") line
  (sha256, file) ← try_fold (digest_flag line) (none, none) flags
  (raw, rest) ←
      ok_or (invalid_directive line (codes "assert_digest") (codes "missing path"))
        (first_word positional)
  ensure (is_absolute (trim raw)) (
      invalid_directive line (codes "assert_digest")
        (codes "the path must be absolute (got " ++ ticked [] (trim raw) (codes ")")))
  target ← resolve_assert_target (first_target rest) (codes "assert_digest") line s
  ok (target, digest (trim raw) sha256 file)

unfoldable pub add_assert_digest : Text → ℕ → State → Result ParseError State
unfolding read_assert_digest add_check
add_assert_digest payload line s =
    add_check (codes "assert_digest") line (read_assert_digest payload line s) s

-- The flags are read and left aside.
unfoldable pub read_assert_credstore : Text → ℕ → State → Result ParseError (Text × Assertion)
unfolding split_flags trim service_name first_target resolve_assert_target
read_assert_credstore payload line s = do
  (positional, flags) ← split_flags payload [] (codes "assert_credstore") line
  (raw, rest) ←
      ok_or (invalid_directive line (codes "assert_credstore") (codes "missing service name"))
        (first_word positional)
  service ← service_name (codes "assert_credstore") line (trim raw)
  target ← resolve_assert_target (first_target rest) (codes "assert_credstore") line s
  ok (target, credstore service)

unfoldable pub add_assert_credstore : Text → ℕ → State → Result ParseError State
unfolding read_assert_credstore add_check
add_assert_credstore payload line s =
    add_check (codes "assert_credstore") line (read_assert_credstore payload line s) s
