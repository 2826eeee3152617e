-- ===== src/Dsl/Parser/Health.antt =====
-- crates/shellflow-dsl/src/parser.rs: `@assert_health`.
use shellflow.Base.{
  ℕ, ◌-◌, Bool, false, not, ◌&&◌, ◌||◌, List, [], ◌∷◌, ◌++◌, Option, none, some, Text, ◌==◌, ltb,
  between, if◌then◌else◌, is_some, all, map,
}
use shellflow.Base.Text.{
  codes, eq_text, starts_with, contains, strip_prefix, trim, white_len, is_alpha,
}
use shellflow.Base.Text.Lines.{split_byte}
use shellflow.Base.Result.{Result, ok, err, ◌>>=◌, ◌>>◌, ok_or, ensure, try_fold}
use shellflow.Shell.{strip_surrounding_quotes}
use shellflow.Dsl.Error.{ParseError, invalid_directive}
use shellflow.Dsl.Step.{Assertion, health}
use shellflow.Dsl.Parser.Words.{split_words}
use shellflow.Dsl.Parser.Flags.{ticked, unknown_flag, is_status_pattern, take_target}
use shellflow.Dsl.Parser.Checks.{add_check}
use shellflow.Dsl.Parser.Inherit.{resolve_assert_target}
use shellflow.Dsl.Parser.State.{State}

pub record HealthArgs : Type 0 where
  pub url : Option Text
  pub target : Option Text
  pub expect : List Text
  pub method : Option Text
  pub body : Option Text
  pub headers : List Text

abbrev no_health : HealthArgs
no_health = record {
  url = none;
  target = none;
  expect = [];
  method = none;
  body = none;
  headers = [];
}

-- The flags of `@assert_health`, each with the value that it waits for.
pub data HealthFlag : Type 0 where
  expect_flag : HealthFlag
  method_flag : HealthFlag
  body_flag : HealthFlag
  header_flag : HealthFlag

unfoldable pub health_flag : Text → Option HealthFlag
unfolding eq_text
health_flag token =
    if eq_text token (codes "--expect")
    then some expect_flag
    else if eq_text token (codes "--method")
    then some method_flag
    else if eq_text token (codes "--body")
    then some body_flag
    else if eq_text token (codes "--header")
    then some header_flag
    else none

abbrev bad_health : ℕ → Text → ParseError
bad_health line reason = invalid_directive line (codes "assert_health") reason

abbrev needs_value : ℕ → HealthFlag → ParseError
needs_value line expect_flag =
    bad_health line (ticked [] (codes "--expect") (codes " requires a list of status codes"))
needs_value line method_flag =
    bad_health line (ticked [] (codes "--method") (codes " requires an HTTP method"))
needs_value line body_flag =
    bad_health line (ticked [] (codes "--body") (codes " requires a request body"))
needs_value line header_flag = bad_health line (
    ticked [] (codes "--header")
      (ticked (codes " requires a ") (codes "Name: value") (codes " pair")))

-- `u8::to_ascii_uppercase`
unfoldable pub to_upper : ℕ → ℕ
to_upper c = if between b'a' b'z' c then c - 32 else c

unfoldable pub add_code : ℕ → List Text → Text → Result ParseError (List Text)
unfolding trim is_status_pattern
add_code line expect code = do
  ensure (is_status_pattern (trim code))
      (bad_health line (ticked (codes "invalid status code ") (trim code) []))
  ok (expect ++ trim code ∷ [])

unfoldable pub health_value : ℕ → HealthFlag → Text → HealthArgs → Result ParseError HealthArgs
unfolding try_fold add_code split_byte to_upper contains strip_surrounding_quotes
health_value line expect_flag raw args = do
  expect ← try_fold (add_code line) args.expect (split_byte b',' raw)
  ok (record args { expect = expect })
health_value line method_flag raw args = do
  ensure (all is_alpha (map to_upper raw))
      (bad_health line (ticked (codes "invalid HTTP method ") (map to_upper raw) []))
  ok (record args { method = some (map to_upper raw) })
health_value line body_flag raw args =
    ok (record args { body = some (strip_surrounding_quotes raw) })
health_value line header_flag raw args = do
  ensure (contains (codes ":") raw) (
      bad_health line (
        ticked (codes "invalid header ") raw
          (ticked (codes " (want ") (codes "Name:value") (codes ")"))))
  ok (record args { headers = args.headers ++ strip_surrounding_quotes raw ∷ [] })

-- A token that is no flag: the target, or the URL.
unfoldable pub health_word : ℕ → Text → HealthArgs → Result ParseError HealthArgs
unfolding strip_prefix take_target strip_surrounding_quotes
health_word line token args = elim (strip_prefix (codes "@") token) [
  | some alias ↦ take_target (codes "assert_health") line args.target alias >>= λ target.
      ok (record args { target = target })
  | none ↦
      ensure (not (is_some args.url)) (
        bad_health line
          (ticked (codes "expected ") (codes "<url> [@<target>] [--expect CODES]") []))
      >> ok (record args { url = some (strip_surrounding_quotes token) })
]

-- The loop over the tokens, with the flag that waits for its value.
unfoldable pub health_tokens :
    ℕ → Option HealthFlag → HealthArgs → List Text → Result ParseError HealthArgs
unfolding health_flag health_value health_word starts_with unknown_flag
health_tokens line none args [] = ok args
health_tokens line (some flag) args [] = err (needs_value line flag)
health_tokens line (some flag) args (token ∷ tokens) =
    health_value line flag token args >>= λ args'. health_tokens line none args' tokens
health_tokens line none args (token ∷ tokens) = elim (health_flag token) [
  | some flag ↦ health_tokens line (some flag) args tokens
  | none ↦
      (if starts_with (codes "--") token
        then err (unknown_flag (codes "assert_health") token line)
        else health_word line token args)
      >>= λ args'. health_tokens line none args' tokens
]

-- `is_control` of the character at the head.
abbrev starts_control : Text → Bool
starts_control [] = false
starts_control (c ∷ []) = ltb c 32 || c == 127
starts_control (c ∷ d ∷ _) = ltb c 32 || c == 127 || c == 0xC2 && between 0x80 0x9F d

unfoldable pub has_white_or_control : Text → Bool
unfolding white_len
has_white_or_control [] = false
has_white_or_control (c ∷ s) =
    ltb 0 (white_len (c ∷ s)) || starts_control (c ∷ s) || has_white_or_control s

unfoldable pub read_assert_health : Text → ℕ → State → Result ParseError (Text × Assertion)
unfolding split_words health_tokens starts_with has_white_or_control resolve_assert_target
read_assert_health payload line s = do
  args ← health_tokens line none no_health (split_words payload)
  url ← ok_or (bad_health line (codes "missing URL")) args.url
  ensure (starts_with (codes "http://") url || starts_with (codes "https://") url) (
      bad_health line
        (codes "only http and https URLs can be probed (got " ++ ticked [] url (codes ")")))
  ensure (not (has_white_or_control url))
      (bad_health line (codes "the URL must not contain whitespace"))
  target ← resolve_assert_target args.target (codes "assert_health") line s
  ok (target, health url args.expect args.method args.body args.headers)

unfoldable pub add_assert_health : Text → ℕ → State → Result ParseError State
unfolding read_assert_health add_check
add_assert_health payload line s =
    add_check (codes "assert_health") line (read_assert_health payload line s) s
