-- ===== src/Dsl/Valid/Probes.antt =====
-- The assertions on a URL, a journal, a digest and a credential store.
use shellflow.Base.{
  ℕ, true, List, [], ◌∷◌, Option, none, some, Text, ◌≡◌, All, All-append, Option-cases, inl, inr,
}
use shellflow.Base.Text.{codes, starts_with, strip_prefix, trim}
use shellflow.Base.Text.Lines.{split_byte}
use shellflow.Base.Text.Number.{parse_uint, parse_uint_bound, max_u64}
use shellflow.Base.Yields.{
  Yields, Yields-ok, Yields-err, Yields-either, Yields-then, Yields-bind, Yields-try_fold,
  Yields-ensure,
}
use shellflow.Dsl.Parser.Words.{split_words}
use shellflow.Dsl.Parser.Flags.{Flag, is_status_pattern}
use shellflow.Dsl.Parser.Health.{
  HealthArgs, HealthFlag, expect_flag, method_flag, body_flag, header_flag, add_code, health_value,
  health_word, health_flag, health_tokens, read_assert_health,
}
use shellflow.Dsl.Parser.Probes.{
  lines_flag, read_assert_no_leak, read_assert_digest, read_assert_credstore,
}
use shellflow.Dsl.Parser.State.{State}
use shellflow.Dsl.Valid.{IsPositive, Optionally}
use shellflow.Dsl.Valid.Values.{positive-IsPositive, safe_unit-IsUnit, service_name-IsUnit}
use shellflow.Dsl.Valid.Checks.{ReadsCheck}

abbrev IsCode : Text → Type 0
IsCode code = is_status_pattern code ≡ true

abbrev IsHealth : HealthArgs → Type 0
IsHealth args = All IsCode args.expect

add_code-IsCode :
    (line : ℕ) (expect : List Text) (code : Text)
    → All IsCode expect
    → Yields (All IsCode) (add_code line expect code)
unfolding add_code
add_code-IsCode line expect code h =
    Yields-bind (Yields-ensure _ _)
      (λ _ e. Yields-ok _ (All-append IsCode expect (trim code ∷ []) h (e, tt)))

health_value-IsHealth :
    (line : ℕ) (flag : HealthFlag) (raw : Text) (args : HealthArgs)
    → IsHealth args
    → Yields IsHealth (health_value line flag raw args)
unfolding health_value
health_value-IsHealth line expect_flag raw args h =
    Yields-bind (Yields-try_fold _ _ (split_byte b',' raw) (add_code-IsCode line) h)
      (λ expect p. Yields-ok _ p)
health_value-IsHealth line method_flag raw args h = Yields-then _ (λ _. Yields-ok _ h)
health_value-IsHealth line body_flag raw args h = Yields-ok _ h
health_value-IsHealth line header_flag raw args h = Yields-then _ (λ _. Yields-ok _ h)

health_word-IsHealth :
    (line : ℕ) (token : Text) (args : HealthArgs)
    → IsHealth args
    → Yields IsHealth (health_word line token args)
unfolding health_word
health_word-IsHealth line token args h = elim (Option-cases (strip_prefix (codes "@") token)) [
  | inl e ↦ rw e (Yields-then _ (λ _. Yields-ok _ h))
  | inr (alias, e) ↦ rw e (Yields-then _ (λ target. Yields-ok _ h))
]

health_tokens-IsHealth :
    (line : ℕ) (pending : Option HealthFlag) (args : HealthArgs) (tokens : List Text)
    → IsHealth args
    → Yields IsHealth (health_tokens line pending args tokens)
unfolding health_tokens
health_tokens-IsHealth line none args [] h = Yields-ok _ h
health_tokens-IsHealth line (some flag) args [] h = Yields-err _
health_tokens-IsHealth line (some flag) args (token ∷ tokens) h =
    Yields-bind (health_value-IsHealth line flag token args h)
      (λ args' h'. health_tokens-IsHealth line none args' tokens h')
health_tokens-IsHealth line none args (token ∷ tokens) h = elim (Option-cases (health_flag token)) [
  | inr (flag, e) ↦ rw (e, health_tokens) (health_tokens-IsHealth line (some flag) args tokens h)
  | inl e ↦
      rw (e, health_tokens)
        (Yields-bind
          (Yields-either (starts_with (codes "--") token) (Yields-err _)
            (health_word-IsHealth line token args h))
          (λ args' h'. health_tokens-IsHealth line none args' tokens h'))
]

pub read_assert_health-IsCheck :
    (payload : Text) (line : ℕ) (s : State) → ReadsCheck (read_assert_health payload line s)
unfolding read_assert_health
read_assert_health-IsCheck payload line s =
    Yields-bind (health_tokens-IsHealth line none _ (split_words payload) tt) (λ args h.
      Yields-then _ (λ url.
        Yields-bind (Yields-ensure _ _)
          (λ _ u. Yields-then _ (λ _. Yields-then _ (λ target. Yields-ok _ (u, h))))))

lines_flag-IsPositive :
    (line : ℕ) (count : Option ℕ) (flag : Flag)
    → Optionally (IsPositive max_u64) count
    → Yields (Optionally (IsPositive max_u64)) (lines_flag line count flag)
unfolding lines_flag
lines_flag-IsPositive line count (flag, value) h = Yields-then _ (λ _. Yields-then _ (λ raw.
    Yields-bind
      (positive-IsPositive max_u64 _ _ (parse_uint max_u64 raw) (parse_uint_bound max_u64 raw))
      (λ parsed p. Yields-ok _ p)))

pub read_assert_no_leak-IsCheck :
    (payload : Text) (line : ℕ) (s : State) → ReadsCheck (read_assert_no_leak payload line s)
unfolding read_assert_no_leak
read_assert_no_leak-IsCheck payload line s = Yields-then _ (λ (positional, flags).
    Yields-bind (Yields-try_fold _ _ flags (lines_flag-IsPositive line) tt) (λ count c.
      Yields-then _ (λ (raw, rest).
        Yields-bind (safe_unit-IsUnit _ line raw)
          (λ unit u. Yields-then _ (λ target. Yields-ok _ (u, c))))))

pub read_assert_digest-IsCheck :
    (payload : Text) (line : ℕ) (s : State) → ReadsCheck (read_assert_digest payload line s)
unfolding read_assert_digest
read_assert_digest-IsCheck payload line s = Yields-then _ (λ (positional, flags).
    Yields-then _ (λ (sha256, file). Yields-then _ (λ (raw, rest).
      Yields-bind (Yields-ensure _ _) (λ _ a. Yields-then _ (λ target. Yields-ok _ a)))))

pub read_assert_credstore-IsCheck :
    (payload : Text) (line : ℕ) (s : State) → ReadsCheck (read_assert_credstore payload line s)
unfolding read_assert_credstore
read_assert_credstore-IsCheck payload line s = Yields-then _ (λ (positional, flags).
    Yields-then _ (λ (raw, rest).
      Yields-bind (service_name-IsUnit (codes "assert_credstore") line (trim raw))
        (λ service u. Yields-then _ (λ target. Yields-ok _ u))))
