-- ===== src/Dsl/Valid/Checks.antt =====
-- The assertions on units, ports and rendered files.
use shellflow.Base.{ℕ, Bool, false, List, [], ◌∷◌, none, Text, All, All-append}
use shellflow.Base.Text.{codes, eq_text}
use shellflow.Base.Text.Decimal.{parse_u16, parse_u16_bound}
use shellflow.Base.Result.{Result}
use shellflow.Base.Yields.{
  Yields, Yields-ok, Yields-either, Yields-then, Yields-bind, Yields-try_fold, Yields-ensure,
}
use shellflow.Dsl.Error.{ParseError}
use shellflow.Dsl.Step.{Assertion}
use shellflow.Dsl.Parser.Words.{split_words}
use shellflow.Dsl.Parser.Flags.{comma_list}
use shellflow.Dsl.Parser.Conditions.{
  read_assert, read_assert_enabled, add_port, add_ports, port_word, read_assert_port,
  read_assert_port_free, read_assert_rendered,
}
use shellflow.Dsl.Parser.State.{State}
use shellflow.Dsl.Valid.{IsCheck, IsPositive}
use shellflow.Dsl.Valid.Values.{positive-IsPositive, safe_unit-IsUnit, not_empty, target_or_keeps}

-- What a directive reads: an assertion with its target.
abbrev pub ReadsCheck : Result ParseError (Text × Assertion) → Type 0
ReadsCheck = Yields (λ found. IsCheck found.1)

pub read_assert-IsCheck :
    (payload : Text) (line : ℕ) (s : State) → ReadsCheck (read_assert payload line s)
unfolding read_assert
read_assert-IsCheck payload line s = Yields-then _ (λ (named, words). Yields-then _ (λ raw.
    Yields-bind (safe_unit-IsUnit _ line raw)
      (λ unit u. Yields-then _ (λ state. Yields-then _ (λ target. Yields-ok _ u)))))

pub read_assert_enabled-IsCheck :
    (payload : Text) (line : ℕ) (s : State) → ReadsCheck (read_assert_enabled payload line s)
unfolding read_assert_enabled
read_assert_enabled-IsCheck payload line s = Yields-then _ (λ (named, words). Yields-then _ (λ raw.
    Yields-then _ (λ word. Yields-then _ (λ state.
      Yields-bind (safe_unit-IsUnit _ line raw)
        (λ unit u. Yields-then _ (λ target. Yields-ok _ u))))))

abbrev AllPorts : List ℕ → Type 0
AllPorts = All (IsPositive 65535)

add_port-IsPositive :
    (directive : Text) (line : ℕ) (ports : List ℕ) (part : Text)
    → AllPorts ports
    → Yields AllPorts (add_port directive line ports part)
unfolding add_port
add_port-IsPositive directive line ports part h =
    Yields-bind (positive-IsPositive 65535 _ _ (parse_u16 part) (parse_u16_bound part))
      (λ number p. Yields-ok _ (All-append (IsPositive 65535) ports (number ∷ []) h (p, tt)))

add_ports-IsPositive :
    (directive : Text) (line : ℕ) (ports : List ℕ) (token : Text)
    → AllPorts ports
    → Yields AllPorts (add_ports directive line ports token)
unfolding add_ports
add_ports-IsPositive directive line ports token h =
    Yields-try_fold _ _ (comma_list token) (add_port-IsPositive directive line) h

port_word-IsPositive :
    (line : ℕ) (found : Bool × List ℕ) (token : Text)
    → AllPorts found.1
    → Yields (λ found. AllPorts found.1) (port_word line found token)
unfolding port_word
port_word-IsPositive line (udp, ports) token h =
    Yields-either (eq_text token (codes "--udp")) (Yields-ok _ h) (
      Yields-bind (add_ports-IsPositive (codes "assert_port") line ports token h)
        (λ ports' p. Yields-ok _ p))

pub read_assert_port-IsCheck :
    (payload : Text) (line : ℕ) (s : State) → ReadsCheck (read_assert_port payload line s)
unfolding read_assert_port
read_assert_port-IsCheck payload line s =
    Yields-bind
      (target_or_keeps (codes "assert_port") line (port_word line) (split_words payload)
        (port_word-IsPositive line) (none, (false, [])) tt)
      (λ (named, (udp, ports)) h.
        Yields-bind (Yields-ensure _ _)
          (λ _ f. Yields-then _ (λ target. Yields-ok _ (not_empty ports f, h))))

pub read_assert_port_free-IsCheck :
    (payload : Text) (line : ℕ) (s : State) → ReadsCheck (read_assert_port_free payload line s)
unfolding read_assert_port_free
read_assert_port_free-IsCheck payload line s =
    Yields-bind
      (target_or_keeps (codes "assert_port_free") line (add_ports (codes "assert_port_free") line)
        (split_words payload) (add_ports-IsPositive (codes "assert_port_free") line) (none, []) tt)
      (λ (named, ports) h.
        Yields-bind (Yields-ensure _ _)
          (λ _ f. Yields-then _ (λ target. Yields-ok _ (not_empty ports f, h))))

pub read_assert_rendered-IsCheck :
    (payload : Text) (line : ℕ) (s : State) → ReadsCheck (read_assert_rendered payload line s)
unfolding read_assert_rendered
read_assert_rendered-IsCheck payload line s = Yields-then _ (λ (named, found).
    Yields-then _
      (λ path. Yields-bind (Yields-ensure _ _) (λ _ a. Yields-then _ (λ target. Yields-ok _ a))))
