-- ===== src/Dsl/Error.antt =====
-- crates/shellflow-dsl/src/error.rs: the errors of parsing, resolving and interpolating.
use shellflow.Base.{ℕ, Text}

pub data ParseError : Type 0 where
  invalid_ssh_spec : ℕ → Text → Text → ParseError
  duplicate_server : ℕ → Text → ParseError
  unknown_group_member : ℕ → Text → Text → ParseError
  invalid_directive : ℕ → Text → Text → ParseError
  unknown_directive : ℕ → Text → ParseError
  export_not_after_local : ℕ → ParseError
  unterminated_heredoc : ℕ → Text → ParseError
  empty_target : Text → ParseError

pub data InterpolateError : Type 0 where
  unresolved : Text → Text → InterpolateError
