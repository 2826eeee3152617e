-- ===== src/Dsl/SshSpec.antt =====
-- crates/shellflow-dsl/src/ssh_spec.rs: `[user@]host[:port]`, read and written.
pub mod Accepts
pub mod Print
use shellflow.Base.{
  ℕ, Bool, true, false, not, ◌&&◌, ◌||◌, List, [], ◌∷◌, ◌++◌, Option, none, some, Text, ◌==◌,
  between, if◌then◌else◌, is_empty, any, all,
}
use shellflow.Base.Text.{
  codes, is_alnum, is_digit, contains, starts_with, strip_prefix, split_once, rsplit_once,
}
use shellflow.Base.Text.Decimal.{decimal, parse_u16}
use shellflow.Base.Result.{Result, ok, err}
use shellflow.Dsl.Error.{ParseError, invalid_ssh_spec}

pub record SshSpec : Type 0 where
  pub user : Option Text
  pub host : Text
  pub port : Option ℕ

-- `char::is_ascii_hexdigit`
abbrev pub is_hex : ℕ → Bool
is_hex c = is_digit c || between b'a' b'f' c || between b'A' b'F' c

abbrev pub is_address_byte : ℕ → Bool
is_address_byte c = is_hex c || c == b':' || c == b'.'

unfoldable pub is_ipv6_literal : Text → Bool
unfolding contains
is_ipv6_literal host = contains (codes ":") host && all is_address_byte host && any is_hex host

abbrev pub is_name_byte : ℕ → Bool
is_name_byte c = is_alnum c || c == b'.' || c == b'_' || c == b'-'

unfoldable pub is_valid_spec_component : Text → Bool
unfolding starts_with
is_valid_spec_component component =
    if is_empty component
    then false
    else if starts_with (codes ".") component || starts_with (codes "-") component
    then false
    else all is_name_byte component

unfoldable pub host_is_well_formed : Text → Bool
unfolding contains is_ipv6_literal is_valid_spec_component
host_is_well_formed host =
    if contains (codes ":") host then is_ipv6_literal host else is_valid_spec_component host

-- Every error of the parser, which knows no line.
abbrev pub invalid : {A : Type 0} → Text → Text → Result ParseError A
invalid spec reason = err (invalid_ssh_spec 0 spec reason)

unfoldable pub parse_port : Text → Text → Result ParseError ℕ
unfolding parse_u16
parse_port raw spec = elim (parse_u16 raw) [
  | none ↦ invalid spec (codes "invalid port `" ++ (raw ++ codes "`"))
  | some port ↦
      if port == 0 then invalid spec (codes "invalid port `0` (must be 1-65535)") else ok port
]

abbrev pub some_port : Text → Result ParseError ℕ → Result ParseError (Text × Option ℕ)
some_port host (ok port) = ok (host, some port)
some_port host (err e) = err e

-- What stands behind the `]`.
unfoldable pub parse_tail : Text → Text → Text → Result ParseError (Text × Option ℕ)
unfolding strip_prefix parse_port
parse_tail spec host tail =
    if is_empty tail then ok (host, none) else elim (strip_prefix (codes ":") tail) [
      | none ↦ invalid spec (codes "unexpected `" ++ (tail ++ codes "` after `]`"))
      | some raw ↦ some_port host (parse_port raw spec)
    ]

unfoldable pub parse_bracketed : Text → Text → Result ParseError (Text × Option ℕ)
unfolding split_once is_ipv6_literal parse_tail
parse_bracketed spec bracketed = elim (split_once (codes "]") bracketed) [
  | none ↦ invalid spec (codes "unclosed `[` in an IPv6 destination")
  | some (host, tail) ↦
      if is_empty host || not (is_ipv6_literal host)
      then invalid spec
          (codes "invalid IPv6 address `" ++ (host ++ codes "` (allowed: hex digits, `:`, `.`)"))
      else parse_tail spec host tail
]

unfoldable pub parse_plain : Text → Text → Result ParseError (Text × Option ℕ)
unfolding rsplit_once contains parse_port
parse_plain spec rest = elim (rsplit_once b':' rest) [
  | none ↦ ok (rest, none)
  | some (host, port) ↦
      if contains (codes ":") host
      then invalid spec (
          codes "bare IPv6 address `"
          ++ (rest ++ (codes "` is ambiguous (use `[" ++ (rest ++ codes "]` or `[addr]:port`)"))))
      else some_port host (parse_port port spec)
]

unfoldable pub parse_host_port : Text → Text → Result ParseError (Text × Option ℕ)
unfolding strip_prefix parse_bracketed parse_plain
parse_host_port spec rest = elim (strip_prefix (codes "[") rest) [
  | some bracketed ↦ parse_bracketed spec bracketed
  | none ↦ parse_plain spec rest
]

-- The checks on the host behind both forms.
unfoldable pub parse_rest : Text → Option Text → Text → Result ParseError SshSpec
unfolding parse_host_port host_is_well_formed
parse_rest spec user rest = elim (parse_host_port spec rest) [
  | err e ↦ err e
  | ok (host, port) ↦
      if is_empty host
      then invalid spec (codes "empty host")
      else if not (host_is_well_formed host)
      then invalid spec
          (codes "invalid host `" ++ (host ++ codes "` (allowed: letters, digits, `.`, `_`, `-`)"))
      else ok (record { user = user; host = host; port = port })
]

unfoldable pub parse : Text → Result ParseError SshSpec
unfolding split_once is_valid_spec_component parse_rest
parse spec = elim (split_once (codes "@") spec) [
  | none ↦ parse_rest spec none spec
  | some (user, rest) ↦
      if is_empty user
      then invalid spec (codes "empty user before `@`")
      else if not (is_valid_spec_component user)
      then invalid spec
          (codes "invalid user `" ++ (user ++ codes "` (allowed: letters, digits, `.`, `_`, `-`)"))
      else parse_rest spec (some user) rest
]

unfoldable pub bracket : Text → Text
unfolding contains
bracket host = if contains (codes ":") host then b'[' ∷ (host ++ codes "]") else host

unfoldable pub dest : SshSpec → Text
unfolding bracket
dest spec = elim spec.user [
  | some user ↦ user ++ (b'@' ∷ bracket spec.host)
  | none ↦ bracket spec.host
]

unfoldable pub to_ssh_args : SshSpec → List Text
unfolding dest decimal
to_ssh_args spec = elim spec.port [
  | some port ↦ codes "-p" ∷ decimal port ∷ dest spec ∷ []
  | none ↦ dest spec ∷ []
]
