-- ===== src/Dsl/Parser/Flags.antt =====
-- crates/shellflow-dsl/src/parser.rs: `split_flags` and the readers of single arguments.
use shellflow.Base.{
  ℕ, zero, suc, Bool, true, false, not, ◌&&◌, ◌||◌, List, [], ◌∷◌, ◌++◌, Option, none, some, Text,
  ◌==◌, leb, between, if◌then◌else◌, is_empty, is_some, all, any, length, map, keep,
}
use shellflow.Base.Text.{
  codes, eq_text, starts_with, ends_with, strip_prefix, split_once, trim, is_alnum, is_digit,
}
use shellflow.Base.Text.Lines.{split_byte}
use shellflow.Base.Text.Decimal.{parse_u16}
use shellflow.Base.Text.Number.{parse_uint, max_u64, max_u32, octal_value}
use shellflow.Base.Result.{Result, ok, err, ◌>>◌, ok_or, ensure}
use shellflow.Dsl.Error.{ParseError, invalid_directive}
use shellflow.Dsl.Target.{normalized}
use shellflow.Dsl.Parser.Words.{split_words}

abbrev pub Flag : Type 0
Flag = Text × Option Text

abbrev pub SplitPayload : Type 0
SplitPayload = List Text × List Flag

-- A name between backquotes, with the texts around it.
unfoldable pub ticked : Text → Text → Text → Text
ticked before name after = before ++ b'`' ∷ name ++ b'`' ∷ after

-- Whether the text is one of the list.
abbrev pub is_one_of : Text → List Text → Bool
is_one_of text list = any (eq_text text) list

abbrev add_word : Text → Result ParseError SplitPayload → Result ParseError SplitPayload
add_word word (ok (words, flags)) = ok (word ∷ words, flags)
add_word word (err e) = err e

abbrev add_flag : Flag → Result ParseError SplitPayload → Result ParseError SplitPayload
add_flag flag (ok (words, flags)) = ok (words, flag ∷ flags)
add_flag flag (err e) = err e

-- A flag that waits for its value, in front of the tokens that follow it.
abbrev close_flag : Option Text → Result ParseError SplitPayload → Result ParseError SplitPayload
close_flag none rest = rest
close_flag (some flag) rest = add_flag (flag, none) rest

-- The loop over the tokens. A flag that may take the next token as its value waits for it in
-- `pending`.
unfoldable pub split_tokens :
    List Text → Text → ℕ → Option Text → List Text → Result ParseError SplitPayload
unfolding eq_text starts_with split_once
split_tokens bools directive line pending [] = close_flag pending (ok ([], []))
split_tokens bools directive line pending (token ∷ tokens) = elim (starts_with (codes "--") token) [
  | false ↦ elim pending [
    | some flag ↦ add_flag (flag, some token) (split_tokens bools directive line none tokens)
    | none ↦ add_word token (split_tokens bools directive line none tokens)
  ]
  | true ↦ close_flag pending (elim (split_once (codes "=") token) [
    | some (flag, inline) ↦ elim (is_one_of flag bools) [
      | true ↦ err (invalid_directive line directive (ticked [] flag (codes " takes no value")))
      | false ↦ add_flag (flag, some inline) (split_tokens bools directive line none tokens)
    ]
    | none ↦ elim (is_one_of token bools) [
      | true ↦ add_flag (token, none) (split_tokens bools directive line none tokens)
      | false ↦ split_tokens bools directive line (some token) tokens
    ]
  ])
]

unfoldable pub split_flags : Text → List Text → Text → ℕ → Result ParseError SplitPayload
unfolding split_tokens split_words
split_flags payload bools directive line =
    split_tokens bools directive line none (split_words payload)

unfoldable pub flag_value : Option Text → Text → Text → ℕ → Result ParseError Text
flag_value value flag directive line =
    ok_or (invalid_directive line directive (ticked [] flag (codes " expects a value"))) value

unfoldable pub unknown_flag : Text → Text → ℕ → ParseError
unknown_flag directive flag line =
    invalid_directive line directive (ticked (codes "unknown flag ") flag [])

unfoldable pub require_target : Text → Text → ℕ → Result ParseError Text
unfolding normalized
require_target raw directive line =
    if is_empty (normalized raw)
    then err (invalid_directive line directive (codes "missing target"))
    else ok (normalized raw)

-- `parse`, where zero is refused with a message of its own.
unfoldable pub positive : ParseError → ParseError → Option ℕ → Result ParseError ℕ
positive invalid zero_error none = err invalid
positive invalid zero_error (some zero) = err zero_error
positive invalid zero_error (some (suc n)) = ok (suc n)

unfoldable pub parse_secs : Text → Text → ℕ → Result ParseError ℕ
unfolding parse_uint
parse_secs raw directive line =
    positive (invalid_directive line directive (ticked (codes "invalid seconds ") raw []))
      (invalid_directive line directive (codes "must be greater than zero"))
      (parse_uint max_u64 raw)

-- `strip_prefix("0o").unwrap_or(trimmed)`
unfoldable pub mode_digits : Text → Text
unfolding strip_prefix
mode_digits trimmed = elim (strip_prefix (codes "0o") trimmed) [
  | some digits ↦ digits
  | none ↦ trimmed
]

unfoldable pub parse_mode : Text → Text → ℕ → Result ParseError ℕ
unfolding trim mode_digits octal_value
parse_mode raw directive line =
    let digits = mode_digits (trim raw) in
    if is_empty digits || not (all (between b'0' b'7') digits)
    then err (invalid_directive line directive (ticked (codes "invalid octal mode ") raw []))
    else if leb (octal_value 0 digits) max_u32
    then ok (octal_value 0 digits)
    else err (
        invalid_directive line directive
          (ticked (codes "invalid octal mode ") raw (codes " (out of range for u32)")))

abbrev pub is_alias_byte : ℕ → Bool
is_alias_byte c = is_alnum c || c == b'_' || c == b'-' || c == b'.'

unfoldable pub valid_part : Text → Bool
valid_part part = not (is_empty part) && all is_alias_byte part

unfoldable pub is_owner : List Text → Bool
unfolding valid_part
is_owner (user ∷ []) = valid_part user
is_owner (user ∷ group ∷ []) =
    (is_empty user || valid_part user)
    && (is_empty group || valid_part group)
    && not (is_empty user && is_empty group)
is_owner _ = false

unfoldable pub parse_owner : Text → Text → ℕ → Result ParseError Text
unfolding trim split_byte is_owner
parse_owner raw directive line =
    if is_owner (split_byte b':' (trim raw))
    then ok (trim raw)
    else err (
        invalid_directive line directive (
          ticked (codes "invalid owner ") raw (
            ticked (codes " (want ") (codes "user")
              (ticked (codes " or ") (codes "user:group") (codes ")")))))

abbrev is_code : Option ℕ → Bool
is_code none = false
is_code (some code) = leb 100 code && leb code 599

abbrev starts_with_digit : Text → Bool
starts_with_digit [] = false
starts_with_digit (c ∷ s) = is_digit c

unfoldable pub is_status_pattern : Text → Bool
unfolding ends_with parse_u16
is_status_pattern pattern =
    if length pattern == 3 && ends_with (codes "xx") pattern
    then starts_with_digit pattern
    else is_code (parse_u16 pattern)

unfoldable pub is_valid_alias_name : Text → Bool
is_valid_alias_name name = not (is_empty name) && all is_alias_byte name

abbrev pub known_tools : List Text
known_tools =
    codes "os"
    ∷ codes "aur"
    ∷ codes "rustup"
    ∷ codes "cargo"
    ∷ codes "go"
    ∷ codes "npm"
    ∷ codes "pipx"
    ∷ codes "uv"
    ∷ codes "foundry"
    ∷ codes "proto"
    ∷ codes "gh"
    ∷ []

unfoldable pub is_known_tool : Text → Bool
unfolding eq_text
is_known_tool name = is_one_of name known_tools

-- The guard is the one that waits for the next block.
unfoldable pub reject_guard : Option Text → Text → ℕ → Result ParseError Unit
reject_guard guard directive line = ensure (not (is_some guard)) (
    invalid_directive line directive
      (ticked [] (codes "@only_if") (ticked (codes " is not supported on ") (b'@' ∷ directive) [])))

-- `split(',')`, with the parts trimmed and the empty ones left out.
unfoldable pub comma_list : Text → List Text
unfolding split_byte trim
comma_list raw = keep (λ part. not (is_empty part)) (map trim (split_byte b',' raw))

-- The two positional arguments of a directive that takes no other number of them.
abbrev pub exactly_two : List Text → Option (Text × Text)
exactly_two (first ∷ second ∷ []) = some (first, second)
exactly_two _ = none

abbrev pub is_absolute : Text → Bool
is_absolute path = starts_with (codes "/") path

-- A token behind `@`: the target, unless it is empty or the second one.
unfoldable pub take_target : Text → ℕ → Option Text → Text → Result ParseError (Option Text)
take_target directive line target alias = do
  ensure (not (is_empty alias)) (invalid_directive line directive (codes "missing target"))
  ensure (not (is_some target)) (invalid_directive line directive (codes "more than one target"))
  ok (some alias)

-- The last element, and those in front of it.
abbrev pub split_last : List Text → Option (List Text × Text)
split_last [] = none
split_last (word ∷ words) = elim (split_last words) [
  | none ↦ some ([], word)
  | some (front, last) ↦ some (word ∷ front, last)
]

-- `join(" ")`
unfoldable pub join_spaces : List Text → Text
join_spaces [] = []
join_spaces (word ∷ []) = word
join_spaces (word ∷ next ∷ words) = word ++ b' ' ∷ join_spaces (next ∷ words)

-- The character `…` of a message.
abbrev pub ellipsis : Text
ellipsis = 0xE2 ∷ 0x80 ∷ 0xA6 ∷ []
