-- ===== src/Dsl/Heredoc.antt =====
-- crates/shellflow-dsl/src/heredoc.rs. A position in the line is the list of the bytes from there to
-- its end, so `i + 1` is the tail and `(i + 2).min(len)` drops two. The loops of the source run
-- `bytes.len() + 1` rounds at most: `fuel` counts those that are left.
pub mod Tracker
pub mod Bound
pub mod Scan
pub mod Skips
use shellflow.Base.{
  ℕ, zero, suc, ◌+◌, Bool, true, false, not, ◌&&◌, ◌||◌, List, [], ◌∷◌, ◌++◌, Option, none, some,
  Text, ◌==◌, if◌then◌else◌, length, is_empty, drop, take, any,
}
use shellflow.Base.Text.{codes, eq_text, starts_with}

pub record Heredoc : Type 0 where
  pub tag : Text
  pub strip_tabs : Bool

unfoldable pub trim_tabs : Text → Text
trim_tabs [] = []
trim_tabs (c ∷ s) = let rest = trim_tabs s in if c == b'\t' then rest else c ∷ s

unfoldable pub terminates : Heredoc → Text → Bool
unfolding trim_tabs eq_text
terminates h line = eq_text (if h.strip_tabs then trim_tabs line else line) h.tag

unfoldable pub is_tag_end : ℕ → Bool
is_tag_end c =
    c == b' '
    || c == b'\t'
    || c == b'\n'
    || c == b';'
    || c == b'&'
    || c == b'|'
    || c == b'('
    || c == b')'
    || c == b'<'
    || c == b'>'

unfoldable pub starts_word : ℕ → Bool
unfolding is_tag_end
starts_word c = is_tag_end c || c == b'='

-- The text behind the closing quote; with `escapes`, a backslash takes the next byte along.
unfoldable pub quote_end : ℕ → ℕ → Bool → Text → Text
quote_end zero quote escapes s = []
quote_end (suc fuel) quote escapes [] = []
quote_end (suc fuel) quote escapes (c ∷ s) = elim (escapes && c == b'\\') [
  | true ↦ quote_end fuel quote escapes (drop 1 s)
  | false ↦ elim (c == quote) [ true ↦ s | false ↦ quote_end fuel quote escapes s ]
]

abbrev pub behind : Text → Option (Text × Text) → Option (Text × Text)
behind h none = none
behind h (some (body, after)) = some (h ++ body, after)

-- The text up to the closing quote, and the text behind it.
unfoldable pub closing_quote : ℕ → ℕ → Bool → Text → Option (Text × Text)
closing_quote zero quote escapes s = none
closing_quote (suc fuel) quote escapes [] = none
closing_quote (suc fuel) quote escapes (c ∷ s) = elim (escapes && c == b'\\') [
  | true ↦ behind (c ∷ take 1 s) (closing_quote fuel quote escapes (drop 1 s))
  | false ↦ elim (c == quote) [
    | true ↦ some ([], s)
    | false ↦ behind (c ∷ []) (closing_quote fuel quote escapes s)
  ]
]

pub record TagWord : Type 0 where
  pub text : Text
  pub next : Text
  pub literal : Bool

abbrev pub expands : ℕ → Bool
expands c = c == b'$' || c == b'`'

-- The loop over a bare delimiter, with what it has collected.
unfoldable pub bare_tag : ℕ → Text → Bool → Text → TagWord
unfolding is_tag_end
bare_tag zero raw literal s = record { text = raw; next = s; literal = literal }
bare_tag (suc fuel) raw literal [] = record { text = raw; next = []; literal = literal }
bare_tag (suc fuel) raw literal (c ∷ s) = elim (is_tag_end c) [
  | true ↦ record { text = raw; next = c ∷ s; literal = literal }
  | false ↦ elim (c == b'\\') [
    | true ↦ elim s [
      | [] ↦ record { text = raw; next = c ∷ []; literal = literal }
      | e ∷ s' ↦ bare_tag fuel (raw ++ e ∷ []) literal s'
    ]
    | false ↦ bare_tag fuel (raw ++ c ∷ []) (literal && not (expands c)) s
  ]
]

unfoldable pub quoted_tag : ℕ → ℕ → Text → TagWord
unfolding closing_quote
quoted_tag fuel quote s = elim (closing_quote fuel quote (quote == b'"') s) [
  | some (body, after) ↦ record {
    text = body;
    next = after;
    literal = quote == b'\'' || not (any expands body);
  }
  | none ↦ record { text = s; next = []; literal = quote == b'\'' || not (any expands s) }
]

unfoldable pub read_tag : ℕ → Text → Option TagWord
unfolding quoted_tag bare_tag
read_tag fuel [] = some (bare_tag fuel [] true [])
read_tag fuel (c ∷ s) =
    some (if c == b'\'' || c == b'"' then quoted_tag fuel c s else bare_tag fuel [] true (c ∷ s))

unfoldable pub skip_blanks : ℕ → Text → Text
skip_blanks zero s = s
skip_blanks (suc fuel) [] = []
skip_blanks (suc fuel) (c ∷ s) =
    let rest = skip_blanks fuel s in if c == b' ' || c == b'\t' then rest else c ∷ s

-- `bytes.get(start) == Some(&b)`
abbrev pub begins : ℕ → Text → Bool
begins b [] = false
begins b (c ∷ s) = c == b

-- Only a delimiter that is literal and not empty is tracked.
unfoldable pub heredoc_of : Bool → Option TagWord → Option (Heredoc × Text)
heredoc_of strip_tabs none = none
heredoc_of strip_tabs (some word) =
    if not word.literal || is_empty word.text
    then none
    else some (record { tag = word.text; strip_tabs = strip_tabs }, word.next)

-- The position behind the `-` of `<<-`.
abbrev pub after_dash : Text → Text
after_dash s = if begins b'-' s then drop 1 s else s

-- The here-document behind a `<<`, and the text behind its delimiter.
unfoldable pub read_heredoc : ℕ → Text → Option (Heredoc × Text)
unfolding read_tag skip_blanks heredoc_of
read_heredoc fuel s = heredoc_of (begins b'-' s) (read_tag fuel (skip_blanks fuel (after_dash s)))

-- What one round of the scan does: stop, or go on with the openers it found, the new `word_start`
-- and the rest of the line.
pub data Round : Type 0 where
  stop : Round
  go : List Heredoc → Bool → Text → Round

unfoldable pub scan_angle : ℕ → Text → Round
unfolding read_heredoc
scan_angle fuel s = if begins b'<' s then go [] true (drop 1 s) else elim (read_heredoc fuel s) [
  | none ↦ go [] true s
  | some (heredoc, next) ↦ go (heredoc ∷ []) true next
]

-- The `match bytes[i]`, on the byte at `i` and the text behind it.
unfoldable pub scan_round : ℕ → Bool → ℕ → Text → Round
unfolding quote_end starts_word scan_angle
scan_round fuel word_start c s =
    if c == b'\\'
    then go [] false (drop 1 s)
    else if c == b'\'' || c == b'"'
    then go [] false (quote_end fuel c (c == b'"') s)
    else if c == b'#' && word_start
    then stop
    else if c == b'<' && begins b'<' s
    then scan_angle fuel (drop 1 s)
    else go [] (starts_word c) s

unfoldable pub scan_next : (Bool → Text → List Heredoc) → Round → List Heredoc
scan_next scan stop = []
scan_next scan (go openers word_start s) = openers ++ scan word_start s

-- The scan; `rounds` is the bound of the inner loops.
unfoldable pub scan_loop : ℕ → ℕ → Bool → Text → List Heredoc
unfolding scan_round scan_next
scan_loop rounds zero word_start s = []
scan_loop rounds (suc fuel) word_start [] = []
scan_loop rounds (suc fuel) word_start (c ∷ s) =
    scan_next (scan_loop rounds fuel) (scan_round rounds word_start c s)

unfoldable pub scan_openers : Text → List Heredoc
unfolding scan_loop
scan_openers line = scan_loop (length line + 1) (length line + 1) true line
