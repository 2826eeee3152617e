-- ===== src/Base/Text.antt =====
-- Rust's `str` as the list of its UTF-8 bytes, with the operations of `str` that the code calls.
-- A test for an ASCII character is the same on bytes and on `char`s, since every byte of a longer
-- character is at least 128.
mod Search
mod White
pub mod Replace
pub mod Utf8
pub mod Lines
pub mod Decimal
pub mod Number
unfoldable pub use Search.{
  eq_text, starts_with, strip_prefix, contains, split_once, rsplit_once, replace, ends_with,
}
pub use Search.*
unfoldable pub use White.{is_white, white_len, trim_skip, trim_start, trim_end, trim}
unfoldable pub use White.{white_len_rev, trim_skip_rev}
use Prim.Native.Nat.{ℕ}
use Prim.Native.Char.{code}
use Prim.Native.String.{String}
use mathlib.Core.Bool.{Bool, ◌||◌}
use mathlib.Core.List.{List, [], ◌∷◌}
use shellflow.Base.Tests.{◌==◌, between}

-- The code points of a literal: its bytes, since every literal of the model is ASCII.
abbrev pub codes : String → List ℕ
codes String.[] = []
codes (String.◌∷◌ c s) = code c ∷ codes s

-- `char::is_ascii_alphabetic`
abbrev pub is_alpha : ℕ → Bool
is_alpha c = between b'a' b'z' c || between b'A' b'Z' c

-- `char::is_ascii_digit`
abbrev pub is_digit : ℕ → Bool
is_digit c = between b'0' b'9' c

-- `char::is_ascii_alphanumeric`
abbrev pub is_alnum : ℕ → Bool
is_alnum c = is_alpha c || is_digit c
