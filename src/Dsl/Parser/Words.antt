-- ===== src/Dsl/Parser/Words.antt =====
-- crates/shellflow-dsl/src/parser.rs: `split_words`, the words of a payload. The scan of the
-- characters is a machine on bytes: a byte of a longer character is at least 128, so that no test
-- for an ASCII character accepts it, and the bytes of a white space character are skipped together.
pub mod Quoted
use shellflow.Base.{
  ℕ, zero, suc, Bool, true, false, ◌||◌, List, [], ◌∷◌, ◌++◌, Text, ◌==◌, if◌then◌else◌,
}
use shellflow.Base.Text.{white_len}

-- Where the scan stands: outside the quotes, inside a white space character, inside quotes, or
-- behind a backslash outside of quotes or inside of double quotes.
pub data Reading : Type 0 where
  outside : Reading
  in_white : ℕ → Reading
  quoted : ℕ → Reading
  escaped : Reading
  quoted_escaped : Reading

pub record WordScan : Type 0 where
  pub words : List Text
  pub cur : Text
  pub in_word : Bool
  pub reading : Reading

-- `cur.push(c); in_word = true`
unfoldable pub push_byte : WordScan → ℕ → WordScan
push_byte w c = record w { cur = w.cur ++ c ∷ []; in_word = true; reading = outside }

unfoldable pub end_word : WordScan → Reading → WordScan
end_word w next =
    if w.in_word
    then record { words = w.words ++ w.cur ∷ []; cur = []; in_word = false; reading = next }
    else record w { reading = next }

unfoldable pub scan_outside : WordScan → ℕ → Text → WordScan
unfolding push_byte end_word white_len
scan_outside w c s =
    if c == b'\'' || c == b'"'
    then record w { in_word = true; reading = quoted c }
    else elim (white_len (c ∷ s)) [
      | suc k ↦ end_word w (in_white k)
      | zero ↦ if c == b'\\' then record w { reading = escaped } else push_byte w c
    ]

unfoldable pub scan_quoted : WordScan → ℕ → ℕ → WordScan
scan_quoted w q c =
    if c == q
    then record w { in_word = true; reading = outside }
    else if c == b'\\'
    then (if q == b'"'
        then record w { in_word = true; reading = quoted_escaped }
        else record w { cur = w.cur ++ c ∷ []; in_word = true; reading = quoted q })
    else record w { cur = w.cur ++ c ∷ []; in_word = true; reading = quoted q }

-- What a backslash and the byte behind it leave inside of double quotes.
unfoldable pub unescape : ℕ → Text
unescape n =
    if n == b'$' || n == b'`' || n == b'"' || n == b'\\'
    then n ∷ []
    else if n == b'\n'
    then []
    else b'\\' ∷ n ∷ []

-- The byte `c`, in front of `s`.
unfoldable pub scan_byte : Reading → WordScan → ℕ → Text → WordScan
unfolding scan_outside scan_quoted unescape push_byte
scan_byte outside w c s = scan_outside w c s
scan_byte (in_white zero) w c s = scan_outside w c s
scan_byte (in_white (suc k)) w c s = record w { reading = in_white k }
scan_byte (quoted q) w c s = scan_quoted w q c
scan_byte escaped w c s = push_byte w c
scan_byte quoted_escaped w c s = record w {
  cur = w.cur ++ unescape c;
  in_word = true;
  reading = quoted b'"';
}

unfoldable pub scan_words : WordScan → Text → WordScan
unfolding scan_byte
scan_words w [] = w
scan_words w (c ∷ s) = scan_words (scan_byte w.reading w c s) s

-- A backslash at the end of the payload is kept inside of double quotes only.
unfoldable pub at_end : Reading → Text
at_end quoted_escaped = b'\\' ∷ []
at_end _ = []

unfoldable pub all_words : WordScan → List Text
unfolding at_end
all_words w = if w.in_word then w.words ++ (w.cur ++ at_end w.reading) ∷ [] else w.words

abbrev pub no_words : WordScan
no_words = record { words = []; cur = []; in_word = false; reading = outside }

unfoldable pub split_words : Text → List Text
unfolding scan_words all_words
split_words payload = all_words (scan_words no_words payload)
