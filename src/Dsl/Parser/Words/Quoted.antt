-- ===== src/Dsl/Parser/Words/Quoted.antt =====
-- `split_words` on words that `shell_quote_single` quoted.
use shellflow.Base.{
  ℕ, zero, Bool, true, false, List, [], ◌∷◌, ◌++◌, Text, ◌==◌, ◌≡◌, refl, sym, ap, ◌∙◌, append-nil,
  append_assoc, inl, inr, Bool-cases, ==_iff, map,
}
use shellflow.Base.Text.{white_len}
use shellflow.Shell.{quote_byte, quote_body, shell_quote_single}
use shellflow.Dsl.Parser.Flags.{join_spaces}
use shellflow.Dsl.Parser.Words.{
  WordScan, Reading, outside, in_white, quoted, scan_words, all_words, split_words,
}

abbrev inside : List Text → Text → WordScan
inside words cur = record { words = words; cur = cur; in_word = true; reading = quoted b'\'' }

abbrev past_word : List Text → Text → WordScan
past_word words cur = record { words = words; cur = cur; in_word = true; reading = outside }

-- In front of the first word, or behind the space in front of another.
abbrev reading_at : Bool → Reading
reading_at true = outside
reading_at false = in_white zero

abbrev before : List Text → Bool → WordScan
before words first = record { words = words; cur = []; in_word = false; reading = reading_at first }

scan_words-plain :
    (words : List Text) (cur : Text) (c : ℕ) (s : Text)
    → (c == b'\'') ≡ false
    → scan_words (inside words cur) (c ∷ s) ≡ scan_words (inside words (cur ++ c ∷ [])) s
unfolding scan_words
scan_words-plain words cur c s h = elim (Bool-cases (c == b'\\')) [
  | inl e ↦ rw (h, e) refl
  | inr e ↦ rw (h, e) refl
]

-- The four bytes that stand for a quote.
scan_words_quote :
    (words : List Text) (cur s : Text)
    → scan_words (inside words cur) (b'\'' ∷ b'\\' ∷ b'\'' ∷ b'\'' ∷ s)
      ≡ scan_words (inside words (cur ++ b'\'' ∷ [])) s
unfolding scan_words
scan_words_quote words cur [] = refl
scan_words_quote words cur (c ∷ s) = refl

scan_words-quote_byte :
    (words : List Text) (cur : Text) (c : ℕ) (s : Text)
    → scan_words (inside words cur) (quote_byte c ++ s)
      ≡ scan_words (inside words (cur ++ c ∷ [])) s
unfolding quote_byte
scan_words-quote_byte words cur c s = elim (Bool-cases (c == b'\'')) [
  | inl e ↦
      rw (e, quote_byte)
        (scan_words_quote words cur s
          ∙ ap (λ d. scan_words (inside words (cur ++ d ∷ [])) s) (sym ((==_iff c b'\'').0 e)))
  | inr e ↦ rw (e, quote_byte) (scan_words-plain words cur c s e)
]

scan_words-quote_body :
    (words : List Text) (v cur s : Text)
    → scan_words (inside words cur) (quote_body v ++ s) ≡ scan_words (past_word words (cur ++ v)) s
unfolding quote_body scan_words
scan_words-quote_body words [] cur s =
    ap (λ t. scan_words (past_word words t) s) (sym (append-nil cur))
scan_words-quote_body words (c ∷ v) cur s =
    ap (scan_words (inside words cur)) (append_assoc (quote_byte c) (quote_body v) s)
    ∙ scan_words-quote_byte words cur c (quote_body v ++ s)
    ∙ scan_words-quote_body words v (cur ++ c ∷ []) s
    ∙ ap (λ t. scan_words (past_word words t) s) (append_assoc cur (c ∷ []) v)

-- A quoted word is scanned as a word.
scan_words-shell_quote_single :
    (words : List Text) (first : Bool) (v s : Text)
    → scan_words (before words first) (shell_quote_single v ++ s) ≡ scan_words (past_word words v) s
unfolding shell_quote_single scan_words
scan_words-shell_quote_single words true v s = scan_words-quote_body words v [] s
scan_words-shell_quote_single words false v s = scan_words-quote_body words v [] s

pub white_len_space : (s : Text) → white_len (b' ' ∷ s) ≡ 1
unfolding white_len
white_len_space [] = refl
white_len_space (a ∷ []) = refl
white_len_space (a ∷ b ∷ s) = refl

scan_words_space :
    (words : List Text) (v s : Text)
    → scan_words (past_word words v) (b' ' ∷ s) ≡ scan_words (before (words ++ v ∷ []) false) s
unfolding scan_words
scan_words_space words v s = rw (white_len_space s) refl

scan_words-join_spaces :
    (ws words : List Text) (first : Bool)
    → all_words (scan_words (before words first) (join_spaces (map shell_quote_single ws)))
      ≡ words ++ ws
unfolding join_spaces scan_words all_words
scan_words-join_spaces [] words first = sym (append-nil words)
scan_words-join_spaces (v ∷ []) words first =
    ap (λ s. all_words (scan_words (before words first) s))
      (sym (append-nil (shell_quote_single v)))
    ∙ ap all_words (scan_words-shell_quote_single words first v [])
    ∙ ap (λ u. words ++ u ∷ []) (append-nil v)
scan_words-join_spaces (v ∷ w ∷ ws) words first =
    let s = join_spaces (map shell_quote_single (w ∷ ws)) in
    ap all_words (scan_words-shell_quote_single words first v (b' ' ∷ s))
    ∙ ap all_words (scan_words_space words v s)
    ∙ scan_words-join_spaces (w ∷ ws) (words ++ v ∷ []) false
    ∙ append_assoc words (v ∷ []) (w ∷ ws)

-- Words that are quoted as the shell text rules quote them, and joined by spaces, are read back from
-- the payload of a directive, whatever bytes they hold.
pub split_words-shell_quote_single :
    (ws : List Text) → split_words (join_spaces (map shell_quote_single ws)) ≡ ws
unfolding split_words
split_words-shell_quote_single ws = scan_words-join_spaces ws [] true
