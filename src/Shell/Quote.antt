-- ===== src/Shell/Quote.antt =====
-- `shell_quote_single` against a reader of shell words.
use shellflow.Base.{
  ℕ, Bool, true, false, ◌||◌, [], ◌∷◌, ◌++◌, append_assoc, Option, none, some, ◌≡◌, refl, arith,
  Text, ◌==◌,
}
use shellflow.Shell.{quote_byte, quote_body, shell_quote_single}

-- The bytes that end a word outside quotes.
abbrev pub ends_word : ℕ → Bool
ends_word c =
    c == b' '
    || c == b'\t'
    || c == b'\n'
    || c == b';'
    || c == b'&'
    || c == b'|'
    || c == b'('
    || c == b')'
    || c == b'<'
    || c == b'>'

-- Where the reader stands: outside quotes, behind a backslash there, or inside single quotes.
pub data Place : Type 0 where
  bare escaped quoted : Place

abbrev push : ℕ → Option (Text × Text) → Option (Text × Text)
push c none = none
push c (some (word, rest)) = some (c ∷ word, rest)

-- The quoting rules of a POSIX shell for a word with no expansion: the word's value, and the text
-- behind it; `none` for an open quote or for a byte that the shell would expand.
unfoldable pub read_word : Place → Text → Option (Text × Text)
read_word bare [] = some ([], [])
read_word escaped [] = none
read_word quoted [] = none
read_word escaped (c ∷ s) = push c (read_word bare s)
read_word quoted (c ∷ s) = elim (c == b'\'') [
  | true ↦ read_word bare s
  | false ↦ push c (read_word quoted s)
]
read_word bare (c ∷ s) = elim (ends_word c) [
  | true ↦ some ([], c ∷ s)
  | false ↦ elim (c == b'\'') [
    | true ↦ read_word quoted s
    | false ↦ elim (c == b'\\') [
      | true ↦ read_word escaped s
      | false ↦ elim (c == b'$' || c == b'`' || c == b'"') [
        | true ↦ none
        | false ↦ push c (read_word bare s)
      ]
    ]
  ]
]

-- What stands behind the quoted value ends the word.
abbrev pub EndsWord : Text → Type 0
EndsWord [] = Unit
EndsWord (c ∷ s) = ends_word c ≡ true

read_word-quote_byte :
    (c : ℕ) (rest : Text) → read_word quoted (quote_byte c ++ rest) ≡ push c (read_word quoted rest)
unfolding read_word quote_byte
read_word-quote_byte c rest = ground arith

read_word-quote_body :
    (value rest : Text)
    → EndsWord rest
    → read_word quoted (quote_body value ++ rest) ≡ some (value, rest)
unfolding quote_body
read_word-quote_body [] [] h = unfold read_word in refl
read_word-quote_body [] (c ∷ rest) h = unfold read_word in ground arith
read_word-quote_body (c ∷ value) rest h =
    rw (append_assoc, read_word-quote_byte, read_word-quote_body value rest h)

-- A shell reads a value that `shell_quote_single` quoted as one word, which is that value,
-- whatever bytes the value holds, where the text behind it is empty or ends a word.
pub read_word-shell_quote_single :
    (value rest : Text)
    → EndsWord rest
    → read_word bare (shell_quote_single value ++ rest) ≡ some (value, rest)
unfolding shell_quote_single
read_word-shell_quote_single value rest h = unfold read_word in read_word-quote_body value rest h
