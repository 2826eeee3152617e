-- ===== src/Dsl/Heredoc/Bound.antt =====
-- The bound on the loops of the scan.
use shellflow.Base.{
  ℕ, zero, suc, ◌≤◌, ◌<◌, Bool, true, not, ◌&&◌, ◌||◌, [], ◌∷◌, ◌++◌, Option, none, some, Text,
  ◌==◌, ◌≡◌, refl, ap, arith, inl, inr, Bool-cases, Option-cases, if_intro, length, is_empty, drop,
  take, ◌∙◌,
}
use shellflow.Dsl.Heredoc.{
  Heredoc, quote_end, behind, closing_quote, TagWord, bare_tag, quoted_tag, read_tag, skip_blanks,
  begins, read_heredoc, expands, heredoc_of, after_dash,
}

pub length-drop_one : (s : Text) → length (drop 1 s) ≤ length s
length-drop_one [] = omega arith
length-drop_one (c ∷ s) = omega arith

pub length-quote_end : (n q : ℕ) (e : Bool) (s : Text) → length (quote_end n q e s) ≤ length s
unfolding quote_end
length-quote_end zero q e s = omega arith
length-quote_end (suc n) q e [] = omega arith
length-quote_end (suc n) q e (c ∷ s) =
    ground (arith, length-quote_end n q e (drop 1 s), length-quote_end n q e s, length-drop_one s)

pub quote_end_fuel :
    (n m q : ℕ) (e : Bool) (s : Text)
    → length s < n
    → length s < m
    → quote_end n q e s ≡ quote_end m q e s
unfolding quote_end
quote_end_fuel zero m q e s h k = elim h [ ]
quote_end_fuel (suc n) zero q e s h k = elim k [ ]
quote_end_fuel (suc n) (suc m) q e [] h k = refl
quote_end_fuel (suc n) (suc m) q e (c ∷ s) h k =
    ground (arith, quote_end_fuel n m q e (drop 1 s), quote_end_fuel n m q e s, length-drop_one s)

closing_quote_fuel :
    (n m q : ℕ) (e : Bool) (s : Text)
    → length s < n
    → length s < m
    → closing_quote n q e s ≡ closing_quote m q e s
unfolding closing_quote
closing_quote_fuel zero m q e s h k = elim h [ ]
closing_quote_fuel (suc n) zero q e s h k = elim k [ ]
closing_quote_fuel (suc n) (suc m) q e [] h k = refl
closing_quote_fuel (suc n) (suc m) q e (c ∷ s) h k =
    ground (
      arith,
      closing_quote_fuel n m q e (drop 1 s),
      closing_quote_fuel n m q e s,
      length-drop_one s,
    )

-- The text behind a match is no longer than the text.
abbrev Shorter : ℕ → Option (Text × Text) → Type 0
Shorter n none = Unit
Shorter n (some (body, after)) = length after ≤ n

Shorter-behind :
    (n m : ℕ) (h : Text) (o : Option (Text × Text)) → m ≤ n → Shorter m o → Shorter n (behind h o)
Shorter-behind n m h none l s = tt
Shorter-behind n m h (some (b, a)) l s = omega arith

closing_quote-Shorter : (n q : ℕ) (e : Bool) (s : Text) → Shorter (length s) (closing_quote n q e s)
unfolding closing_quote
closing_quote-Shorter zero q e s = tt
closing_quote-Shorter (suc n) q e [] = tt
closing_quote-Shorter (suc n) q e (c ∷ s) = elim (Bool-cases (e && c == b'\\')) [
  | inl x ↦
      rw (x, closing_quote)
        (Shorter-behind (suc (length s)) (length (drop 1 s)) (c ∷ take 1 s)
          (closing_quote n q e (drop 1 s)) (omega (arith, length-drop_one s))
          (closing_quote-Shorter n q e (drop 1 s)))
  | inr x ↦ elim (Bool-cases (c == q)) [
    | inl y ↦ rw (x, closing_quote, y) (omega arith)
    | inr y ↦
        rw (x, closing_quote, y)
          (Shorter-behind (suc (length s)) (length s) (c ∷ []) (closing_quote n q e s) (omega arith)
            (closing_quote-Shorter n q e s))
  ]
]

bare_tag_fuel :
    (n m : ℕ) (raw : Text) (l : Bool) (s : Text)
    → length s < n
    → length s < m
    → bare_tag n raw l s ≡ bare_tag m raw l s
unfolding bare_tag
bare_tag_fuel zero m raw l s h k = elim h [ ]
bare_tag_fuel (suc n) zero raw l s h k = elim k [ ]
bare_tag_fuel (suc n) (suc m) raw l [] h k = refl
bare_tag_fuel (suc n) (suc m) raw l (c ∷ []) h k =
    ground (arith, bare_tag_fuel n m (raw ++ c ∷ []) (l && not (expands c)) [])
bare_tag_fuel (suc n) (suc m) raw l (c ∷ d ∷ s) h k = ground (
  arith,
  bare_tag_fuel n m (raw ++ d ∷ []) l s,
  bare_tag_fuel n m (raw ++ c ∷ []) (l && not (expands c)) (d ∷ s),
)

length-bare_tag :
    (n : ℕ) (raw : Text) (l : Bool) (s : Text) → length (bare_tag n raw l s).next ≤ length s
unfolding bare_tag
length-bare_tag zero raw l s = omega arith
length-bare_tag (suc n) raw l [] = omega arith
length-bare_tag (suc n) raw l (c ∷ []) =
    ground (arith, length-bare_tag n (raw ++ c ∷ []) (l && not (expands c)) [])
length-bare_tag (suc n) raw l (c ∷ d ∷ s) = ground (
  arith,
  length-bare_tag n (raw ++ d ∷ []) l s,
  length-bare_tag n (raw ++ c ∷ []) (l && not (expands c)) (d ∷ s),
)

skip_blanks_fuel :
    (n m : ℕ) (s : Text) → length s < n → length s < m → skip_blanks n s ≡ skip_blanks m s
unfolding skip_blanks
skip_blanks_fuel zero m s h k = elim h [ ]
skip_blanks_fuel (suc n) zero s h k = elim k [ ]
skip_blanks_fuel (suc n) (suc m) [] h k = refl
skip_blanks_fuel (suc n) (suc m) (c ∷ s) h k = ground (arith, skip_blanks_fuel n m s)

length-skip_blanks : (n : ℕ) (s : Text) → length (skip_blanks n s) ≤ length s
unfolding skip_blanks
length-skip_blanks zero s = omega arith
length-skip_blanks (suc n) [] = omega arith
length-skip_blanks (suc n) (c ∷ s) = ground (arith, length-skip_blanks n s)

quoted_tag_fuel :
    (n m q : ℕ) (s : Text) → length s < n → length s < m → quoted_tag n q s ≡ quoted_tag m q s
unfolding quoted_tag
quoted_tag_fuel n m q s h k = rw (closing_quote_fuel n m q (q == b'"') s h k, quoted_tag)

length-quoted_tag : (n q : ℕ) (s : Text) → length (quoted_tag n q s).next ≤ length s
unfolding quoted_tag
length-quoted_tag n q s =
    let short = closing_quote-Shorter n q (q == b'"') s in
    elim (Option-cases (closing_quote n q (q == b'"') s)) [
      | inl e ↦ rw (e, quoted_tag) (omega arith)
      | inr ((body, after), e) ↦ rw (e, quoted_tag) (rw e at short)
    ]

read_tag_fuel : (n m : ℕ) (s : Text) → length s < n → length s < m → read_tag n s ≡ read_tag m s
unfolding read_tag
read_tag_fuel n m [] h k = ap some (bare_tag_fuel n m [] true [] h k)
read_tag_fuel n m (c ∷ s) h k = ground (
  arith,
  quoted_tag_fuel n m c s (omega arith) (omega arith),
  bare_tag_fuel n m [] true (c ∷ s) h k,
)

abbrev WordShorter : ℕ → Option TagWord → Type 0
WordShorter n none = Unit
WordShorter n (some word) = length word.next ≤ n

read_tag-Shorter : (n : ℕ) (s : Text) → WordShorter (length s) (read_tag n s)
unfolding read_tag
read_tag-Shorter n [] = length-bare_tag n [] true []
read_tag-Shorter n (c ∷ s) =
    if_intro (λ (w : TagWord). length w.next ≤ suc (length s)) (c == b'\'' || c == b'"') _ _
      (λ _. omega (arith, length-quoted_tag n c s)) (λ _. length-bare_tag n [] true (c ∷ s))

length-after_dash : (s : Text) → length (after_dash s) ≤ length s
length-after_dash [] = omega arith
length-after_dash (c ∷ s) = ground arith

pub read_heredoc_fuel :
    (n m : ℕ) (s : Text) → length s < n → length s < m → read_heredoc n s ≡ read_heredoc m s
unfolding read_heredoc
read_heredoc_fuel n m s h k =
    let d = length-after_dash s in
    let b = length-skip_blanks m (after_dash s) in
    ap (heredoc_of (begins b'-' s)) (
      ap (read_tag n) (skip_blanks_fuel n m (after_dash s) (omega arith) (omega arith))
      ∙ read_tag_fuel n m (skip_blanks m (after_dash s)) (omega arith) (omega arith))

abbrev pub HeredocShorter : ℕ → Option (Heredoc × Text) → Type 0
HeredocShorter n none = Unit
HeredocShorter n (some (heredoc, next)) = length next ≤ n

heredoc_of-Shorter :
    (n m : ℕ) (b : Bool) (o : Option TagWord)
    → n ≤ m
    → WordShorter n o
    → HeredocShorter m (heredoc_of b o)
unfolding heredoc_of
heredoc_of-Shorter n m b none h w = tt
heredoc_of-Shorter n m b (some word) h w =
    if_intro (HeredocShorter m) (not word.literal || is_empty word.text) _ _ (λ _. tt)
      (λ _. omega arith)

pub read_heredoc-Shorter : (n : ℕ) (s : Text) → HeredocShorter (length s) (read_heredoc n s)
unfolding read_heredoc
read_heredoc-Shorter n s =
    let d = length-after_dash s in
    let b = length-skip_blanks n (after_dash s) in
    heredoc_of-Shorter (length (skip_blanks n (after_dash s))) (length s) (begins b'-' s)
      (read_tag n (skip_blanks n (after_dash s))) (omega arith)
      (read_tag-Shorter n (skip_blanks n (after_dash s)))
