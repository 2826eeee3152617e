-- ===== src/Dsl/Heredoc/Skips.antt =====
-- What the scan takes for an opener, and what it skips.
use shellflow.Base.{
  ℕ, zero, suc, ◌+◌, ◌≤◌, ◌<◌, Bool, true, false, not, ◌||◌, List, [], ◌∷◌, ◌++◌, some, Text, ◌==◌,
  ◌≡◌, ◌≢◌, refl, ap, sym, ◌∙◌, arith, length, length-append, All, append_assoc, append-nil,
  if◌then◌else◌, ◌-◌, Bool-cases, inl, inr, ==_iff,
}
use shellflow.Dsl.Heredoc.{
  Heredoc, is_tag_end, starts_word, bare_tag, read_tag, skip_blanks, read_heredoc, scan_angle,
  scan_round, scan_next, scan_loop, scan_openers, expands, heredoc_of, go,
}
use shellflow.Dsl.Heredoc.Scan.{scan_openers_bound}

-- A byte that the scan passes over: no backslash, quote, `#` or `<`.
abbrev pub is_plain : ℕ → Bool
is_plain c = not (c == b'\\' || c == b'\'' || c == b'"' || c == b'#' || c == b'<')

abbrev pub IsPlain : Text → Type 0
IsPlain = All (λ c. is_plain c ≡ true)

-- Whether a word starts behind a run of plain bytes.
abbrev word_start_after : Bool → Text → Bool
word_start_after w [] = w
word_start_after w (c ∷ s) = word_start_after (starts_word c) s

scan_round_plain :
    (r c : ℕ) (s : Text) (w : Bool)
    → is_plain c ≡ true
    → scan_round r w c s ≡ go [] (starts_word c) s
unfolding scan_round
scan_round_plain r c s w p = ground arith

scan_loop_go :
    (r n c : ℕ) (s : Text) (w w' : Bool) (s' : Text) (openers : List Heredoc)
    → scan_round r w c s ≡ go openers w' s'
    → scan_loop r (suc n) w (c ∷ s) ≡ openers ++ scan_loop r n w' s'
unfolding scan_loop
scan_loop_go r n c s w w' s' openers e = rw (e, scan_next)

scan_loop-plain :
    (r n : ℕ) (command s : Text) (fuel : ℕ) (w : Bool)
    → n ≡ length command + fuel
    → IsPlain command
    → scan_loop r n w (command ++ s) ≡ scan_loop r fuel (word_start_after w command) s
scan_loop-plain r n [] s fuel w e p = let e' : n ≡ fuel = omega arith in rw e'
scan_loop-plain r zero (c ∷ command) s fuel w e p = absurd (omega arith)
scan_loop-plain r (suc n) (c ∷ command) s fuel w e p =
    scan_loop_go r n c (command ++ s) w (starts_word c) (command ++ s) []
      (scan_round_plain r c (command ++ s) w p.0)
    ∙ scan_loop-plain r n command s fuel (starts_word c) (omega arith) p.1

scan_loop_end : (r n : ℕ) (w : Bool) → scan_loop r n w [] ≡ []
unfolding scan_loop
scan_loop_end r zero w = refl
scan_loop_end r (suc n) w = refl

scan_plain : (r n : ℕ) (s : Text) (w : Bool) → length s ≤ n → IsPlain s → scan_loop r n w s ≡ []
scan_plain r n s w h p =
    ap (scan_loop r n w) (sym (append-nil s))
    ∙ scan_loop-plain r n s [] (n - length s) w (omega arith) p
    ∙ scan_loop_end r (n - length s) (word_start_after w s)

-- A byte of a bare delimiter that stands for itself.
abbrev pub IsTagByte : ℕ → Type 0
IsTagByte c =
    (is_tag_end c ≡ false)
    × ((c == b'\\') ≡ false)
    × ((c == b'\'' || c == b'"') ≡ false)
    × (expands c ≡ false)

abbrev pub IsTag : Text → Type 0
IsTag = All IsTagByte

-- The text behind a delimiter: nothing, or a byte that ends it.
abbrev pub EndsTag : Text → Type 0
EndsTag [] = Unit
EndsTag (c ∷ s) = is_tag_end c ≡ true

bare_tag_lem :
    (fuel : ℕ) (raw tag s : Text)
    → length tag < fuel
    → IsTag tag
    → EndsTag s
    → bare_tag fuel raw true (tag ++ s) ≡ record { text = raw ++ tag; next = s; literal = true }
unfolding bare_tag
bare_tag_lem zero raw tag s h t e = elim h [ ]
bare_tag_lem (suc fuel) raw [] [] h t e = rw append-nil
bare_tag_lem (suc fuel) raw [] (c ∷ s) h t e = rw (e, bare_tag, append-nil)
bare_tag_lem (suc fuel) raw (c ∷ tag) s h t e = rw (
  t.0.0,
  bare_tag,
  t.0.1,
  t.0.3,
  bare_tag_lem fuel (raw ++ c ∷ []) tag s (omega arith) t.1 e,
  append_assoc raw (c ∷ []) tag,
)

-- The `-` of `<<-`.
abbrev pub dash_text : Bool → Text
dash_text true = b'-' ∷ []
dash_text false = []

-- A byte that ends no delimiter is none of the bytes that do.
tag_end_ne : (b c : ℕ) → is_tag_end b ≡ true → is_tag_end c ≡ false → (c == b) ≡ false
tag_end_ne b c h k = elim (Bool-cases (c == b)) [
  | inl e ↦ cc (h, k, ap is_tag_end ((==_iff c b).0 e))
  | inr e ↦ e
]

not_blank : (c : ℕ) → is_tag_end c ≡ false → (c == b' ' || c == b'\t') ≡ false
unfolding is_tag_end
not_blank c h = rw (tag_end_ne b' ' c refl h, tag_end_ne b'\t' c refl h)

skip_blanks_tag : (n c : ℕ) (s : Text) → is_tag_end c ≡ false → skip_blanks n (c ∷ s) ≡ c ∷ s
unfolding skip_blanks
skip_blanks_tag zero c s h = refl
skip_blanks_tag (suc n) c s h = rw (not_blank c h, skip_blanks)

read_tag_bare :
    (n c : ℕ) (tag s : Text)
    → suc (length tag) < n
    → IsTag (c ∷ tag)
    → EndsTag s
    → read_tag n (c ∷ (tag ++ s)) ≡ some (record { text = c ∷ tag; next = s; literal = true })
unfolding read_tag
read_tag_bare n c tag s h t e = rw (t.0.2, bare_tag_lem n [] (c ∷ tag) s h t e)

read_word_bare :
    (n c : ℕ) (tag s : Text)
    → suc (length tag) < n
    → IsTag (c ∷ tag)
    → EndsTag s
    → read_tag n (skip_blanks n (c ∷ (tag ++ s)))
      ≡ some (record { text = c ∷ tag; next = s; literal = true })
read_word_bare n c tag s h t e =
    ap (read_tag n) (skip_blanks_tag n c (tag ++ s) t.0.0) ∙ read_tag_bare n c tag s h t e

read_heredoc_bare :
    (n c : ℕ) (tag s : Text) (dash : Bool)
    → suc (length tag) < n
    → IsTag (c ∷ tag)
    → c ≢ b'-'
    → EndsTag s
    → read_heredoc n (dash_text dash ++ (c ∷ (tag ++ s)))
      ≡ some (record { tag = c ∷ tag; strip_tabs = dash }, s)
unfolding read_heredoc
read_heredoc_bare n c tag s true h t ne e = ap (heredoc_of true) (read_word_bare n c tag s h t e)
read_heredoc_bare n c tag s false h t ne e =
    let d : (c == b'-') ≡ false = ground arith in
    let after = c ∷ (tag ++ s) in
    ap (λ b. heredoc_of b (read_tag n (skip_blanks n (if b then tag ++ s else after)))) d
    ∙ ap (heredoc_of false) (read_word_bare n c tag s h t e)

scan_angle_bare :
    (n c : ℕ) (tag s : Text) (dash : Bool)
    → suc (length tag) < n
    → IsTag (c ∷ tag)
    → c ≢ b'-'
    → EndsTag s
    → scan_angle n (dash_text dash ++ (c ∷ (tag ++ s)))
      ≡ go (record { tag = c ∷ tag; strip_tabs = dash } ∷ []) true s
unfolding scan_angle is_tag_end
scan_angle_bare n c tag s true h t ne e = rw (read_heredoc_bare n c tag s true h t ne e)
scan_angle_bare n c tag s false h t ne e =
    rw (tag_end_ne b'<' c refl t.0.0, scan_angle, read_heredoc_bare n c tag s false h t ne e)

scan_round_angle : (n : ℕ) (w : Bool) (s : Text) → scan_round n w b'<' (b'<' ∷ s) ≡ scan_angle n s
unfolding scan_round
scan_round_angle n w s = refl

-- On a line with a command, `<<` or `<<-`, a delimiter that stands for itself, and nothing else
-- that could quote, comment or open, the scan finds exactly that here-document.
pub scan_openers_bare :
    (command : Text) (dash : Bool) (c : ℕ) (tag rest : Text)
    → IsPlain command
    → IsTag (c ∷ tag)
    → c ≢ b'-'
    → EndsTag rest
    → IsPlain rest
    → scan_openers (command ++ (b'<' ∷ b'<' ∷ (dash_text dash ++ (c ∷ (tag ++ rest)))))
      ≡ record { tag = c ∷ tag; strip_tabs = dash } ∷ []
scan_openers_bare command dash c tag rest p t ne e q =
    let after = c ∷ (tag ++ rest) in
    let behind = dash_text dash ++ after in
    let line = command ++ (b'<' ∷ b'<' ∷ behind) in
    let n₁ = length-append command (b'<' ∷ b'<' ∷ behind) in
    let n₂ = length-append (dash_text dash) after in
    let n₃ = length-append tag rest in
    let n = length line in
    sym (scan_openers_bound line (suc n) (length command + suc n) (omega arith) (omega arith))
    ∙ scan_loop-plain (suc n) (length command + suc n) command (b'<' ∷ b'<' ∷ behind) (suc n) true
        refl p
    ∙ scan_loop_go (suc n) n b'<' (b'<' ∷ behind) (word_start_after true command) true rest
        (record { tag = c ∷ tag; strip_tabs = dash } ∷ [])
        (scan_round_angle (suc n) (word_start_after true command) behind
          ∙ scan_angle_bare (suc n) c tag rest dash (omega arith) t ne e)
    ∙ ap (◌∷◌ (record { tag = c ∷ tag; strip_tabs = dash }))
        (scan_plain (suc n) n rest true (omega arith) q)
