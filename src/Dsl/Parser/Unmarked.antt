-- ===== src/Dsl/Parser/Unmarked.antt =====
-- Lines that are no directives and open no here-documents.
use shellflow.Base.{
  ℕ, ◌+◌, zero, suc, Bool, true, false, ◌&&◌, ◌==◌, List, [], ◌∷◌, none, some, some_inj, Text, ◌≡◌,
  ◌⊎◌, refl, subst, arith, All, length, drop, inl, inr, Bool-cases, Option-cases,
}
use shellflow.Base.Text.{
  codes, contains, starts_with, strip_prefix, trim_start, trim_skip, white_len,
}
use shellflow.Base.Text.Lines.{lines}
use shellflow.Dsl.Heredoc.{
  quote_end, begins, scan_round, scan_next, scan_loop, scan_openers, starts_word,
}
use shellflow.Dsl.Parser.Script.{directive}

-- Text without two `<` in a row, and without `@` or without `#`.
abbrev pub IsPlain : Text → Type 0
IsPlain line =
    (contains (codes "<<") line ≡ false)
    × ((contains (codes "@") line ≡ false) ⊎ (contains (codes "#") line ≡ false))

contains-tail : (p : Text) (c : ℕ) (s : Text) → contains p (c ∷ s) ≡ false → contains p s ≡ false
unfolding contains
contains-tail p c s h = ground (arith, h)

contains-drop : (p s : Text) → contains p s ≡ false → contains p (drop 1 s) ≡ false
contains-drop p [] h = h
contains-drop p (c ∷ s) h = contains-tail p c s h

contains-trim_skip :
    (p : Text) (k : ℕ) (s : Text) → contains p s ≡ false → contains p (trim_skip k s) ≡ false
unfolding trim_skip
contains-trim_skip p zero [] h = h
contains-trim_skip p (suc k) [] h = h
contains-trim_skip p (suc k) (c ∷ s) h = contains-trim_skip p k s (contains-tail p c s h)
contains-trim_skip p zero (c ∷ s) h =
    elim (white_len (c ∷ s))
      as (λ n. contains p (elim n [ zero ↦ c ∷ s | suc k ↦ trim_skip k s ]) ≡ false) [
        | zero ↦ h
        | suc k ↦ contains-trim_skip p k s (contains-tail p c s h)
      ]

contains-trim_start : (p s : Text) → contains p s ≡ false → contains p (trim_start s) ≡ false
unfolding trim_start
contains-trim_start p s h = contains-trim_skip p 0 s h

no_prefix : (b : ℕ) (s : Text) → contains (b ∷ []) s ≡ false → strip_prefix (b ∷ []) s ≡ none
unfolding contains starts_with strip_prefix
no_prefix b [] h = refl
no_prefix b (c ∷ s) h = ground (arith, h)

behind_prefix :
    (p : Text) (b : ℕ) (s r : Text)
    → strip_prefix (b ∷ []) s ≡ some r
    → contains p s ≡ false
    → contains p r ≡ false
unfolding strip_prefix
behind_prefix p b [] r e h = absurd (cc e)
behind_prefix p b (c ∷ s) r e h = elim (Bool-cases (b == c)) [
  | inl x ↦
      subst (λ t. contains p t ≡ false) (some_inj s r (rw (x, strip_prefix) at e))
        (contains-tail p c s h)
  | inr x ↦ absurd (cc (rw (x, strip_prefix) at e))
]

directive-none :
    (line : Text)
    → (contains (codes "@") line ≡ false) ⊎ (contains (codes "#") line ≡ false)
    → directive line ≡ none
unfolding directive
directive-none line (inr h) =
    rw (no_prefix b'#' (trim_start line) (contains-trim_start (codes "#") line h), directive) refl
directive-none line (inl h) = elim (Option-cases (strip_prefix (codes "#") (trim_start line))) [
  | inl e ↦ rw (e, directive) refl
  | inr (r, e) ↦
      let free =
        behind_prefix (codes "@") b'#' (trim_start line) r e
          (contains-trim_start (codes "@") line h) in
      rw (e, directive, no_prefix b'@' (trim_start r) (contains-trim_start (codes "@") r free)) refl
]

abbrev NoOpener : Text → Type 0
NoOpener s = contains (codes "<<") s ≡ false

NoOpener-nil : NoOpener []
unfolding contains starts_with
NoOpener-nil = refl

NoOpener-quote_end : (n q : ℕ) (e : Bool) (s : Text) → NoOpener s → NoOpener (quote_end n q e s)
unfolding quote_end
NoOpener-quote_end zero q e s h = NoOpener-nil
NoOpener-quote_end (suc n) q e [] h = h
NoOpener-quote_end (suc n) q e (c ∷ s) h =
    let t = contains-tail (codes "<<") c s h in
    ground (
      arith,
      NoOpener-quote_end n q e (drop 1 s) (contains-drop (codes "<<") s t),
      NoOpener-quote_end n q e s t,
      t,
    )

no_angle :
    (c : ℕ) (s : Text)
    → contains (codes "<<") (c ∷ s) ≡ false
    → (c == b'<' && begins b'<' s) ≡ false
unfolding contains starts_with
no_angle c [] h = ground arith
no_angle c (d ∷ s) h = ground (arith, h)

-- What a round leaves of such a text gives no openers.
scan_next-NoOpener :
    (r n c : ℕ) (w : Bool) (s : Text)
    → ((w' : Bool) (s' : Text) → NoOpener s' → scan_loop r n w' s' ≡ [])
    → NoOpener (c ∷ s)
    → scan_next (scan_loop r n) (scan_round r w c s) ≡ []
unfolding scan_next scan_round
scan_next-NoOpener r n c w s f h =
    let t = contains-tail (codes "<<") c s h in
    let a = no_angle c s h in
    ground (
      arith,
      a,
      f false (drop 1 s) (contains-drop (codes "<<") s t),
      f false (quote_end r c (c == b'"') s) (NoOpener-quote_end r c (c == b'"') s t),
      f (starts_word c) s t,
    )

scan_loop-NoOpener : (r n : ℕ) (w : Bool) (s : Text) → NoOpener s → scan_loop r n w s ≡ []
unfolding scan_loop
scan_loop-NoOpener r zero w s h = refl
scan_loop-NoOpener r (suc n) w [] h = refl
scan_loop-NoOpener r (suc n) w (c ∷ s) h =
    scan_next-NoOpener r n c w s (λ w' s' h'. scan_loop-NoOpener r n w' s' h') h

-- A line that is no directive and opens no here-document.
abbrev pub PassesBy : Text → Type 0
PassesBy line = (directive line ≡ none) × (scan_openers line ≡ [])

PassesBy-IsPlain : (line : Text) → IsPlain line → PassesBy line
unfolding scan_openers
PassesBy-IsPlain line (a, d) =
    (directive-none line d, scan_loop-NoOpener (length line + 1) (length line + 1) true line a)

pub All-PassesBy : (lines : List Text) → All IsPlain lines → All PassesBy lines
All-PassesBy [] h = tt
All-PassesBy (line ∷ lines) (p, ps) = (PassesBy-IsPlain line p, All-PassesBy lines ps)
