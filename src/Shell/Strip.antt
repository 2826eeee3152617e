-- ===== src/Shell/Strip.antt =====
-- `strip_surrounding_quotes` on a quoted value.
use mathlib.Core.List.{reverse, reverse-append, reverse-reverse, drop_last}
use shellflow.Base.{
  ℕ, ◌<◌, true, false, ◌||◌, [], ◌∷◌, ◌++◌, some, ◌≡◌, refl, ap, arith, Text, ◌==◌, last?, ◌∙◌, sym,
}
use shellflow.Base.Text.{is_white, trim_skip_rev, trim_start, trim_end, trim}
use shellflow.Shell.{strip_layer, strip_surrounding_quotes}

-- A byte that neither begins nor ends a white space character.
abbrev pub Solid : ℕ → Type 0
Solid c = (c < 128) × (is_white c ≡ false)

pub trim_start-Solid : (c : ℕ) (s : Text) → Solid c → trim_start (c ∷ s) ≡ c ∷ s
unfolding trim_start is_white
trim_start-Solid c [] h = ground arith
trim_start-Solid c (d ∷ []) h = ground arith
trim_start-Solid c (d ∷ e ∷ s) h = ground arith

trim_skip_rev-Solid : (c : ℕ) (s : Text) → Solid c → trim_skip_rev 0 (c ∷ s) ≡ c ∷ s
unfolding trim_skip_rev is_white
trim_skip_rev-Solid c [] h = ground arith
trim_skip_rev-Solid c (d ∷ []) h = ground arith
trim_skip_rev-Solid c (d ∷ e ∷ s) h = ground arith

pub trim_end-Solid : (z : ℕ) (s : Text) → Solid z → trim_end (s ++ z ∷ []) ≡ s ++ z ∷ []
unfolding trim_end
trim_end-Solid z s h =
    ap (λ r. reverse (trim_skip_rev 0 r)) (reverse-append s (z ∷ []))
    ∙ ap reverse (trim_skip_rev-Solid z (reverse s) h)
    ∙ ap reverse (sym (reverse-append s (z ∷ [])))
    ∙ reverse-reverse (s ++ z ∷ [])

-- `trim` leaves a text alone that begins and ends with such a byte.
pub trim-Solid :
    (a z : ℕ) (s : Text) → Solid a → Solid z → trim (a ∷ (s ++ z ∷ [])) ≡ a ∷ (s ++ z ∷ [])
unfolding trim
trim-Solid a z s ha hz =
    ap trim_end (trim_start-Solid a (s ++ z ∷ []) ha) ∙ trim_end-Solid z (a ∷ s) hz

last?-concat : (s : Text) (z : ℕ) → last? (s ++ z ∷ []) ≡ some z
last?-concat [] z = refl
last?-concat (a ∷ []) z = refl
last?-concat (a ∷ b ∷ s) z = last?-concat (b ∷ s) z

drop_last-concat : (s : Text) (z : ℕ) → drop_last (s ++ z ∷ []) ≡ s
drop_last-concat [] z = refl
drop_last-concat (a ∷ []) z = refl
drop_last-concat (a ∷ b ∷ s) z = ap (◌∷◌ a) (drop_last-concat (b ∷ s) z)

strip_layer-quoted :
    (q : ℕ) (s : Text) → (q == b'"' || q == b'\'') ≡ true → strip_layer (q ∷ (s ++ q ∷ [])) ≡ s
unfolding strip_layer
strip_layer-quoted q [] h = ground arith
strip_layer-quoted q (a ∷ s) h = ground (arith, last?-concat (a ∷ s) q, drop_last-concat (a ∷ s) q)

quote-Solid : (q : ℕ) → (q == b'"' || q == b'\'') ≡ true → Solid q
unfolding is_white
quote-Solid q h = ground arith

-- A value between two equal quotes comes out as it is, with the white space and the quotes that
-- it begins or ends with.
pub strip_surrounding_quotes-quoted :
    (q : ℕ) (value : Text)
    → (q == b'"' || q == b'\'') ≡ true
    → strip_surrounding_quotes (q ∷ (value ++ q ∷ [])) ≡ value
unfolding strip_surrounding_quotes
strip_surrounding_quotes-quoted q value h =
    rw (trim-Solid q q value (quote-Solid q h) (quote-Solid q h)) (strip_layer-quoted q value h)
