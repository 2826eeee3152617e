-- ===== src/Base/Text/Search.antt =====
-- Comparing and searching: `==`, `starts_with`, `strip_prefix`, `contains`, `split_once`,
-- `rsplit_once`, `replace`.
use Prim.Native.Nat.{ℕ, zero, suc, ◌-◌}
use mathlib.Core.Path.{◌≡◌, refl, ap}
use mathlib.Core.Logic.{◌↔◌, inl, inr}
use mathlib.Core.Bool.{Bool, true, false, ◌&&◌, ◌||◌}
use mathlib.Core.List.{List, [], ◌∷◌, ◌++◌, reverse}
use mathlib.Core.Option.{Option, none, some}
use native.Mathlib.Omega.{arith}
use shellflow.Base.Tests.{◌==◌, if◌then◌else◌, Bool-cases, Option-cases}
use shellflow.Base.Lists.{length}

unfoldable pub eq_text : List ℕ → List ℕ → Bool
eq_text [] [] = true
eq_text (x ∷ xs) (y ∷ ys) = x == y && eq_text xs ys
eq_text _ _ = false

unfoldable pub starts_with : List ℕ → List ℕ → Bool
starts_with [] s = true
starts_with (p ∷ ps) [] = false
starts_with (p ∷ ps) (c ∷ s) = p == c && starts_with ps s

-- What follows the prefix.
unfoldable pub strip_prefix : List ℕ → List ℕ → Option (List ℕ)
strip_prefix [] s = some s
strip_prefix (p ∷ ps) [] = none
strip_prefix (p ∷ ps) (c ∷ s) = if p == c then strip_prefix ps s else none

unfoldable pub contains : List ℕ → List ℕ → Bool
unfolding starts_with
contains p [] = starts_with p []
contains p (c ∷ s) = starts_with p (c ∷ s) || contains p s

abbrev shift_left : ℕ → Option (List ℕ × List ℕ) → Option (List ℕ × List ℕ)
shift_left c none = none
shift_left c (some (before, after)) = some (c ∷ before, after)

-- The text before the first occurrence of `p`, and the text behind it.
unfoldable pub split_once : List ℕ → List ℕ → Option (List ℕ × List ℕ)
unfolding strip_prefix
split_once p [] = elim (strip_prefix p []) [ none ↦ none | some after ↦ some ([], after) ]
split_once p (c ∷ s) =
    let rest = shift_left c (split_once p s) in
    elim (strip_prefix p (c ∷ s)) [ none ↦ rest | some after ↦ some ([], after) ]

-- The same at the last occurrence of a single byte.
unfoldable pub rsplit_once : ℕ → List ℕ → Option (List ℕ × List ℕ)
rsplit_once b [] = none
rsplit_once b (c ∷ s) = elim (rsplit_once b s) [
  | some (before, after) ↦ some (c ∷ before, after)
  | none ↦ if c == b then some ([], s) else none
]

-- `str::replace` of a pattern that is not empty: leftmost matches that do not overlap. The number
-- counts the bytes of the last match that are still to be skipped.
unfoldable pub replace_skip : List ℕ → List ℕ → ℕ → List ℕ → List ℕ
unfolding starts_with
replace_skip p new k [] = []
replace_skip p new (suc k) (c ∷ s) = replace_skip p new k s
replace_skip p new zero (c ∷ s) = elim (starts_with p (c ∷ s)) [
  | true ↦ new ++ replace_skip p new (length p - 1) s
  | false ↦ c ∷ replace_skip p new zero s
]

unfoldable pub replace : List ℕ → List ℕ → List ℕ → List ℕ
unfolding replace_skip
replace p new s = replace_skip p new 0 s

unfoldable pub ends_with : List ℕ → List ℕ → Bool
unfolding starts_with
ends_with p s = starts_with (reverse p) (reverse s)

pub eq_text_iff : (a b : List ℕ) → (eq_text a b ≡ true) ↔ (a ≡ b)
unfolding eq_text
eq_text_iff [] [] = ground arith
eq_text_iff (x ∷ a) (y ∷ b) = ground (arith, eq_text_iff a b)
eq_text_iff _ _ = ground arith

pub eq_text_refl : (a : List ℕ) → eq_text a a ≡ true
eq_text_refl a = (eq_text_iff a a).1 refl

pub starts_with-append : (p s : List ℕ) → starts_with p (p ++ s) ≡ true
unfolding starts_with
starts_with-append [] s = refl
starts_with-append (c ∷ p) s = ground (arith, starts_with-append p s)

pub strip_prefix-append : (p s : List ℕ) → strip_prefix p (p ++ s) ≡ some s
unfolding strip_prefix
strip_prefix-append [] s = refl
strip_prefix-append (c ∷ p) s = ground (arith, strip_prefix-append p s)

pub strip_prefix-eq_some : (p s r : List ℕ) → strip_prefix p s ≡ some r → s ≡ p ++ r
unfolding strip_prefix
strip_prefix-eq_some [] s r h = ground arith
strip_prefix-eq_some (p ∷ ps) [] r h = ground arith
strip_prefix-eq_some (p ∷ ps) (c ∷ s) r h = ground (arith, strip_prefix-eq_some ps s r)

split_once-shift :
    (c : ℕ) (o : Option (List ℕ × List ℕ)) (before after : List ℕ)
    → shift_left c o ≡ some (before, after)
    → (b : List ℕ) × (o ≡ some (b, after)) × (before ≡ c ∷ b)
split_once-shift c none before after h = cc
split_once-shift c (some (b, a)) before after h = (b, ground arith, ground arith)

-- The parts of a split put the text together again.
pub split_once-eq_some :
    (p s before after : List ℕ) → split_once p s ≡ some (before, after) → s ≡ before ++ (p ++ after)
unfolding split_once
split_once-eq_some p [] before after h = ground (arith, strip_prefix-eq_some p [] after)
split_once-eq_some p (c ∷ s) before after h = elim (Option-cases (strip_prefix p (c ∷ s))) [
  | inl e ↦
      let (b, e₁, e₂) =
        split_once-shift c (split_once p s) before after (rw (e, split_once) at h) in
      rw e₂ (ap (◌∷◌ c) (split_once-eq_some p s b after e₁))
  | inr (r, e) ↦ ground (arith, strip_prefix-eq_some p (c ∷ s) after)
]

-- A text is found where it stands first.
pub split_once_byte :
    (b : ℕ) (before after : List ℕ)
    → contains (b ∷ []) before ≡ false
    → split_once (b ∷ []) (before ++ b ∷ after) ≡ some (before, after)
unfolding split_once contains
split_once_byte b [] after h = ground arith
split_once_byte b (c ∷ before) after h = ground (arith, split_once_byte b before after)

pub split_once_byte-eq_some :
    (b : ℕ) (s before after : List ℕ)
    → split_once (b ∷ []) s ≡ some (before, after)
    → contains (b ∷ []) before ≡ false
unfolding split_once contains
split_once_byte-eq_some b [] before after h = ground arith
split_once_byte-eq_some b (c ∷ s) before after h = elim (Bool-cases (b == c)) [
  | inl e ↦ ground arith
  | inr e ↦
      let (r, e₁, e₂) = split_once-shift c (split_once (b ∷ []) s) before after (ground arith) in
      rw e₂ (ground (arith, split_once_byte-eq_some b s r after))
]

pub split_once_byte-eq_none :
    (b : ℕ) (s : List ℕ) → contains (b ∷ []) s ≡ false → split_once (b ∷ []) s ≡ none
unfolding split_once contains
split_once_byte-eq_none b [] h = refl
split_once_byte-eq_none b (c ∷ s) h = ground (arith, split_once_byte-eq_none b s)

pub contains_byte-append :
    (b : ℕ) (s t : List ℕ)
    → contains (b ∷ []) (s ++ t) ≡ (contains (b ∷ []) s || contains (b ∷ []) t)
unfolding contains
contains_byte-append b [] t = refl
contains_byte-append b (c ∷ s) t = ground (arith, contains_byte-append b s t)
