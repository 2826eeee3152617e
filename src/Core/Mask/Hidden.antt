-- ===== src/Core/Mask/Hidden.antt =====
-- What `redact_line` hides.
use mathlib.Core.List.{Memᴰ}
use shellflow.Base.{
  ℕ, zero, suc, ◌+◌, ◌-◌, ◌≤◌, ◌<◌, Bool, true, false, ◌||◌, List, [], ◌∷◌, ◌++◌, ◌≡◌, ◌≢◌, refl,
  sym, ap, ◌∙◌, arith, Text, length, inl, inr, Bool-cases, any, map, subst,
}
use shellflow.Base.Text.{starts_with, contains}
use shellflow.Core.Mask.{Range, apply_ranges, sort_ranges}
use shellflow.Core.Mask.Redacts.{
  Stands, byte, Occurs, here, there, IsPlain, Occurs-Redacts, starts_with-Stands,
}
use shellflow.Core.Mask.Shorts.{contains-mask_shorts}
use shellflow.Core.Mask.Bounds.{line_ranges-Fits}
use shellflow.Core.Mask.Ranges.{in_range, covered, covered-sort_ranges, apply_ranges-Redacts}
use shellflow.Core.Mask.Stream.{
  SecretMasker, match_indices, all_occurrences, occurrences, line_ranges, redact_line, continue_all,
  tail_prefix, open_tail,
}

-- A match at one of the offsets covers the byte at `x`.
abbrev matched : ℕ → ℕ → List ℕ → Bool
matched n x = any (λ pos. in_range x (pos, n))

match_indices_hit :
    (a : ℕ) (q : Text) (i c : ℕ) (s : Text)
    → starts_with (a ∷ q) (c ∷ s) ≡ true
    → match_indices (a ∷ q) i 0 (c ∷ s) ≡ i ∷ match_indices (a ∷ q) (suc i) (length q) s
unfolding match_indices
match_indices_hit a q i c s e =
    let n : suc (length q) - 1 ≡ length q = omega arith in rw (e, match_indices, n)

match_indices_miss :
    (a : ℕ) (q : Text) (i c : ℕ) (s : Text)
    → starts_with (a ∷ q) (c ∷ s) ≡ false
    → match_indices (a ∷ q) i 0 (c ∷ s) ≡ match_indices (a ∷ q) (suc i) 0 s
unfolding match_indices
match_indices_miss a q i c s e = rw (e, match_indices)

match_indices_skip :
    (a : ℕ) (q : Text) (i k c : ℕ) (s : Text)
    → match_indices (a ∷ q) i (suc k) (c ∷ s) ≡ match_indices (a ∷ q) (suc i) k s
unfolding match_indices
match_indices_skip a q i k c s = refl

head_kept : {P : ℕ → Type 0} {i a c : ℕ} {q s : Text} → Stands P i (a ∷ q) (c ∷ s) → P i
head_kept (byte _ _ e p st) = p

-- An occurrence of a value that is not empty has a byte that a match covers.
Occurs-match_indices :
    {P : ℕ → Type 0} (a : ℕ) (q : Text) (s : Text) (i k : ℕ)
    → ((x : ℕ) → P x → i ≤ x → x < i + k → ⊥)
    → ((x : ℕ) → P x → i ≤ x → matched (suc (length q)) x (match_indices (a ∷ q) i k s) ≡ false)
    → Occurs P i (a ∷ q) s
    → ⊥
Occurs-match_indices a q [] i k f g (here st) = elim st [ ]
Occurs-match_indices a q (c ∷ s) i zero f g (here st) =
    let e = starts_with-Stands st in
    let p = head_kept st in ground (arith, match_indices_hit a q i c s e, g i p (omega arith))
Occurs-match_indices a q (c ∷ s) i zero f g (there _ o) =
    elim (Bool-cases (starts_with (a ∷ q) (c ∷ s))) [
      | inl e ↦
          Occurs-match_indices a q s (suc i) (length q)
            (λ x p h h'. ground (arith, match_indices_hit a q i c s e, g x p (omega arith)))
            (λ x p h. ground (arith, match_indices_hit a q i c s e, g x p (omega arith))) o
      | inr e ↦
          Occurs-match_indices a q s (suc i) zero (λ x p h h'. omega arith)
            (λ x p h. rw (match_indices_miss a q i c s e) at (g x p (omega arith))) o
    ]
Occurs-match_indices a q (c ∷ s) i (suc k) f g (here (byte _ _ e p st)) =
    f i p (omega arith) (omega arith)
Occurs-match_indices a q (c ∷ s) i (suc k) f g (there _ o) =
    Occurs-match_indices a q s (suc i) k (λ x p h h'. f x p (omega arith) (omega arith))
      (λ x p h. rw (match_indices_skip a q i k c s) at (g x p (omega arith))) o

covered-append :
    (x : ℕ) (rs qs : List Range) → covered x (rs ++ qs) ≡ (covered x rs || covered x qs)
covered-append x [] qs = refl
covered-append x (r ∷ rs) qs = ground (arith, covered-append x rs qs)

covered-map : (x n : ℕ) (ps : List ℕ) → covered x (map (λ pos. (pos, n)) ps) ≡ matched n x ps
covered-map x n [] = refl
covered-map x n (pos ∷ ps) = ground (arith, covered-map x n ps)

all_occurrences-cons :
    (x a : ℕ) (q line : Text) (masks : List Text)
    → covered x (all_occurrences ((a ∷ q) ∷ masks) line) ≡ (
        matched (suc (length q)) x (match_indices (a ∷ q) 0 0 line)
        || covered x (all_occurrences masks line))
unfolding all_occurrences
all_occurrences-cons x a q line masks =
    covered-append x (map (λ pos. (pos, suc (length q))) (match_indices (a ∷ q) 0 0 line))
      (all_occurrences masks line)
    ∙ ap (λ b. b || covered x (all_occurrences masks line))
        (covered-map x (suc (length q)) (match_indices (a ∷ q) 0 0 line))

all_occurrences_rest :
    (x : ℕ) (m line : Text) (masks : List Text)
    → covered x (all_occurrences (m ∷ masks) line) ≡ false
    → covered x (all_occurrences masks line) ≡ false
unfolding all_occurrences
all_occurrences_rest x [] line masks h = h
all_occurrences_rest x (a ∷ q) line masks h = ground (arith, all_occurrences-cons x a q line masks)

-- What no range of the values covers, no match of one of them covers.
matched-all_occurrences :
    (x a : ℕ) (q line : Text) (masks : List Text)
    → Memᴰ (a ∷ q) masks
    → covered x (all_occurrences masks line) ≡ false
    → matched (suc (length q)) x (match_indices (a ∷ q) 0 0 line) ≡ false
matched-all_occurrences x a q line [] d h = elim d [ ]
matched-all_occurrences x a q line (m ∷ masks) (Memᴰ.head e) h = ground (
  arith,
  all_occurrences-cons x a q line masks,
  subst (λ t. covered x (all_occurrences (t ∷ masks) line) ≡ false) (sym e) h,
)
matched-all_occurrences x a q line (m ∷ masks) (Memᴰ.tail d) h =
    matched-all_occurrences x a q line masks d (all_occurrences_rest x m line masks h)

-- The bytes that the long rules keep hold no occurrence of a long value.
kept-Occurs :
    (m : SecretMasker) (line : Text) (a : ℕ) (q : Text)
    → Memᴰ (a ∷ q) m.masks
    → Occurs (λ i. covered i (line_ranges m line).0 ≡ false) 0 (a ∷ q) line
    → ⊥
unfolding line_ranges occurrences
kept-Occurs m line a q d o =
    Occurs-match_indices a q line 0 0 (λ x p h h'. omega arith)
      (λ x p h. matched-all_occurrences x a q line m.masks d (
        ground (
          arith,
          covered-append x (continue_all line m.pending).0 (
              sort_ranges (all_occurrences m.masks line)
              ++ (open_tail line (tail_prefix m line)).0),
          covered-append x (sort_ranges (all_occurrences m.masks line))
              (open_tail line (tail_prefix m line)).0,
          covered-sort_ranges x (all_occurrences m.masks line),
        )))
      o

contains-apply_ranges :
    (m : SecretMasker) (line : Text) (a : ℕ) (q : Text)
    → Memᴰ (a ∷ q) m.masks
    → IsPlain (a ∷ q)
    → contains (a ∷ q) (apply_ranges line (line_ranges m line).0) ≡ false
contains-apply_ranges m line a q d l =
    let out = apply_ranges line (line_ranges m line).0 in
    elim (Bool-cases (contains (a ∷ q) out)) [
      | inl e ↦ absurd (
          kept-Occurs m line a q d (
            Occurs-Redacts a q
              (apply_ranges-Redacts line (line_ranges m line).0 (line_ranges-Fits m line)) l e))
      | inr e ↦ e
    ]

-- No line that `redact_line` returns holds a value of the masker's masks that is not empty and free of
-- `*`, in whatever state the lines before have left the masker.
pub contains-redact_line :
    (m : SecretMasker) (line secret : Text)
    → Memᴰ secret m.masks
    → secret ≢ []
    → IsPlain secret
    → contains secret (redact_line m line).0 ≡ false
unfolding redact_line
contains-redact_line m line [] d ne l = absurd (ne refl)
contains-redact_line m [] (a ∷ q) d ne l =
    contains-mask_shorts (a ∷ q) ne l m.shorts [] (unfold contains starts_with in refl)
contains-redact_line m (c ∷ s) (a ∷ q) d ne l =
    contains-mask_shorts (a ∷ q) ne l m.shorts (apply_ranges (c ∷ s) (line_ranges m (c ∷ s)).0)
      (contains-apply_ranges m (c ∷ s) a q d l)
