-- ===== src/Core/Mask/Bounds.antt =====
-- Where the ranges that `redact_line` collects lie.
use shellflow.Base.{
  ℕ, zero, suc, ◌+◌, ◌-◌, ◌≤◌, true, not, ◌&&◌, List, [], ◌∷◌, ◌++◌, ◌≡◌, arith, Text, length, inl,
  inr, Bool-cases, Option-cases, is_empty, map, leb, ltb, none, some, if_intro, take,
}
use shellflow.Base.Text.{starts_with, ends_with}
use shellflow.Core.Mask.{Range, le_range, range_insert, sort_ranges, get_from}
use shellflow.Core.Mask.Ranges.{Fits}
use shellflow.Core.Mask.Stream.{
  SecretMasker, Best, match_indices, all_occurrences, occurrences, line_ranges, continue_pending,
  continue_all, tail_prefix, best_mask, best_boundary, open_tail, Pending, continue_rest,
  min_prefix_redact, improves,
}

Fits-append : (n : ℕ) (rs qs : List Range) → Fits n rs → Fits n qs → Fits n (rs ++ qs)
Fits-append n [] qs f g = g
Fits-append n (r ∷ rs) qs f g = (f.0, Fits-append n rs qs f.1 g)

Fits-range_insert :
    (n : ℕ) (r : Range) (rs : List Range) → Fits n (r ∷ rs) → Fits n (range_insert r rs)
unfolding range_insert
Fits-range_insert n r [] f = f
Fits-range_insert n r (q ∷ rs) f = elim (Bool-cases (le_range r q)) [
  | inl e ↦ rw (e, range_insert) f
  | inr e ↦ rw (e, range_insert) (f.1.0, Fits-range_insert n r rs (f.0, f.1.1))
]

Fits-sort_ranges : (n : ℕ) (rs : List Range) → Fits n rs → Fits n (sort_ranges rs)
unfolding sort_ranges
Fits-sort_ranges n [] f = tt
Fits-sort_ranges n (r ∷ rs) f =
    Fits-range_insert n r (sort_ranges rs) (f.0, Fits-sort_ranges n rs f.1)

pub length-starts_with : (p s : Text) → starts_with p s ≡ true → length p ≤ length s
unfolding starts_with
length-starts_with [] s h = omega arith
length-starts_with (a ∷ p) [] h = cc h
length-starts_with (a ∷ p) (c ∷ s) h = ground (arith, length-starts_with p s)

Fits-match_indices :
    (n : ℕ) (p : Text) (i k : ℕ) (s : Text)
    → i + length s ≤ n
    → Fits n (map (λ pos. (pos, length p)) (match_indices p i k s))
unfolding match_indices
Fits-match_indices n p i k [] h = tt
Fits-match_indices n p i (suc k) (c ∷ s) h = Fits-match_indices n p (suc i) k s (omega arith)
Fits-match_indices n p i zero (c ∷ s) h = elim (Bool-cases (starts_with p (c ∷ s))) [
  | inl e ↦
      rw (e, match_indices)
        (
          omega (arith, length-starts_with p (c ∷ s) e),
          Fits-match_indices n p (suc i) (length p - 1) s (omega arith),
        )
  | inr e ↦ rw (e, match_indices) (Fits-match_indices n p (suc i) 0 s (omega arith))
]

Fits-all_occurrences :
    (masks : List Text) (line : Text) → Fits (length line) (all_occurrences masks line)
unfolding all_occurrences
Fits-all_occurrences [] line = tt
Fits-all_occurrences ([] ∷ masks) line = Fits-all_occurrences masks line
Fits-all_occurrences ((a ∷ q) ∷ masks) line =
    Fits-append (length line) _ (all_occurrences masks line)
      (Fits-match_indices (length line) (a ∷ q) 0 0 line (omega arith))
      (Fits-all_occurrences masks line)

FitsFirst : ℕ → List Range × List Pending → Type 0
FitsFirst n r = Fits n r.0

Fits-continue_rest :
    (line secret : Text) (consumed : ℕ) (rest : Text)
    → FitsFirst (length line) (continue_rest line secret consumed rest)
unfolding continue_rest FitsFirst
Fits-continue_rest line secret consumed rest =
    if_intro (FitsFirst (length line)) (is_empty rest) _ _ (λ _. tt)
      (λ _.
        if_intro (FitsFirst (length line)) (not (is_empty line) && starts_with line rest) _ _
          (λ _. (omega arith, tt))
          (λ _.
            if_intro (FitsFirst (length line)) (starts_with rest line) _ _
              (λ e. (omega (arith, length-starts_with rest line e), tt)) (λ _. tt)))

Fits-continue_pending : (line : Text) (p : Pending) → Fits (length line) (continue_pending line p).0
unfolding continue_pending FitsFirst
Fits-continue_pending line (secret, consumed) = elim (Option-cases (get_from secret consumed)) [
  | inl e ↦ rw (e, continue_pending) tt
  | inr (rest, e) ↦ rw (e, continue_pending) (Fits-continue_rest line secret consumed rest)
]

Fits-continue_all : (line : Text) (ps : List Pending) → Fits (length line) (continue_all line ps).0
unfolding continue_all
Fits-continue_all line [] = tt
Fits-continue_all line (p ∷ ps) =
    Fits-append (length line) (continue_pending line p).0 (continue_all line ps).0
      (Fits-continue_pending line p) (Fits-continue_all line ps)

-- The candidate is no longer than the line.
abbrev BestFits : Text → Best → Type 0
BestFits line none = Unit
BestFits line (some (len, _)) = len ≤ length line

BestFits-best_boundary :
    (line secret : Text) (bs : List ℕ) (best : Best)
    → BestFits line best
    → BestFits line (best_boundary line secret bs best)
unfolding best_boundary
BestFits-best_boundary line secret [] best f = f
BestFits-best_boundary line secret (b ∷ bs) best f =
    let later = BestFits-best_boundary line secret bs best f in
    if_intro (BestFits line) (ltb (length line) b) _ _ (λ _. later)
      (λ e.
        if_intro (BestFits line) (not (ends_with (take b secret) line)) _ _ (λ _. later)
          (λ _. if_intro (BestFits line) (improves b best) _ _ (λ _. ground arith) (λ _. f)))

BestFits-best_mask :
    (line : Text) (masks : List Text) (bss : List (List ℕ)) (best : Best)
    → BestFits line best
    → BestFits line (best_mask line masks bss best)
unfolding best_mask
BestFits-best_mask line [] bss best f = f
BestFits-best_mask line (m ∷ masks) [] best f = f
BestFits-best_mask line (m ∷ masks) (bs ∷ bss) best f =
    BestFits-best_mask line masks bss _ (BestFits-best_boundary line m bs best f)

Fits-open_tail :
    (line : Text) (best : Best) → BestFits line best → Fits (length line) (open_tail line best).0
unfolding open_tail
Fits-open_tail line none f = tt
Fits-open_tail line (some (len, secret)) f =
    if_intro (Fits (length line)) (leb min_prefix_redact len) _ _ (λ _. (omega arith, tt)) (λ _. tt)

tail_prefix-BestFits : (m : SecretMasker) (line : Text) → BestFits line (tail_prefix m line)
unfolding tail_prefix
tail_prefix-BestFits m [] = tt
tail_prefix-BestFits m (c ∷ s) = BestFits-best_mask (c ∷ s) m.masks m.boundaries none tt

pub line_ranges-Fits : (m : SecretMasker) (line : Text) → Fits (length line) (line_ranges m line).0
unfolding line_ranges occurrences
line_ranges-Fits m line =
    Fits-append (length line) (continue_all line m.pending).0 _ (Fits-continue_all line m.pending) (
      Fits-append (length line) (sort_ranges (all_occurrences m.masks line)) _
        (Fits-sort_ranges (length line) _ (Fits-all_occurrences m.masks line))
        (Fits-open_tail line (tail_prefix m line) (tail_prefix-BestFits m line)))
