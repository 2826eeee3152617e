-- ===== src/Core/Mask/Stream.antt =====
-- `SecretMasker`: the redaction of a stream of lines, with the values that a line broke off.
use mathlib.Core.List.{reverse}
use shellflow.Base.{
  ℕ, zero, suc, ◌+◌, ◌-◌, Bool, true, false, not, ◌&&◌, List, [], ◌∷◌, ◌++◌, Option, none, some,
  Text, ltb, leb, between, if◌then◌else◌, length, is_empty, take, drop, map,
}
use shellflow.Base.Text.{starts_with, ends_with}
use shellflow.Core.Mask.{Range, mask_line, mask_shorts, get_from, sort_ranges, apply_ranges}

-- A value of which the first bytes, so many, have been seen.
abbrev pub Pending : Type 0
Pending = Text × ℕ

-- The `Arc`s share what is never written, so they are values here.
pub record SecretMasker : Type 0 where
  pub masks : List Text
  pub boundaries : List (List ℕ)
  pub shorts : List (Text × Text)
  pub pending : List Pending

-- The offsets of the characters of a text that stands at offset `i`.
unfoldable pub char_offsets : ℕ → Text → List ℕ
char_offsets i [] = []
char_offsets i (c ∷ s) =
    let rest = char_offsets (i + 1) s in if between 0x80 0xBF c then rest else i ∷ rest

unfoldable pub prefix_boundaries : Text → List ℕ
unfolding char_offsets
prefix_boundaries s = reverse (drop 1 (char_offsets 0 s))

unfoldable pub new : List Text → List (Text × Text) → SecretMasker
unfolding prefix_boundaries
new masks shorts = record {
  masks = masks;
  boundaries = map prefix_boundaries masks;
  shorts = shorts;
  pending = [];
}

unfoldable pub redact_text : SecretMasker → Text → Text
unfolding mask_line mask_shorts
redact_text m text = mask_shorts (mask_line text m.masks) m.shorts

-- `match_indices`: leftmost matches that do not overlap, from offset `i`; the second number counts
-- the bytes of the last match that are still to be skipped.
unfoldable pub match_indices : Text → ℕ → ℕ → Text → List ℕ
unfolding starts_with
match_indices p i k [] = []
match_indices p i (suc k) (c ∷ s) = match_indices p (suc i) k s
match_indices p i zero (c ∷ s) = elim (starts_with p (c ∷ s)) [
  | true ↦ i ∷ match_indices p (suc i) (length p - 1) s
  | false ↦ match_indices p (suc i) 0 s
]

unfoldable pub all_occurrences : List Text → Text → List Range
unfolding match_indices
all_occurrences [] line = []
all_occurrences (secret ∷ masks) line =
    (if is_empty secret
      then []
      else map (λ pos. (pos, length secret)) (match_indices secret 0 0 line))
    ++ all_occurrences masks line

unfoldable pub occurrences : SecretMasker → Text → List Range
unfolding all_occurrences sort_ranges
occurrences m line = sort_ranges (all_occurrences m.masks line)

-- The `best` candidate: the length of the prefix and the value.
abbrev pub Best : Type 0
Best = Option (ℕ × Text)

abbrev pub improves : ℕ → Best → Bool
improves boundary none = true
improves boundary (some (len, _)) = ltb len boundary

-- The inner loop, over the boundaries of one value, which breaks at the first suffix that fits. The
-- reject by the first byte is part of the test: `ends_with` fails where the first bytes differ.
unfoldable pub best_boundary : Text → Text → List ℕ → Best → Best
unfolding ends_with
best_boundary line secret [] best = best
best_boundary line secret (boundary ∷ bs) best =
    let rest = best_boundary line secret bs best in
    if ltb (length line) boundary
    then rest
    else if not (ends_with (take boundary secret) line)
    then rest
    else if improves boundary best
    then some (boundary, secret)
    else best

unfoldable pub best_mask : Text → List Text → List (List ℕ) → Best → Best
unfolding best_boundary
best_mask line [] bss best = best
best_mask line (secret ∷ masks) [] best = best
best_mask line (secret ∷ masks) (bs ∷ bss) best =
    best_mask line masks bss (best_boundary line secret bs best)

unfoldable pub tail_prefix : SecretMasker → Text → Best
unfolding best_mask
tail_prefix m line = if is_empty line then none else best_mask line m.masks m.boundaries none

-- What stays pending of a value that goes on behind the line: only a value with bytes left.
unfoldable pub still_pending : Text → ℕ → List Pending
unfolding get_from
still_pending secret consumed = elim (get_from secret consumed) [
  | none ↦ []
  | some remainder ↦ if is_empty remainder then [] else (secret, consumed) ∷ []
]

-- What one pending value does with the next line, when its bytes `rest` are still to come: the
-- ranges it adds, and what stays pending.
unfoldable pub continue_rest : Text → Text → ℕ → Text → List Range × List Pending
unfolding still_pending starts_with
continue_rest line secret consumed rest =
    if is_empty rest
    then ([], [])
    else if not (is_empty line) && starts_with line rest
    then ((0, length line) ∷ [], still_pending secret (consumed + length line))
    else if starts_with rest line
    then ((0, length rest) ∷ [], [])
    else ([], [])

unfoldable pub continue_pending : Text → Pending → List Range × List Pending
unfolding get_from continue_rest
continue_pending line (secret, consumed) = elim (get_from secret consumed) [
  | none ↦ ([], [])
  | some rest ↦ continue_rest line secret consumed rest
]

unfoldable pub continue_all : Text → List Pending → List Range × List Pending
unfolding continue_pending
continue_all line [] = ([], [])
continue_all line (p ∷ ps) =
    let (ranges, kept) = continue_pending line p in
    let (ranges', kept') = continue_all line ps in (ranges ++ ranges', kept ++ kept')

abbrev pub min_prefix_redact : ℕ
min_prefix_redact = 4

-- Step 3 of `redact_line`: the range and the pending entry of a value that starts at the tail.
unfoldable pub open_tail : Text → Best → List Range × List Pending
open_tail line none = ([], [])
open_tail line (some (prefix_len, secret)) = (
  (if leb min_prefix_redact prefix_len then (length line - prefix_len, prefix_len) ∷ [] else []),
  (secret, prefix_len) ∷ [],
)

-- The ranges of a line that is not empty, and the pending values after it.
unfoldable pub line_ranges : SecretMasker → Text → List Range × List Pending
unfolding continue_all occurrences tail_prefix open_tail
line_ranges m line =
    let (ranges, kept) = continue_all line m.pending in
    let (tail_ranges, opened) = open_tail line (tail_prefix m line) in
    (ranges ++ (occurrences m line ++ tail_ranges), kept ++ opened)

unfoldable pub redact_line : SecretMasker → Text → Text × SecretMasker
unfolding line_ranges apply_ranges mask_shorts
redact_line m [] = (mask_shorts [] m.shorts, m)
redact_line m (c ∷ s) =
    let line = c ∷ s in
    let (ranges, pending) = line_ranges m line in
    (mask_shorts (apply_ranges line ranges) m.shorts, record m { pending = pending })
