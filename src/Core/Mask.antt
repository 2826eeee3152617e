-- ===== src/Core/Mask.antt =====
-- crates/shellflow-core/src/env.rs, the redaction of secrets in a line: `prepare_masks`,
-- `mask_line`, `mask_token`, `mask_keyed` and `apply_ranges`. The stream masker is in Stream.
pub mod Redacts
pub mod Ranges
pub mod Apart
pub mod Runs
pub mod Bounds
pub mod Hidden
pub mod Line
pub mod Shorts
pub mod Stream
use Prim.Native.Nat.{compare, Ordering, max}
use mathlib.Core.List.{reverse, get_last?, head?}
use shellflow.Base.{
  ℕ, zero, suc, ◌+◌, ◌-◌, Bool, true, false, not, ◌&&◌, ◌||◌, List, [], ◌∷◌, ◌++◌, Option, none,
  some, Text, ◌==◌, ltb, leb, between, if◌then◌else◌, length, is_empty, take, drop, keep, get_elem?,
}
use shellflow.Base.Text.{codes, eq_text, replace, split_once}
use shellflow.Shell.{is_word}

abbrev pub mask : Text
mask = codes "***"

-- `str::cmp`, as the test that `a` comes before `b`.
unfoldable pub lt_text : Text → Text → Bool
lt_text [] [] = false
lt_text [] (y ∷ ys) = true
lt_text (x ∷ xs) [] = false
lt_text (x ∷ xs) (y ∷ ys) =
    let rest = lt_text xs ys in
    elim (compare x y) [ Ordering.lt ↦ true | Ordering.eq ↦ rest | Ordering.gt ↦ false ]

-- The comparison of the sort: longer values first, those of one length by content.
unfoldable pub goes_first : Text → Text → Bool
unfolding lt_text
goes_first a b = ltb (length b) (length a) || length a == length b && lt_text a b

-- Equal values stand for one another, so any sort by this comparison gives the same list.
unfoldable pub sort_insert : Text → List Text → List Text
unfolding goes_first
sort_insert a [] = a ∷ []
sort_insert a (b ∷ bs) =
    let rest = b ∷ sort_insert a bs in elim (goes_first b a) [ true ↦ rest | false ↦ a ∷ b ∷ bs ]

unfoldable pub sort_masks : List Text → List Text
unfolding sort_insert
sort_masks [] = []
sort_masks (a ∷ bs) = sort_insert a (sort_masks bs)

-- `Vec::dedup`: of neighbours that are equal the first stays.
unfoldable pub dedup_after : Text → List Text → List Text
unfolding eq_text
dedup_after a [] = []
dedup_after a (b ∷ bs) = elim (eq_text a b) [
  | true ↦ dedup_after a bs
  | false ↦ b ∷ dedup_after b bs
]

unfoldable pub dedup : List Text → List Text
unfolding dedup_after
dedup [] = []
dedup (a ∷ bs) = a ∷ dedup_after a bs

unfoldable pub prepare_masks : List Text → List Text
unfolding sort_masks dedup
prepare_masks secrets = dedup (sort_masks (keep (λ s. not (is_empty s)) secrets))

-- The loop of `mask_line`.
unfoldable pub mask_each : Text → List Text → Text
unfolding replace
mask_each out [] = out
mask_each out (secret ∷ masks) =
    mask_each (if is_empty secret then out else replace secret mask out) masks

unfoldable pub mask_line : Text → List Text → Text
unfolding mask_each
mask_line line masks = if is_empty masks then line else mask_each line masks

-- `is_none_or(|c| !is_word(c))`
abbrev pub no_word : Option ℕ → Bool
no_word none = true
no_word (some c) = not (is_word c)

-- The `while let` loop of `mask_token`. Every round takes a byte off `rest` at least, so one round
-- more than it has bytes is enough.
unfoldable pub token_loop : ℕ → Text → Text → Text
unfolding split_once
token_loop zero secret rest = rest
token_loop (suc n) secret rest = elim (split_once secret rest) [
  | none ↦ rest
  | some (before, tail) ↦
      before
      ++ ((if no_word (get_last? before) && no_word (head? tail) then mask else secret)
          ++ token_loop n secret tail)
]

unfoldable pub mask_token : Text → Text → Text
unfolding token_loop
mask_token line secret = if is_empty secret then line else token_loop (length line + 1) secret line

unfoldable pub to_lower : ℕ → ℕ
to_lower c = if between b'A' b'Z' c then c + 32 else c

-- `str::eq_ignore_ascii_case`
unfoldable pub eq_ignore_case : Text → Text → Bool
unfolding to_lower
eq_ignore_case [] [] = true
eq_ignore_case (x ∷ xs) (y ∷ ys) = to_lower x == to_lower y && eq_ignore_case xs ys
eq_ignore_case _ _ = false

unfoldable pub take_word : Text → Text
take_word [] = []
take_word (c ∷ s) = let rest = take_word s in if is_word c then c ∷ rest else []

-- `&before[ident_start..]`: the identifier at the end of a text.
unfoldable pub last_ident : Text → Text
unfolding take_word
last_ident before = reverse (take_word (reverse before))

-- The `while let` loop of `replace_keyed`.
unfoldable pub keyed_loop : ℕ → Text → Text → Text → Text
unfolding split_once eq_ignore_case last_ident
keyed_loop zero key suffix rest = rest
keyed_loop (suc n) key suffix rest = elim (split_once suffix rest) [
  | none ↦ rest
  | some (before, after) ↦
      before
      ++ ((if eq_ignore_case (last_ident before) key then b'=' ∷ mask else suffix)
          ++ keyed_loop n key suffix after)
]

unfoldable pub replace_keyed : Text → Text → Text → Text
unfolding keyed_loop
replace_keyed line key suffix = keyed_loop (length line + 1) key suffix line

abbrev pub bare_suffix : Text → Text
bare_suffix value = b'=' ∷ value

abbrev pub single_suffix : Text → Text
single_suffix value = b'=' ∷ b'\'' ∷ (value ++ b'\'' ∷ [])

abbrev pub double_suffix : Text → Text
double_suffix value = b'=' ∷ b'"' ∷ (value ++ b'"' ∷ [])

unfoldable pub mask_keyed : Text → Text → Text → Text
unfolding replace_keyed
mask_keyed line key value =
    if is_empty key || is_empty value
    then line
    else (let out = replace_keyed line key (bare_suffix value) in
        let out' = replace_keyed out key (single_suffix value) in
        replace_keyed out' key (double_suffix value))

-- The narrow rules for the values below the masking threshold.
unfoldable pub mask_shorts : Text → List (Text × Text) → Text
unfolding mask_token mask_keyed
mask_shorts out [] = out
mask_shorts out ((key, value) ∷ shorts) =
    mask_shorts (mask_keyed (mask_token out value) key value) shorts

-- `is_char_boundary`: the end, or a byte that does not continue a character.
unfoldable pub is_boundary : Text → ℕ → Bool
is_boundary s i = elim (get_elem? s i) [ none ↦ i == length s | some c ↦ not (between 0x80 0xBF c) ]

-- `s.get(i..)`
unfoldable pub get_from : Text → ℕ → Option Text
unfolding is_boundary
get_from s i = if is_boundary s i then some (drop i s) else none

-- `s.get(i..j)`
unfoldable pub get_range : Text → ℕ → ℕ → Option Text
unfolding is_boundary
get_range s i j =
    if leb i j && is_boundary s i && is_boundary s j then some (take (j - i) (drop i s)) else none

abbrev pub Range : Type 0
Range = ℕ × ℕ

-- The order of `sort_unstable` on pairs.
abbrev pub le_range : Range → Range → Bool
le_range (a, l) (b, m) = ltb a b || a == b && leb l m

unfoldable pub range_insert : Range → List Range → List Range
range_insert r [] = r ∷ []
range_insert r (q ∷ qs) =
    let rest = q ∷ range_insert r qs in elim (le_range r q) [ true ↦ r ∷ q ∷ qs | false ↦ rest ]

unfoldable pub sort_ranges : List Range → List Range
unfolding range_insert
sort_ranges [] = []
sort_ranges (r ∷ rs) = range_insert r (sort_ranges rs)

-- The merging loop, from ranges `(start, len)` to spans `(start, end)`; the first argument is
-- `merged.last_mut()`.
unfoldable pub merge_into : ℕ → ℕ → List Range → List Range
merge_into a b [] = (a, b) ∷ []
merge_into a b ((start, len) ∷ rs) = elim (leb start b) [
  | true ↦ merge_into a (max b (start + len)) rs
  | false ↦ (a, b) ∷ merge_into start (start + len) rs
]

unfoldable pub merge_ranges : List Range → List Range
unfolding merge_into
merge_ranges [] = []
merge_ranges ((start, len) ∷ rs) = merge_into start (start + len) rs

abbrev or_nothing : Option Text → Text
or_nothing none = []
or_nothing (some s) = s

-- The writing loop, with its cursor.
unfoldable pub write_spans : Text → ℕ → List Range → Text
unfolding get_from get_range
write_spans line cursor [] = or_nothing (get_from line cursor)
write_spans line cursor ((start, end) ∷ spans) =
    or_nothing (get_range line cursor start) ++ (mask ++ write_spans line (max cursor end) spans)

unfoldable pub apply_ranges : Text → List Range → Text
unfolding sort_ranges merge_ranges write_spans
apply_ranges line ranges =
    if is_empty ranges then line else write_spans line 0 (merge_ranges (sort_ranges ranges))
