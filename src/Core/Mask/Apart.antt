-- ===== src/Core/Mask/Apart.antt =====
-- The spans of `merge_ranges`: in order, and apart from each other.
use Prim.Native.Nat.{max}
use shellflow.Base.{
  ℕ, ◌+◌, ◌≤◌, ◌<◌, true, false, ◌||◌, List, [], ◌∷◌, All, ◌≡◌, refl, arith, Text, length, inl, inr,
  Bool-cases, leb,
}
use shellflow.Core.Mask.{
  Range, le_range, range_insert, sort_ranges, merge_into, merge_ranges, is_boundary,
}
use shellflow.Core.Mask.Ranges.{covered, in_span, spanned, Ordered, Ordered-le}

-- A range that is not empty, between characters of the line.
abbrev pub IsWhole : Text → Range → Type 0
IsWhole line (start, len) =
    (1 ≤ len) × (is_boundary line start ≡ true) × (is_boundary line (start + len) ≡ true)

-- Such spans in order, none of which touches the next one.
abbrev pub Apart : Text → ℕ → List Range → Type 0
Apart line cursor [] = Unit
Apart line cursor ((start, end) ∷ spans) =
    (cursor ≤ start)
    × (start < end)
    × (end ≤ length line)
    × (is_boundary line start ≡ true)
    × (is_boundary line end ≡ true)
    × Apart line (end + 1) spans

pub Apart-le :
    (line : Text) (c c' : ℕ) (spans : List Range)
    → c' ≤ c
    → Apart line c spans
    → Apart line c' spans
Apart-le line c c' [] h o = tt
Apart-le line c c' ((start, end) ∷ spans) h (a, b, d, e, f, g) = (omega arith, b, d, e, f, g)

pub spanned-Apart :
    (line : Text) (i c : ℕ) (spans : List Range)
    → Apart line c spans
    → i < c
    → spanned i spans ≡ false
spanned-Apart line i c [] o h = refl
spanned-Apart line i c ((start, end) ∷ spans) (a, b, d, e, f, g) h =
    ground (arith, spanned-Apart line i (end + 1) spans g)

All-range_insert :
    (P : Range → Type 0) (r : Range) (rs : List Range) → P r → All P rs → All P (range_insert r rs)
unfolding range_insert
All-range_insert P r [] h hs = (h, tt)
All-range_insert P r (q ∷ rs) h (g, gs) = elim (Bool-cases (le_range r q)) [
  | inl e ↦ rw (e, range_insert) (h, (g, gs))
  | inr e ↦ rw (e, range_insert) (g, All-range_insert P r rs h gs)
]

pub All-sort_ranges : (P : Range → Type 0) (rs : List Range) → All P rs → All P (sort_ranges rs)
unfolding sort_ranges
All-sort_ranges P [] h = tt
All-sort_ranges P (r ∷ rs) (h, hs) =
    All-range_insert P r (sort_ranges rs) h (All-sort_ranges P rs hs)

boundary_max :
    (line : Text) (a b : ℕ)
    → is_boundary line a ≡ true
    → is_boundary line b ≡ true
    → is_boundary line (max a b) ≡ true
boundary_max line a b h k = elim (Bool-cases (leb a b)) [
  | inl e ↦ let m : max a b ≡ b = ground arith in rw m k
  | inr e ↦ let m : max a b ≡ a = ground arith in rw m h
]

merge_into-Apart :
    (line : Text) (a b : ℕ) (rs : List Range)
    → a < b
    → b ≤ length line
    → is_boundary line a ≡ true
    → is_boundary line b ≡ true
    → Ordered (length line) a rs
    → All (IsWhole line) rs
    → Apart line a (merge_into a b rs)
unfolding merge_into
merge_into-Apart line a b [] h k ba bb o w = (omega arith, h, k, ba, bb, tt)
merge_into-Apart line a b ((start, len) ∷ rs) h k ba bb (l, f, o) ((n, bs, be), ws) =
    elim (Bool-cases (leb start b)) [
      | inl e ↦
          rw (e, merge_into)
            (merge_into-Apart line a (max b (start + len)) rs (omega arith) (omega arith) ba
              (boundary_max line b (start + len) bb be) (Ordered-le (length line) start a rs l o)
              ws)
      | inr e ↦
          rw (e, merge_into)
            (
              omega arith,
              h,
              k,
              ba,
              bb,
              Apart-le line start (b + 1) (merge_into start (start + len) rs) (ground arith)
                  (merge_into-Apart line start (start + len) rs (omega arith) f bs be o ws),
            )
    ]

spanned-merge_into :
    (n i a b : ℕ) (rs : List Range)
    → a ≤ b
    → Ordered n a rs
    → spanned i (merge_into a b rs) ≡ (in_span i (a, b) || covered i rs)
unfolding merge_into
spanned-merge_into n i a b [] h o = refl
spanned-merge_into n i a b ((start, len) ∷ rs) h (l, f, o) = ground (
  arith,
  spanned-merge_into n i a (max b (start + len)) rs (omega arith) (Ordered-le n start a rs l o),
  spanned-merge_into n i start (start + len) rs (omega arith) o,
)

pub spanned-merge_ranges :
    (n i : ℕ) (rs : List Range) → Ordered n 0 rs → spanned i (merge_ranges rs) ≡ covered i rs
unfolding merge_ranges
spanned-merge_ranges n i [] o = refl
spanned-merge_ranges n i ((start, len) ∷ rs) (l, f, o) =
    spanned-merge_into n i start (start + len) rs (omega arith) o

pub merge_ranges-Apart :
    (line : Text) (rs : List Range)
    → Ordered (length line) 0 rs
    → All (IsWhole line) rs
    → Apart line 0 (merge_ranges rs)
unfolding merge_ranges
merge_ranges-Apart line [] o w = tt
merge_ranges-Apart line ((start, len) ∷ rs) (l, f, o) ((n, bs, be), ws) =
    Apart-le line start 0 (merge_into start (start + len) rs) (omega arith)
      (merge_into-Apart line start (start + len) rs (omega arith) f bs be o ws)
