-- ===== src/Core/Mask/Ranges.antt =====
-- `apply_ranges`, and the bytes that it keeps.
use Prim.Native.Nat.{max}
use shellflow.Base.{
  ℕ, zero, suc, ◌+◌, ◌-◌, ◌≤◌, ◌<◌, Bool, false, ◌&&◌, ◌||◌, List, [], ◌∷◌, ◌++◌, ◌≡◌, refl, sym,
  arith, Text, length, inl, inr, ◌⊎◌, Bool-cases, take, drop, take-append-drop, any, leb, ltb,
  length-drop, length-take, ◌∙◌, append-nil, subst,
}
use shellflow.Core.Mask.{
  Range, le_range, range_insert, sort_ranges, merge_into, merge_ranges, get_from, get_range,
  write_spans, apply_ranges, mask, or_nothing,
}
use shellflow.Core.Mask.Redacts.{Redacts, cut, hide, Redacts-append, Redacts-mono, Redacts-refl}

-- Offset `i` lies in a range.
abbrev pub in_range : ℕ → Range → Bool
in_range i (start, len) = leb start i && ltb i (start + len)

abbrev pub covered : ℕ → List Range → Bool
covered i = any (in_range i)

-- The same for spans.
abbrev pub in_span : ℕ → Range → Bool
in_span i (start, end) = leb start i && ltb i end

abbrev pub spanned : ℕ → List Range → Bool
spanned i = any (in_span i)

-- Spans in order, each behind the cursor, inside a text of `n` bytes.
abbrev Chain : ℕ → ℕ → List Range → Type 0
Chain n cursor [] = Unit
Chain n cursor ((start, end) ∷ spans) =
    (cursor ≤ start) × (start ≤ end) × (end ≤ n) × Chain n end spans

-- Ranges inside a text of `n` bytes.
abbrev pub Fits : ℕ → List Range → Type 0
Fits n [] = Unit
Fits n ((start, len) ∷ rs) = (start + len ≤ n) × Fits n rs

-- Such ranges that start at `lo` or behind, in the order of their starts.
abbrev pub Ordered : ℕ → ℕ → List Range → Type 0
Ordered n lo [] = Unit
Ordered n lo ((start, len) ∷ rs) = (lo ≤ start) × (start + len ≤ n) × Ordered n start rs

pub Ordered-le : (n lo lo' : ℕ) (rs : List Range) → lo' ≤ lo → Ordered n lo rs → Ordered n lo' rs
Ordered-le n lo lo' [] h o = tt
Ordered-le n lo lo' ((start, len) ∷ rs) h o = (omega arith, o.1, o.2)

range_insert-Ordered :
    (n lo start len : ℕ) (rs : List Range)
    → lo ≤ start
    → start + len ≤ n
    → Ordered n lo rs
    → Ordered n lo (range_insert (start, len) rs)
unfolding range_insert
range_insert-Ordered n lo start len [] h f o = (h, f, tt)
range_insert-Ordered n lo start len ((b, m) ∷ rs) h f o =
    elim (Bool-cases (le_range (start, len) (b, m))) [
      | inl e ↦ rw (e, range_insert) (h, f, (ground arith, o.1, o.2))
      | inr e ↦
          rw (e, range_insert)
            (o.0, o.1, range_insert-Ordered n b start len rs (ground arith) f o.2)
    ]

pub sort_ranges-Ordered : (n : ℕ) (rs : List Range) → Fits n rs → Ordered n 0 (sort_ranges rs)
unfolding sort_ranges
sort_ranges-Ordered n [] f = tt
sort_ranges-Ordered n ((start, len) ∷ rs) f =
    range_insert-Ordered n 0 start len (sort_ranges rs) (omega arith) f.0
      (sort_ranges-Ordered n rs f.1)

covered-range_insert :
    (i : ℕ) (r : Range) (rs : List Range)
    → covered i (range_insert r rs) ≡ (in_range i r || covered i rs)
unfolding range_insert
covered-range_insert i r [] = refl
covered-range_insert i r (q ∷ rs) = ground (arith, covered-range_insert i r rs)

pub covered-sort_ranges : (i : ℕ) (rs : List Range) → covered i (sort_ranges rs) ≡ covered i rs
unfolding sort_ranges
covered-sort_ranges i [] = refl
covered-sort_ranges i (r ∷ rs) =
    rw (covered-range_insert i r (sort_ranges rs), covered-sort_ranges i rs)

Chain-le : (n c c' : ℕ) (spans : List Range) → c' ≤ c → Chain n c spans → Chain n c' spans
Chain-le n c c' [] h o = tt
Chain-le n c c' ((start, end) ∷ spans) h o = (omega arith, o.1, o.2, o.3)

merge_into-Chain :
    (n a b : ℕ) (rs : List Range) → a ≤ b → b ≤ n → Ordered n a rs → Chain n a (merge_into a b rs)
unfolding merge_into
merge_into-Chain n a b [] h k o = (omega arith, h, k, tt)
merge_into-Chain n a b ((start, len) ∷ rs) h k o = elim (Bool-cases (leb start b)) [
  | inl e ↦
      rw (e, merge_into)
        (merge_into-Chain n a (max b (start + len)) rs (omega arith) (omega (arith, o.1))
          (Ordered-le n start a rs o.0 o.2))
  | inr e ↦
      rw (e, merge_into)
        (
          omega arith,
          h,
          k,
          Chain-le n start b (merge_into start (start + len) rs) (ground arith)
              (merge_into-Chain n start (start + len) rs (omega arith) o.1 o.2),
        )
]

-- What no span covers, no range covers.
covered-merge_into :
    (n i a b : ℕ) (rs : List Range)
    → Ordered n a rs
    → spanned i (merge_into a b rs) ≡ false
    → (in_span i (a, b) ≡ false) × (covered i rs ≡ false)
unfolding merge_into
covered-merge_into n i a b [] o h = (ground arith, refl)
covered-merge_into n i a b ((start, len) ∷ rs) o h = ground (
  arith,
  covered-merge_into n i a (max b (start + len)) rs (Ordered-le n start a rs o.0 o.2),
  covered-merge_into n i start (start + len) rs o.2,
)

merge_ranges-Chain : (n : ℕ) (rs : List Range) → Ordered n 0 rs → Chain n 0 (merge_ranges rs)
unfolding merge_ranges
merge_ranges-Chain n [] o = tt
merge_ranges-Chain n ((start, len) ∷ rs) o =
    Chain-le n start 0 (merge_into start (start + len) rs) (omega arith)
      (merge_into-Chain n start (start + len) rs (omega arith) o.1 o.2)

covered-merge_ranges :
    (n i : ℕ) (rs : List Range)
    → Ordered n 0 rs
    → spanned i (merge_ranges rs) ≡ false
    → covered i rs ≡ false
unfolding merge_ranges
covered-merge_ranges n i [] o h = refl
covered-merge_ranges n i ((start, len) ∷ rs) o h =
    ground (arith, covered-merge_into n i start (start + len) rs o.2 h)

spanned-Chain : (n i c : ℕ) (spans : List Range) → Chain n c spans → i < c → spanned i spans ≡ false
spanned-Chain n i c [] o h = refl
spanned-Chain n i c ((start, end) ∷ spans) o h = ground (arith, spanned-Chain n i end spans o.3)

take-nil : (n : ℕ) → take {A = ℕ} n [] ≡ []
take-nil zero = refl
take-nil (suc n) = refl

pub take-drop : (a b : ℕ) (xs : Text) → a ≤ b → drop a xs ≡ take (b - a) (drop a xs) ++ drop b xs
take-drop zero b xs h = let e : b - 0 ≡ b = omega arith in rw e (sym (take-append-drop b xs))
take-drop (suc a) zero xs h = elim h [ ]
take-drop (suc a) (suc b) [] h = rw (append-nil, take-nil)
take-drop (suc a) (suc b) (x ∷ xs) h =
    let e : suc b - suc a ≡ b - a = omega arith in rw e (take-drop a b xs (omega arith))

get_from_cases :
    (line : Text) (c : ℕ)
    → (or_nothing (get_from line c) ≡ drop c line) ⊎ (or_nothing (get_from line c) ≡ [])
unfolding get_from
get_from_cases line c = ground arith

get_range_cases :
    (line : Text) (c start : ℕ)
    → (or_nothing (get_range line c start) ≡ take (start - c) (drop c line))
      ⊎ (or_nothing (get_range line c start) ≡ [])
unfolding get_range
get_range_cases line c start = ground arith

pub length-take-drop :
    (a b : ℕ) (xs : Text) → a ≤ b → b ≤ length xs → b ≡ a + length (take (b - a) (drop a xs))
length-take-drop a b xs h k =
    let n = length-take (b - a) (drop a xs) (omega (arith, length-drop a xs)) in omega (arith, n)

module _ (line : Text) (c start end : ℕ) (spans : List Range) where
  -- The bytes of a span, and those in front of it that the text does not give, are hidden.
  hide_span :
      {P : ℕ → Type 0}
      → start ≤ end
      → end ≤ length line
      → Redacts P end (drop end line) (write_spans line end spans)
      → Redacts P start (drop start line) (mask ++ write_spans line end spans)
  hide_span h k r =
      hide (take (end - start) (drop start line)) (write_spans line end spans)
        (take-drop start end line h) (length-take-drop start end line h k) refl r

-- A gap between two spans, in front of a redaction of what follows it.
Redacts-gap :
    {P : ℕ → Type 0} {t : Text} (line : Text) (c start : ℕ)
    → c ≤ start
    → start ≤ length line
    → ((k : ℕ) → c ≤ k → k < start → P k)
    → Redacts P start (drop start line) t
    → Redacts P c (drop c line) (take (start - c) (drop c line) ++ t)
Redacts-gap {P} {t} line c start h k p r =
    subst (λ s. Redacts P c s (take (start - c) (drop c line) ++ t))
      (sym (take-drop c start line h))
      (Redacts-append (take (start - c) (drop c line)) c (length-take-drop c start line h k) p r)

pub write_spans-cons :
    (line : Text) (c start end : ℕ) (spans : List Range)
    → write_spans line c ((start, end) ∷ spans)
      ≡ or_nothing (get_range line c start) ++ (mask ++ write_spans line (max c end) spans)
unfolding write_spans
write_spans-cons line c start end spans = refl

-- Where spans begin behind the cursor, the bytes in front of the first one are kept.
write_spans-Redacts :
    (line : Text) (c : ℕ) (spans : List Range)
    → Chain (length line) c spans
    → Redacts (λ i. spanned i spans ≡ false) c (drop c line) (write_spans line c spans)
write_spans-Redacts line c [] o = elim (get_from_cases line c) [
  | inl e ↦ unfold write_spans in rw e (Redacts-refl (drop c line) c (λ j. refl))
  | inr e ↦ unfold write_spans in rw e cut
]
write_spans-Redacts line c ((start, end) ∷ spans) o =
    let m : max c end ≡ end = omega (arith, o.0, o.1) in
    let inner : Redacts (λ i. spanned i ((start, end) ∷ spans) ≡ false) end (drop end line)
        (write_spans line end spans) =
      Redacts-mono (λ k h q. ground arith) (write_spans-Redacts line end spans o.3) in
    elim (get_range_cases line c start) [
      | inl e ↦
          rw (write_spans-cons, e, m)
            (Redacts-gap line c start o.0 (omega (arith, o.1, o.2))
              (λ k a b. ground (arith, spanned-Chain (length line) k end spans o.3))
              (hide_span line c start end spans o.1 o.2 inner))
      | inr e ↦
          rw (write_spans-cons, e, m)
            (hide_span line c c end spans (omega (arith, o.0, o.1)) o.2 inner)
    ]

-- For ranges inside the line, in any order and overlapping or not, `apply_ranges` keeps bytes of the
-- line in their order, none of them in a range, and writes the mask in place of runs of bytes.
pub apply_ranges-Redacts :
    (line : Text) (rs : List Range)
    → Fits (length line) rs
    → Redacts (λ i. covered i rs ≡ false) 0 line (apply_ranges line rs)
unfolding apply_ranges
apply_ranges-Redacts line [] f = Redacts-refl line 0 (λ j. refl)
apply_ranges-Redacts line (r ∷ rs) f =
    let o = sort_ranges-Ordered (length line) (r ∷ rs) f in
    let c = merge_ranges-Chain (length line) (sort_ranges (r ∷ rs)) o in
    Redacts-mono
      (λ k h q.
        sym (covered-sort_ranges k (r ∷ rs))
        ∙ covered-merge_ranges (length line) k (sort_ranges (r ∷ rs)) o q)
      (write_spans-Redacts line 0 (merge_ranges (sort_ranges (r ∷ rs))) c)
