-- ===== src/Core/Mask/Runs.antt =====
-- What `apply_ranges` writes, byte by byte.
use Prim.Native.Nat.{max}
use shellflow.Base.{
  ℕ, suc, ◌+◌, ◌-◌, ◌≤◌, ◌<◌, Bool, true, false, List, [], ◌∷◌, ◌++◌, All, ◌≡◌, refl, sym, ap, ◌∙◌,
  arith, Text, length, inl, inr, Bool-cases, take, drop, leb, if◌then◌else◌,
}
use shellflow.Core.Mask.{
  Range, sort_ranges, merge_ranges, is_boundary, get_from, get_range, write_spans, apply_ranges,
  mask, or_nothing,
}
use shellflow.Core.Mask.Ranges.{
  covered, spanned, Fits, sort_ranges-Ordered, covered-sort_ranges, take-drop, length-take-drop,
  write_spans-cons,
}
use shellflow.Core.Mask.Apart.{
  IsWhole, Apart, Apart-le, spanned-Apart, All-sort_ranges, spanned-merge_ranges,
  merge_ranges-Apart,
}

-- Each run of bytes at offsets where the test holds becomes one mask, and the other bytes stay. The
-- flag tells whether the byte in front is in a run.
unfoldable pub mask_runs : (ℕ → Bool) → Bool → ℕ → Text → Text
mask_runs p inside i [] = []
mask_runs p inside i (c ∷ s) = elim (p i) [
  | true ↦ (if inside then [] else mask) ++ mask_runs p true (suc i) s
  | false ↦ c ∷ mask_runs p false (suc i) s
]

module _ (p : ℕ → Bool) where
  mask_runs-kept :
      (h s : Text) (i : ℕ)
      → ((k : ℕ) → i ≤ k → k < i + length h → p k ≡ false)
      → mask_runs p false i (h ++ s) ≡ h ++ mask_runs p false (i + length h) s
  unfolding mask_runs
  mask_runs-kept [] s i f = ap (λ n. mask_runs p false n s) (omega arith)
  mask_runs-kept (c ∷ h) s i f = rw (f i (omega arith) (omega arith)) (
      ap (◌∷◌ c) (
        mask_runs-kept h s (suc i) (λ k a b. f k (omega arith) (omega (arith, b)))
        ∙ ap (λ n. h ++ mask_runs p false n s) (omega arith)))

  mask_runs-hidden :
      (h s : Text) (i : ℕ)
      → ((k : ℕ) → i ≤ k → k < i + length h → p k ≡ true)
      → mask_runs p true i (h ++ s) ≡ mask_runs p true (i + length h) s
  unfolding mask_runs
  mask_runs-hidden [] s i f = ap (λ n. mask_runs p true n s) (omega arith)
  mask_runs-hidden (c ∷ h) s i f = rw (f i (omega arith) (omega arith)) (
      mask_runs-hidden h s (suc i) (λ k a b. f k (omega arith) (omega (arith, b)))
      ∙ ap (λ n. mask_runs p true n s) (omega arith))

  mask_runs-masked :
      (h s : Text) (i : ℕ)
      → 1 ≤ length h
      → ((k : ℕ) → i ≤ k → k < i + length h → p k ≡ true)
      → mask_runs p false i (h ++ s) ≡ mask ++ mask_runs p true (i + length h) s
  unfolding mask_runs
  mask_runs-masked [] s i l f = absurd (omega arith)
  mask_runs-masked (c ∷ h) s i l f = rw (f i (omega arith) (omega arith)) (
      ap (λ t. mask ++ t)
        (mask_runs-hidden h s (suc i) (λ k a b. f k (omega arith) (omega (arith, b)))
          ∙ ap (λ n. mask_runs p true n s) (omega arith)))

  -- The flag does not matter in front of a byte that stays.
  mask_runs_leave : (s : Text) (i : ℕ) → p i ≡ false → mask_runs p true i s ≡ mask_runs p false i s
  unfolding mask_runs
  mask_runs_leave [] i e = refl
  mask_runs_leave (c ∷ s) i e = rw (e, mask_runs) refl

mask_runs_agree :
    (p q : ℕ → Bool) (b : Bool) (s : Text) (i : ℕ)
    → ((k : ℕ) → i ≤ k → p k ≡ q k)
    → mask_runs p b i s ≡ mask_runs q b i s
unfolding mask_runs
mask_runs_agree p q b [] i f = refl
mask_runs_agree p q b (c ∷ s) i f = elim (Bool-cases (q i)) [
  | inl e ↦
      rw (f i (omega arith), e, mask_runs)
        (ap (λ t. (if b then [] else mask) ++ t)
          (mask_runs_agree p q true s (suc i) (λ k h. f k (omega arith))))
  | inr e ↦
      rw (f i (omega arith), e, mask_runs)
        (ap (◌∷◌ c) (mask_runs_agree p q false s (suc i) (λ k h. f k (omega arith))))
]

given_from :
    (line : Text) (c : ℕ) → is_boundary line c ≡ true → or_nothing (get_from line c) ≡ drop c line
unfolding get_from
given_from line c b = rw (b, get_from) refl

given_range :
    (line : Text) (c start : ℕ)
    → c ≤ start
    → is_boundary line c ≡ true
    → is_boundary line start ≡ true
    → or_nothing (get_range line c start) ≡ take (start - c) (drop c line)
unfolding get_range
given_range line c start h b b' =
    let l : leb c start ≡ true = ground arith in rw (l, b, b', get_range) refl

mask_runs-nothing :
    (p : ℕ → Bool) (s : Text) (i : ℕ) → ((k : ℕ) → p k ≡ false) → s ≡ mask_runs p false i s
unfolding mask_runs
mask_runs-nothing p [] i f = refl
mask_runs-nothing p (c ∷ s) i f = rw (f i, mask_runs) (ap (◌∷◌ c) (mask_runs-nothing p s (suc i) f))

-- The bytes from the cursor on, up to the end of the first span and behind it.
module _ (line : Text) (c start end : ℕ) (spans : List Range) (before : c ≤ start)
    (filled : start < end) (fits : end ≤ length line) (apart : Apart line (end + 1) spans) where
  abbrev in_any : ℕ → Bool
  in_any i = spanned i ((start, end) ∷ spans)

  abbrev gap : Text
  gap = take (start - c) (drop c line)

  abbrev hidden : Text
  hidden = take (end - start) (drop start line)

  in_gap : (k : ℕ) → k < start → in_any k ≡ false
  in_gap k h = ground (arith, spanned-Apart line k (end + 1) spans apart (omega (arith, h, filled)))

  kept_end : in_any end ≡ false
  kept_end = ground (arith, spanned-Apart line end (end + 1) spans apart (omega arith))

  behind_end :
      mask_runs in_any true end (drop end line)
      ≡ mask_runs (λ i. spanned i spans) false end (drop end line)
  behind_end =
      mask_runs_leave in_any (drop end line) end kept_end
      ∙ mask_runs_agree in_any (λ i. spanned i spans) false (drop end line) end
          (λ k h. ground (arith, h))

  mask_runs-span :
      mask_runs in_any false start (drop start line)
      ≡ mask ++ mask_runs (λ i. spanned i spans) false end (drop end line)
  mask_runs-span =
      let n = length-take-drop start end line (omega (arith, filled)) fits in
      ap (mask_runs in_any false start) (take-drop start end line (omega (arith, filled)))
      ∙ mask_runs-masked in_any hidden (drop end line) start (omega (arith, n, filled))
          (λ k a b. ground (arith, a, b, n))
      ∙ ap (λ e. mask ++ mask_runs in_any true e (drop end line)) (sym n)
      ∙ ap (λ t. mask ++ t) behind_end

  mask_runs-gap :
      mask_runs in_any false c (drop c line)
      ≡ gap ++ (mask ++ mask_runs (λ i. spanned i spans) false end (drop end line))
  mask_runs-gap =
      let n = length-take-drop c start line before (omega (arith, filled, fits)) in
      ap (mask_runs in_any false c) (take-drop c start line before)
      ∙ mask_runs-kept in_any gap (drop start line) c (λ k a b. in_gap k (omega (arith, b, n)))
      ∙ ap (λ e. gap ++ mask_runs in_any false e (drop start line)) (sym n)
      ∙ ap (λ t. gap ++ t) mask_runs-span

write_spans-mask_runs :
    (line : Text) (c : ℕ) (spans : List Range)
    → is_boundary line c ≡ true
    → Apart line c spans
    → write_spans line c spans ≡ mask_runs (λ i. spanned i spans) false c (drop c line)
unfolding write_spans
write_spans-mask_runs line c [] b o =
    given_from line c b ∙ mask_runs-nothing (λ i. spanned i []) (drop c line) c (λ k. refl)
write_spans-mask_runs line c ((start, end) ∷ spans) b (h, f, l, bs, be, o) =
    let m : max c end ≡ end = omega (arith, h, f) in
    write_spans-cons line c start end spans
    ∙ ap (λ g. g ++ (mask ++ write_spans line (max c end) spans)) (given_range line c start h b bs)
    ∙ ap (λ e. take (start - c) (drop c line) ++ (mask ++ write_spans line e spans)) m
    ∙ ap (λ t. take (start - c) (drop c line) ++ (mask ++ t))
        (write_spans-mask_runs line end spans be
          (Apart-le line (end + 1) end spans (omega arith) o))
    ∙ sym (mask_runs-gap line c start end spans h f l o)

-- For a line that starts with a character, and ranges inside of it, in any order, overlapping,
-- touching or apart, none of them empty and each between characters: `apply_ranges` writes one mask
-- for every unbroken run of bytes that are in a range, and every other byte of the line as it is.
pub apply_ranges-mask_runs :
    (line : Text) (rs : List Range)
    → Fits (length line) rs
    → All (IsWhole line) rs
    → is_boundary line 0 ≡ true
    → apply_ranges line rs ≡ mask_runs (λ i. covered i rs) false 0 line
unfolding apply_ranges
apply_ranges-mask_runs line [] f w b = mask_runs-nothing (λ i. covered i []) line 0 (λ k. refl)
apply_ranges-mask_runs line (r ∷ rs) f w b =
    let sorted = sort_ranges (r ∷ rs) in
    let o = sort_ranges-Ordered (length line) (r ∷ rs) f in
    let a = merge_ranges-Apart line sorted o (All-sort_ranges (IsWhole line) (r ∷ rs) w) in
    write_spans-mask_runs line 0 (merge_ranges sorted) b a
    ∙ mask_runs_agree (λ i. spanned i (merge_ranges sorted)) (λ i. covered i (r ∷ rs)) false line 0
        (λ k h. spanned-merge_ranges (length line) k sorted o ∙ covered-sort_ranges k (r ∷ rs))
