-- ===== src/Muxy/Lines/Shift.antt =====
-- `departure_shift`: the rows that left the screen.
use shellflow.Base.{
  ℕ, zero, suc, ◌-◌, ◌≤◌, true, false, List, [], ◌∷◌, Text, ◌==◌, ==_iff, subst, length, take, drop,
  ◌≡◌, ◌↔◌, refl, arith, Bool-cases, inl, inr, if_intro,
}
use shellflow.Base.Text.{eq_text_iff}
use shellflow.Muxy.Lines.{eq_rows, find_overlap, min, departure_shift}

pub eq_rows_iff : (a b : List Text) → (eq_rows a b ≡ true) ↔ (a ≡ b)
unfolding eq_rows
eq_rows_iff [] [] = ground arith
eq_rows_iff (x ∷ a) (y ∷ b) = ground (arith, eq_text_iff x y, eq_rows_iff a b)
eq_rows_iff _ _ = ground arith

-- The last `k` rows of the old screen are the first `k` of the new one.
abbrev pub Overlaps : List Text → List Text → ℕ → Type 0
Overlaps prev cur k = drop (length prev - k) prev ≡ take k cur

find_overlap_le : (prev cur : List Text) (n : ℕ) → find_overlap prev cur n ≤ n
unfolding find_overlap
find_overlap_le prev cur zero = omega arith
find_overlap_le prev cur (suc n) =
    if_intro (λ k. k ≤ suc n) (eq_rows (drop (length prev - suc n) prev) (take (suc n) cur)) _ _
      (λ e. omega arith) (λ e. omega (arith, find_overlap_le prev cur n))

sub_zero : (n : ℕ) → n - 0 ≡ n
sub_zero n = omega arith

drop_all : (rows : List Text) → drop (length rows) rows ≡ []
drop_all [] = refl
drop_all (r ∷ rows) = drop_all rows

find_overlap-Overlaps : (prev cur : List Text) (n : ℕ) → Overlaps prev cur (find_overlap prev cur n)
unfolding find_overlap
find_overlap-Overlaps prev cur zero = rw (sub_zero (length prev)) (drop_all prev)
find_overlap-Overlaps prev cur (suc n) =
    if_intro (Overlaps prev cur) (eq_rows (drop (length prev - suc n) prev) (take (suc n) cur)) _ _
      (λ e. (eq_rows_iff _ _).0 e) (λ e. find_overlap-Overlaps prev cur n)

no_overlap :
    (prev cur : List Text) (k : ℕ)
    → eq_rows (drop (length prev - k) prev) (take k cur) ≡ false
    → Overlaps prev cur k
    → ⊥
no_overlap prev cur k e o = absurd (cc (e, (eq_rows_iff _ _).1 o))

find_overlap_largest :
    (prev cur : List Text) (n k : ℕ) → k ≤ n → Overlaps prev cur k → k ≤ find_overlap prev cur n
unfolding find_overlap
find_overlap_largest prev cur zero k h o = omega arith
find_overlap_largest prev cur (suc n) k h o =
    if_intro (λ m. k ≤ m) (eq_rows (drop (length prev - suc n) prev) (take (suc n) cur)) _ _
      (λ e. omega arith)
      (λ e. elim (Bool-cases (k == suc n)) [
        | inl k_eq ↦ absurd (
            no_overlap prev cur (suc n) e (subst (Overlaps prev cur) ((==_iff k (suc n)).0 k_eq) o))
        | inr k_ne ↦ find_overlap_largest prev cur n k (ground arith) o
      ])

min_le : (a b : ℕ) → (min a b ≤ a) × (min a b ≤ b)
min_le a b = ground arith

le_min : (a b k : ℕ) → k ≤ a → k ≤ b → k ≤ min a b
le_min a b k h l = ground arith

length-take_min : (k : ℕ) (rows : List Text) → length (take k rows) ≤ k
length-take_min zero rows = omega arith
length-take_min (suc k) [] = omega arith
length-take_min (suc k) (r ∷ rows) = omega (arith, length-take_min k rows)

-- A shift leaves the rest of the old screen at the top of the new one.
abbrev pub Shifts : List Text → List Text → ℕ → Type 0
Shifts prev cur n = (n ≤ length prev) × (drop n prev ≡ take (length prev - n) cur)

abbrev overlap : List Text → List Text → ℕ
overlap prev cur = find_overlap prev cur (min (length prev) (length cur))

overlap_le : (prev cur : List Text) → overlap prev cur ≤ length prev
overlap_le prev cur = omega (
  arith,
  find_overlap_le prev cur (min (length prev) (length cur)),
  (min_le (length prev) (length cur)).0,
)

sub_sub : (a b : ℕ) → a ≤ b → a ≡ b - (b - a)
sub_sub a b h = omega arith

largest_overlap :
    (prev cur : List Text) (n : ℕ)
    → length prev - n ≤ length cur
    → Shifts prev cur n
    → length prev - n ≤ overlap prev cur
largest_overlap prev cur n h (n_le, e) =
    find_overlap_largest prev cur (min (length prev) (length cur)) (length prev - n)
      (le_min (length prev) (length cur) (length prev - n) (omega arith) h)
      (subst (λ i. drop i prev ≡ take (length prev - n) cur) (sub_sub n (length prev) n_le) e)

-- Behind the rows that left, the rest of the old screen is the top of the new one, and no smaller
-- number of rows, of which the rest fits on the new screen, leaves it so.
pub departure_shift_smallest :
    (prev cur : List Text)
    → Shifts prev cur (departure_shift prev cur)
      × ((n : ℕ) → length prev - n ≤ length cur → Shifts prev cur n → departure_shift prev cur ≤ n)
unfolding departure_shift
departure_shift_smallest prev cur = (
  (
    omega arith,
    subst (λ i. drop (length prev - overlap prev cur) prev ≡ take i cur)
        (sub_sub (overlap prev cur) (length prev) (overlap_le prev cur))
        (find_overlap-Overlaps prev cur (min (length prev) (length cur))),
  ),
  λ n h x. omega (arith, largest_overlap prev cur n h x),
)
