-- ===== src/Host/Diff/Table.antt =====
-- The table of the longest common subsequences, against their recursive definition.
use Prim.Native.Nat.{max}
use shellflow.Base.{
  ℕ, zero, suc, ◌+◌, ◌≤◌, true, false, List, [], ◌∷◌, ◌++◌, Text, ◌≡◌, refl, sym, ap, ◌∙◌, arith,
  if◌then◌else◌, length, drop, map, append-nil, drop-length-append,
}
use shellflow.Base.Text.{eq_text}
use shellflow.Host.Diff.{cell, lcs_row, lcs_rows}

-- The length of a longest common subsequence.
unfoldable pub lcs : List Text → List Text → ℕ
lcs [] ys = 0
lcs (x ∷ xs) [] = 0
lcs (x ∷ xs) (y ∷ ys) =
    if eq_text x y then lcs xs ys + 1 else max (lcs xs (y ∷ ys)) (lcs (x ∷ xs) ys)

-- One row of the table: one list against every end of the other.
unfoldable pub row_of : List Text → List Text → List ℕ
row_of xs [] = lcs xs [] ∷ []
row_of xs (y ∷ ys) = lcs xs (y ∷ ys) ∷ row_of xs ys

unfoldable pub rows_of : List Text → List Text → List ℕ
rows_of [] ys = row_of [] ys
rows_of (x ∷ xs) ys = row_of (x ∷ xs) ys ++ rows_of xs ys

cell-row_of : (xs ys : List Text) (t : List ℕ) → cell (row_of xs ys ++ t) 0 ≡ lcs xs ys
unfolding row_of
cell-row_of xs [] t = refl
cell-row_of xs (y ∷ ys) t = refl

cell-row_of_last : (xs ys : List Text) → cell (row_of xs ys) 0 ≡ lcs xs ys
cell-row_of_last xs ys = ap (λ r. cell r 0) (sym (append-nil (row_of xs ys))) ∙ cell-row_of xs ys []

lcs_row-row_of :
    (x : Text) (xs ys : List Text) (t : List ℕ)
    → lcs_row x ys (row_of xs ys ++ t) ≡ row_of (x ∷ xs) ys
unfolding lcs_row row_of lcs
lcs_row-row_of x xs [] t = refl
lcs_row-row_of x xs (y ∷ ys) t =
    rw (lcs_row-row_of x xs ys t, cell-row_of xs ys t, cell-row_of_last (x ∷ xs) ys) refl

row_of_nil : (ys : List Text) → map (λ _. 0) ys ++ 0 ∷ [] ≡ row_of [] ys
unfolding row_of lcs
row_of_nil [] = refl
row_of_nil (y ∷ ys) = ap (◌∷◌ 0) (row_of_nil ys)

pub rows_of_row : (xs ys : List Text) → (t : List ℕ) × (rows_of xs ys ≡ row_of xs ys ++ t)
unfolding rows_of
rows_of_row [] ys = ([], sym (append-nil (row_of [] ys)))
rows_of_row (x ∷ xs) ys = (rows_of xs ys, refl)

-- The table holds the lengths of the longest common subsequences of all ends.
pub lcs_rows-rows_of : (xs ys : List Text) → lcs_rows xs ys ≡ rows_of xs ys
unfolding lcs_rows rows_of
lcs_rows-rows_of [] ys = row_of_nil ys
lcs_rows-rows_of (x ∷ xs) ys =
    let (t, e) = rows_of_row xs ys in
    rw (lcs_rows-rows_of xs ys) (
      ap (λ below. lcs_row x ys below ++ rows_of xs ys) e
      ∙ ap (λ row. row ++ rows_of xs ys) (lcs_row-row_of x xs ys t))

length-row_of : (xs ys : List Text) → length (row_of xs ys) ≡ length ys + 1
unfolding row_of
length-row_of xs [] = refl
length-row_of xs (y ∷ ys) = omega (arith, length-row_of xs ys)

pub drop-row_of : (xs ys : List Text) (t : List ℕ) → drop (length ys + 1) (row_of xs ys ++ t) ≡ t
drop-row_of xs ys t =
    ap (λ n. drop n (row_of xs ys ++ t)) (sym (length-row_of xs ys))
    ∙ drop-length-append (row_of xs ys) t

-- A row at a column.
pub cell_at :
    (xs ys : List Text) (t : List ℕ) (j : ℕ)
    → j ≤ length ys
    → cell (row_of xs ys ++ t) j ≡ lcs xs (drop j ys)
unfolding row_of
cell_at xs ys t zero h = cell-row_of xs ys t
cell_at xs [] t (suc j) h = absurd (omega arith)
cell_at xs (y ∷ ys) t (suc j) h = cell_at xs ys t j (omega arith)

drop_nil : {A : Type 0} (n : ℕ) → drop {A = A} n [] ≡ []
drop_nil zero = refl
drop_nil (suc n) = refl

suc_add : (a b : ℕ) → suc a + b ≡ suc (a + b)
suc_add a b = omega arith

pub drop_add : {A : Type 0} (a b : ℕ) (xs : List A) → drop (a + b) xs ≡ drop b (drop a xs)
drop_add zero b xs = ap (λ n. drop n xs) (omega arith)
drop_add (suc a) b [] = drop_nil (suc a + b) ∙ sym (drop_nil b)
drop_add (suc a) b (x ∷ xs) = ap (λ n. drop n (x ∷ xs)) (suc_add a b) ∙ drop_add a b xs

pub cell-drop : (table : List ℕ) (a b : ℕ) → cell table (a + b) ≡ cell (drop a table) b
cell-drop table zero b = ap (cell table) (omega arith)
cell-drop [] (suc a) b = refl
cell-drop (n ∷ table) (suc a) b = ap (cell (n ∷ table)) (suc_add a b) ∙ cell-drop table a b

pub lcs_equal :
    (line other : Text) (old new : List Text)
    → eq_text line other ≡ true
    → lcs (line ∷ old) (other ∷ new) ≡ lcs old new + 1
unfolding lcs
lcs_equal line other old new e = rw e refl

pub lcs_other :
    (line other : Text) (old new : List Text)
    → eq_text line other ≡ false
    → lcs (line ∷ old) (other ∷ new) ≡ max (lcs old (other ∷ new)) (lcs (line ∷ old) new)
unfolding lcs
lcs_other line other old new e = rw e refl

pub lcs_nil : (old : List Text) → lcs old [] ≡ 0
unfolding lcs
lcs_nil [] = refl
lcs_nil (line ∷ old) = refl

pub lcs_start : (new : List Text) → lcs [] new ≡ 0
unfolding lcs
lcs_start new = refl
