-- ===== src/Host/Diff.antt =====
-- bin/shellflow/src/diffutil.rs: the operations of a line diff, over the table of the longest common
-- subsequences.
pub mod Sides
pub mod Table
pub mod Longest
pub mod Shared
pub mod Hunks
pub mod Quiet
pub mod Ranges
pub mod Shown
use Prim.Native.Nat.{max}
use shellflow.Base.{
  ℕ, zero, suc, ◌+◌, ◌*◌, Bool, true, false, List, [], ◌∷◌, ◌++◌, Option, none, some, Text, ltb,
  leb, if◌then◌else◌, length, drop, get_elem?, map,
}
use shellflow.Base.Text.{eq_text}

pub data Op : Type 0 where
  equal : Text → Op
  delete : Text → Op
  insert : Text → Op

abbrev pub max_cells : ℕ
max_cells = 1000000

-- `table[k]`, on the table that is written row by row.
abbrev pub cell : List ℕ → ℕ → ℕ
cell table k = elim (get_elem? table k) [ none ↦ 0 | some n ↦ n ]

-- The row of one old line, from the right; `below` is the table of the lines behind it.
unfoldable pub lcs_row : Text → List Text → List ℕ → List ℕ
unfolding eq_text
lcs_row line [] below = 0 ∷ []
lcs_row line (other ∷ new) below =
    let rest = lcs_row line new (drop 1 below) in
    (if eq_text line other then cell below 1 + 1 else max (cell below 0) (cell rest 0)) ∷ rest

unfoldable pub lcs_rows : List Text → List Text → List ℕ
unfolding lcs_row
lcs_rows [] new = map (λ _. 0) new ++ 0 ∷ []
lcs_rows (line ∷ old) new = let below = lcs_rows old new in lcs_row line new below ++ below

unfoldable pub lcs_table : List Text → List Text → Option (List ℕ)
unfolding lcs_rows
lcs_table old new =
    if ltb max_cells (length old * (length new + 1)) then none else some (lcs_rows old new)

-- The loop, on fuel, at line `i` of the old text and line `j` of the new one; the last two arguments
-- are the lines from there on.
unfoldable pub diff_loop : ℕ → List ℕ → ℕ → ℕ → ℕ → List Text → List Text → List Op
unfolding eq_text
diff_loop fuel table width i j [] new = map insert new
diff_loop fuel table width i j (line ∷ old) [] = map delete (line ∷ old)
diff_loop zero table width i j (line ∷ old) (other ∷ new) = []
diff_loop (suc fuel) table width i j (line ∷ old) (other ∷ new) = elim (eq_text line other) [
  | true ↦ equal line ∷ diff_loop fuel table width (i + 1) (j + 1) old new
  | false ↦ elim (leb (cell table (i * width + j + 1)) (cell table ((i + 1) * width + j))) [
    | true ↦ delete line ∷ diff_loop fuel table width (i + 1) j old (other ∷ new)
    | false ↦ insert other ∷ diff_loop fuel table width i (j + 1) (line ∷ old) new
  ]
]

unfoldable pub diff_ops : List Text → List Text → List Op
unfolding lcs_table diff_loop
diff_ops old new = elim (lcs_table old new) [
  | none ↦ map delete old ++ map insert new
  | some table ↦ diff_loop (length old + length new) table (length new + 1) 0 0 old new
]
