-- ===== src/Host/Diff/Longest.antt =====
-- How many lines `diff_ops` leaves unchanged.
use Prim.Native.Nat.{max}
use shellflow.Base.{
  ℕ, zero, suc, ◌+◌, ◌*◌, ◌≤◌, true, false, List, [], ◌∷◌, some, Text, ◌≡◌, inl, inr, refl, sym, ap,
  ◌∙◌, arith, ltb, leb, length, drop, map, Bool-cases, length-drop,
}
use shellflow.Base.Text.{eq_text}
use shellflow.Host.Diff.{
  Op, equal, delete, insert, max_cells, cell, lcs_rows, lcs_table, diff_loop, diff_ops,
}
use shellflow.Host.Diff.Table.{
  lcs, lcs_equal, lcs_other, lcs_nil, lcs_start, rows_of, lcs_rows-rows_of, rows_of_row,
  drop-row_of, cell_at, drop_add, cell-drop,
}

-- The lines that the operations leave unchanged.
abbrev pub unchanged : List Op → ℕ
unchanged [] = 0
unchanged (equal line ∷ ops) = unchanged ops + 1
unchanged (delete line ∷ ops) = unchanged ops
unchanged (insert line ∷ ops) = unchanged ops

unchanged-insert : (new : List Text) → unchanged (map insert new) ≡ 0
unchanged-insert [] = refl
unchanged-insert (line ∷ new) = unchanged-insert new

unchanged-delete : (old : List Text) → unchanged (map delete old) ≡ 0
unchanged-delete [] = refl
unchanged-delete (line ∷ old) = unchanged-delete old

distribute : (i width : ℕ) → (i + 1) * width ≡ i * width + width
distribute i width = ground arith

-- The table from the row of these lines on.
abbrev Rest : List ℕ → List Text → ℕ → List Text → Type 0
Rest table all_new i old = drop (i * (length all_new + 1)) table ≡ rows_of old all_new

Rest-suc :
    (table : List ℕ) (all_new : List Text) (i : ℕ) (line : Text) (old : List Text)
    → Rest table all_new i (line ∷ old)
    → Rest table all_new (i + 1) old
unfolding rows_of
Rest-suc table all_new i line old h =
    let width = length all_new + 1 in
    ap (λ n. drop n table) (distribute i width)
    ∙ drop_add (i * width) width table
    ∙ ap (drop width) h
    ∙ drop-row_of (line ∷ old) all_new (rows_of old all_new)

-- A cell of the row of these lines.
cell-Rest :
    (table : List ℕ) (all_new : List Text) (i j : ℕ) (old : List Text)
    → Rest table all_new i old
    → j ≤ length all_new
    → cell table (i * (length all_new + 1) + j) ≡ lcs old (drop j all_new)
cell-Rest table all_new i j old h b =
    let (t, e) = rows_of_row old all_new in
    cell-drop table (i * (length all_new + 1)) j
    ∙ ap (λ r. cell r j) (h ∙ e)
    ∙ cell_at old all_new t j b

behind_first :
    (all_new : List Text) (j : ℕ) (other : Text) (new : List Text)
    → drop j all_new ≡ other ∷ new
    → (drop (j + 1) all_new ≡ new) × (j + 1 ≤ length all_new)
behind_first all_new j other new d =
    let l = ap (λ xs. length xs) d in
    (drop_add j 1 all_new ∙ ap (drop 1) d, omega (arith, l, length-drop j all_new))

max_left : (a b : ℕ) → leb b a ≡ true → a ≡ max a b
max_left a b h = ground arith

max_right : (a b : ℕ) → leb b a ≡ false → b ≡ max a b
max_right a b h = ground arith

zero_times : (a : ℕ) → 0 * a ≡ 0
zero_times a = omega arith

next_column : (a j : ℕ) → a + (j + 1) ≡ a + j + 1
next_column a j = omega arith

-- With as much fuel as there are lines, the loop keeps a longest common subsequence.
unchanged-diff_loop :
    (table : List ℕ) (all_new : List Text) (fuel i j : ℕ) (old new : List Text)
    → Rest table all_new i old
    → drop j all_new ≡ new
    → length old + length new ≤ fuel
    → unchanged (diff_loop fuel table (length all_new + 1) i j old new) ≡ lcs old new
unfolding diff_loop
unchanged-diff_loop table all_new fuel i j [] new r d f = unchanged-insert new ∙ sym (lcs_start new)
unchanged-diff_loop table all_new fuel i j (line ∷ old) [] r d f =
    unchanged-delete (line ∷ old) ∙ sym (lcs_nil (line ∷ old))
unchanged-diff_loop table all_new zero i j (line ∷ old) (other ∷ new) r d f = absurd (omega arith)
unchanged-diff_loop table all_new (suc fuel) i j (line ∷ old) (other ∷ new) r d f =
    let width = length all_new + 1 in
    let r' = Rest-suc table all_new i line old r in
    let (d', b) = behind_first all_new j other new d in
    elim (Bool-cases (eq_text line other)) [
      | inl e ↦
          rw (e, diff_loop)
            (ap (λ n. n + 1)
                (unchanged-diff_loop table all_new fuel (i + 1) (j + 1) old new r' d' (omega arith))
              ∙ sym (lcs_equal line other old new e))
      | inr e ↦
          let below =
            cell-Rest table all_new (i + 1) j old r' (omega (arith, b)) ∙ ap (lcs old) d in
          let right =
            ap (cell table) (sym (next_column (i * width) j))
            ∙ cell-Rest table all_new i (j + 1) (line ∷ old) r b
            ∙ ap (lcs (line ∷ old)) d' in
          let turn =
            ap (λ a. leb a (cell table ((i + 1) * width + j))) right
            ∙ ap (leb (lcs (line ∷ old) new)) below in
          elim (Bool-cases (leb (lcs (line ∷ old) new) (lcs old (other ∷ new)))) [
            | inl down ↦
                rw (e, turn, down, diff_loop)
                  (unchanged-diff_loop table all_new fuel (i + 1) j old (other ∷ new) r' d
                      (omega arith)
                    ∙ max_left (lcs old (other ∷ new)) (lcs (line ∷ old) new) down
                    ∙ sym (lcs_other line other old new e))
            | inr along ↦
                rw (e, turn, along, diff_loop)
                  (unchanged-diff_loop table all_new fuel i (j + 1) (line ∷ old) new r d'
                      (omega arith)
                    ∙ max_right (lcs old (other ∷ new)) (lcs (line ∷ old) new) along
                    ∙ sym (lcs_other line other old new e))
          ]
    ]

Rest-lcs_rows : (old new : List Text) → Rest (lcs_rows old new) new 0 old
Rest-lcs_rows old new =
    ap (λ n. drop n (lcs_rows old new)) (zero_times (length new + 1)) ∙ lcs_rows-rows_of old new

within_max : (n : ℕ) → n ≤ max_cells → ltb max_cells n ≡ false
within_max n h = ground arith

built :
    (old new : List Text)
    → length old * (length new + 1) ≤ max_cells
    → lcs_table old new ≡ some (lcs_rows old new)
unfolding lcs_table
built old new h = rw (within_max (length old * (length new + 1)) h) refl

pub unchanged-diff_ops :
    (old new : List Text)
    → length old * (length new + 1) ≤ max_cells
    → unchanged (diff_ops old new) ≡ lcs old new
unfolding diff_ops
unchanged-diff_ops old new h =
    rw (built old new h, diff_ops)
      (unchanged-diff_loop (lcs_rows old new) new (length old + length new) 0 0 old new
        (Rest-lcs_rows old new) refl (omega arith))
