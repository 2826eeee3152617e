-- ===== src/Host/Diff/Sides.antt =====
-- What a diff says of the two texts.
use shellflow.Base.{
  ℕ, zero, suc, ◌+◌, ◌*◌, ◌≤◌, List, [], ◌∷◌, ◌++◌, Text, leb, length, map, ◌≡◌, refl, ap, arith,
  Bool-cases, Option-cases, inl, inr,
}
use shellflow.Base.Text.{eq_text, eq_text_iff}
use shellflow.Host.Diff.{Op, equal, delete, insert, cell, lcs_table, diff_loop, diff_ops}

-- The lines that the operations take from the old text, and those that they write.
abbrev pub old_side : List Op → List Text
old_side [] = []
old_side (equal line ∷ ops) = line ∷ old_side ops
old_side (delete line ∷ ops) = line ∷ old_side ops
old_side (insert line ∷ ops) = old_side ops

abbrev pub new_side : List Op → List Text
new_side [] = []
new_side (equal line ∷ ops) = line ∷ new_side ops
new_side (delete line ∷ ops) = new_side ops
new_side (insert line ∷ ops) = line ∷ new_side ops

-- The operations lead from one text to the other.
abbrev pub Leads : List Op → List Text → List Text → Type 0
Leads ops old new = (old_side ops ≡ old) × (new_side ops ≡ new)

Leads-insert : (new : List Text) → Leads (map insert new) [] new
Leads-insert [] = (refl, refl)
Leads-insert (line ∷ new) = ground (arith, Leads-insert new)

Leads-delete : (old new : List Text) → Leads (map delete old ++ map insert new) old new
Leads-delete [] new = Leads-insert new
Leads-delete (line ∷ old) new = ground (arith, Leads-delete old new)

only_old : (old : List Text) → Leads (map delete old) old []
only_old [] = (refl, refl)
only_old (line ∷ old) = ground (arith, only_old old)

step-equal :
    (ops : List Op) (line other : Text) {old new : List Text}
    → Leads ops old new
    → line ≡ other
    → Leads (equal line ∷ ops) (line ∷ old) (other ∷ new)
step-equal ops line other (h, k) e = (ap (◌∷◌ line) h, cc (e, k))

step-delete :
    (ops : List Op) (line : Text) {old new : List Text}
    → Leads ops old new
    → Leads (delete line ∷ ops) (line ∷ old) new
step-delete ops line (h, k) = (ap (◌∷◌ line) h, k)

step-insert :
    (ops : List Op) (line : Text) {old new : List Text}
    → Leads ops old new
    → Leads (insert line ∷ ops) old (line ∷ new)
step-insert ops line (h, k) = (h, ap (◌∷◌ line) k)

Leads-diff_loop :
    (fuel : ℕ) (table : List ℕ) (width i j : ℕ) (old new : List Text)
    → length old + length new ≤ fuel
    → Leads (diff_loop fuel table width i j old new) old new
unfolding diff_loop
Leads-diff_loop fuel table width i j [] new h = Leads-insert new
Leads-diff_loop fuel table width i j (line ∷ old) [] h = only_old (line ∷ old)
Leads-diff_loop zero table width i j (line ∷ old) (other ∷ new) h = absurd (omega arith)
Leads-diff_loop (suc fuel) table width i j (line ∷ old) (other ∷ new) h =
    elim (Bool-cases (eq_text line other)) [
      | inl e ↦
          rw (e, diff_loop)
            (step-equal (diff_loop fuel table width (i + 1) (j + 1) old new) line other
              (Leads-diff_loop fuel table width (i + 1) (j + 1) old new (omega arith))
              ((eq_text_iff line other).0 e))
      | inr e ↦
          elim (Bool-cases
            (leb (cell table (i * width + j + 1)) (cell table ((i + 1) * width + j)))) [
              | inl e' ↦
                  rw (e, e', diff_loop)
                    (step-delete (diff_loop fuel table width (i + 1) j old (other ∷ new)) line
                      (Leads-diff_loop fuel table width (i + 1) j old (other ∷ new) (omega arith)))
              | inr e' ↦
                  rw (e, e', diff_loop)
                    (step-insert (diff_loop fuel table width i (j + 1) (line ∷ old) new) other
                      (Leads-diff_loop fuel table width i (j + 1) (line ∷ old) new (omega arith)))
            ]
    ]

-- A diff is right whichever way the table is filled: the lines that it keeps and deletes are the old
-- text, and those that it keeps and inserts are the new one, also where the texts are too long for a
-- table.
pub Leads-diff_ops : (old new : List Text) → Leads (diff_ops old new) old new
unfolding diff_ops
Leads-diff_ops old new = elim (Option-cases (lcs_table old new)) [
  | inl e ↦ rw (e, diff_ops) (Leads-delete old new)
  | inr (table, e) ↦
      rw (e, diff_ops)
        (Leads-diff_loop (length old + length new) table (length new + 1) 0 0 old new (omega arith))
]
