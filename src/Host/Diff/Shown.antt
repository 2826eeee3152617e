-- ===== src/Host/Diff/Shown.antt =====
-- What the hunks show of a diff.
use shellflow.Base.{
  ℕ, zero, suc, ◌+◌, ◌-◌, ◌≤◌, List, [], ◌∷◌, ◌++◌, Text, ◌==◌, if◌then◌else◌, length, drop, take,
  map, ◌≡◌, refl, sym, ap, ◌∙◌, subst, arith, take-append-drop,
}
use shellflow.Base.Text.{codes}
use shellflow.Host.Diff.{Op, equal, delete, insert}
use shellflow.Host.Diff.Table.{drop_add}
use shellflow.Host.Diff.Hunks.{
  Hunk, changed, ranges_of, op_line, hunks_from, hunks, old_count, new_count,
}
use shellflow.Host.Diff.Quiet.{Quiet, Quiet-tail, Quiet-shift, Quiet-more, Quiet-empty}
use shellflow.Host.Diff.Ranges.{Covers, Covers-ranges_of}

-- The lines of the changes of a diff, as they are printed.
abbrev pub change_lines : List Op → List Text
change_lines [] = []
change_lines (equal line ∷ ops) = change_lines ops
change_lines (delete line ∷ ops) = (codes "-" ++ line) ∷ change_lines ops
change_lines (insert line ∷ ops) = (codes "+" ++ line) ∷ change_lines ops

-- The lines of hunks that do not begin with a space.
abbrev pub without_context : List Text → List Text
without_context [] = []
without_context ([] ∷ lines) = [] ∷ without_context lines
without_context ((c ∷ line) ∷ lines) =
    let rest = without_context lines in if c == b' ' then rest else (c ∷ line) ∷ rest

abbrev pub shown_lines : List Hunk → List Text
shown_lines [] = []
shown_lines (hunk ∷ others) = hunk.lines ++ shown_lines others

change_lines-append : (a b : List Op) → change_lines (a ++ b) ≡ change_lines a ++ change_lines b
change_lines-append [] b = refl
change_lines-append (equal line ∷ a) b = change_lines-append a b
change_lines-append (delete line ∷ a) b = ap (◌∷◌ (codes "-" ++ line)) (change_lines-append a b)
change_lines-append (insert line ∷ a) b = ap (◌∷◌ (codes "+" ++ line)) (change_lines-append a b)

without_context-op_line :
    (ops : List Op) (lines : List Text)
    → without_context (map op_line ops ++ lines) ≡ change_lines ops ++ without_context lines
without_context-op_line [] lines = refl
without_context-op_line (equal line ∷ ops) lines = without_context-op_line ops lines
without_context-op_line (delete line ∷ ops) lines =
    ap (◌∷◌ (codes "-" ++ line)) (without_context-op_line ops lines)
without_context-op_line (insert line ∷ ops) lines =
    ap (◌∷◌ (codes "+" ++ line)) (without_context-op_line ops lines)

change_lines-take : (ops : List Op) (n : ℕ) → Quiet ops 0 n → change_lines (take n ops) ≡ []
change_lines-take ops zero q = refl
change_lines-take [] (suc n) q = refl
change_lines-take (equal line ∷ ops) (suc n) q =
    change_lines-take ops n (Quiet-tail (equal line) ops n q)
change_lines-take (delete line ∷ ops) (suc n) q =
    absurd (cc (q.quiet_at 0 (omega arith) (omega arith)))
change_lines-take (insert line ∷ ops) (suc n) q =
    absurd (cc (q.quiet_at 0 (omega arith) (omega arith)))

take_all : (ops : List Op) → take (length ops) ops ≡ ops
take_all [] = refl
take_all (op ∷ ops) = ap (◌∷◌ op) (take_all ops)

drop-behind :
    (all : List Op) (c s e : ℕ)
    → c ≤ s
    → s ≤ e + 1
    → drop (e + 1 - s) (drop (s - c) (drop c all)) ≡ drop (e + 1) all
drop-behind all c s e h k =
    ap (drop (e + 1 - s)) (sym (drop_add c (s - c) all))
    ∙ sym (drop_add (c + (s - c)) (e + 1 - s) all)
    ∙ ap (λ n. drop n all) (omega (arith, h, k))

change_lines-region :
    (all : List Op) (c s : ℕ)
    → c ≤ s
    → Quiet all c s
    → change_lines (take (s - c) (drop c all)) ≡ []
change_lines-region all c s h q =
    change_lines-take (drop c all) (s - c)
      (Quiet-shift all c (s - c) (subst (λ n. Quiet all c n) (omega (arith, h)) q))

split_lines :
    (n : ℕ) (ops : List Op)
    → change_lines ops ≡ change_lines (take n ops) ++ change_lines (drop n ops)
split_lines n ops =
    ap change_lines (sym (take-append-drop n ops)) ∙ change_lines-append (take n ops) (drop n ops)

change_lines-Quiet :
    (all : List Op) (c : ℕ) → Quiet all c (length all) → change_lines (drop c all) ≡ []
change_lines-Quiet all c q =
    ap change_lines (sym (take_all (drop c all)))
    ∙ change_lines-take (drop c all) (length (drop c all))
        (Quiet-shift all c (length (drop c all)) (Quiet-more all c q (c + length (drop c all))))

shown_lines-hunks_from :
    (all : List Op) (ranges : List (ℕ × ℕ)) (cursor old_line new_line : ℕ)
    → Covers all ranges cursor
    → without_context (shown_lines (hunks_from ranges cursor old_line new_line (drop cursor all)))
      ≡ change_lines (drop cursor all)
unfolding hunks_from
shown_lines-hunks_from all [] c o n q = sym (change_lines-Quiet all c q)
shown_lines-hunks_from all ((s, e) ∷ ranges) c o n (h, (k, (q, covers))) =
    let before = take (s - c) (drop c all) in
    let rest = drop (s - c) (drop c all) in
    let shown = take (e + 1 - s) rest in
    without_context-op_line shown (
      shown_lines (
        hunks_from ranges (e + 1) (o + old_count before + old_count shown)
          (n + new_count before + new_count shown) (drop (e + 1 - s) rest)))
    ∙ ap (◌++◌ (change_lines shown)) (
        rw (drop-behind all c s e h k) (
          shown_lines-hunks_from all ranges (e + 1) (o + old_count before + old_count shown)
            (n + new_count before + new_count shown) covers))
    ∙ sym (split_lines (e + 1 - s) rest)
    ∙ sym (
        split_lines (s - c) (drop c all)
        ∙ ap (λ l. l ++ change_lines rest) (change_lines-region all c s h q))

-- The lines of the hunks that do not begin with a space are the lines of all changes of the diff,
-- each of them once and in their order.
pub shown_lines-hunks :
    (ops : List Op) → without_context (shown_lines (hunks ops)) ≡ change_lines ops
unfolding hunks
shown_lines-hunks ops =
    shown_lines-hunks_from ops (ranges_of (length ops) (changed 0 ops)) 0 1 1
      (Covers-ranges_of ops 0 ops refl (Quiet-empty ops 0 0 (omega arith)))
