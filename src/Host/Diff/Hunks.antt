-- ===== src/Host/Diff/Hunks.antt =====
-- bin/shellflow/src/diffutil.rs: the hunks of a line diff, and the unified diff of two texts.
use Prim.Native.Nat.{max, min}
use shellflow.Base.{
  ℕ, ◌+◌, ◌-◌, true, false, List, [], ◌∷◌, ◌++◌, Text, leb, if◌then◌else◌, length, drop, take, map,
  ◌≡◌, ◌↔◌, is_empty, arith,
}
use shellflow.Base.Text.{codes, eq_text, eq_text_iff}
use shellflow.Base.Text.Decimal.{decimal}
use shellflow.Base.Text.Lines.{lines}
use shellflow.Host.Diff.{Op, equal, delete, insert, diff_ops}

-- How many unchanged lines are shown around each change.
abbrev pub context : ℕ
context = 3

pub record Hunk : Type 0 where
  pub header : Text
  pub lines : List Text

-- The positions of the operations that change something, from position `i` on.
unfoldable pub changed : ℕ → List Op → List ℕ
changed i [] = []
changed i (equal line ∷ ops) = changed (i + 1) ops
changed i (delete line ∷ ops) = i ∷ changed (i + 1) ops
changed i (insert line ∷ ops) = i ∷ changed (i + 1) ops

-- The range around one position of a list of `len` operations.
abbrev pub range_around : ℕ → ℕ → ℕ × ℕ
range_around len idx = (idx - context, min (idx + context) (len - 1))

-- The ranges, the first of which is the last one that was pushed.
unfoldable pub join_ranges : ℕ → ℕ → ℕ → List ℕ → List (ℕ × ℕ)
join_ranges len start end [] = (start, end) ∷ []
join_ranges len start end (idx ∷ changed) =
    let (from, to) = range_around len idx in
    elim (leb from (end + 1)) [
      | true ↦ join_ranges len start (max end to) changed
      | false ↦ (start, end) ∷ join_ranges len from to changed
    ]

unfoldable pub ranges_of : ℕ → List ℕ → List (ℕ × ℕ)
unfolding join_ranges
ranges_of len [] = []
ranges_of len (idx ∷ changed) =
    let (from, to) = range_around len idx in join_ranges len from to changed

-- How far the operations advance the line counters.
unfoldable pub old_count : List Op → ℕ
old_count [] = 0
old_count (equal line ∷ ops) = old_count ops + 1
old_count (delete line ∷ ops) = old_count ops + 1
old_count (insert line ∷ ops) = old_count ops

unfoldable pub new_count : List Op → ℕ
new_count [] = 0
new_count (equal line ∷ ops) = new_count ops + 1
new_count (delete line ∷ ops) = new_count ops
new_count (insert line ∷ ops) = new_count ops + 1

abbrev pub op_line : Op → Text
op_line (equal line) = codes " " ++ line
op_line (delete line) = codes "-" ++ line
op_line (insert line) = codes "+" ++ line

abbrev pub hunk_header : ℕ → ℕ → ℕ → ℕ → Text
hunk_header old_start old_count new_start new_count =
    codes "@@ -"
    ++ decimal old_start
    ++ codes ","
    ++ decimal old_count
    ++ codes " +"
    ++ decimal new_start
    ++ codes ","
    ++ decimal new_count
    ++ codes " @@"

-- The hunks of the ranges; `ops` are the operations from `cursor` on.
unfoldable pub hunks_from : List (ℕ × ℕ) → ℕ → ℕ → ℕ → List Op → List Hunk
unfolding old_count new_count decimal
hunks_from [] cursor old_line new_line ops = []
hunks_from ((start, end) ∷ ranges) cursor old_line new_line ops =
    let before = take (start - cursor) ops in
    let behind = drop (start - cursor) ops in
    let shown = take (end + 1 - start) behind in
    let old_start = old_line + old_count before in
    let new_start = new_line + new_count before in
    record {
      header = hunk_header old_start (old_count shown) new_start (new_count shown);
      lines = map op_line shown;
    }
    ∷ hunks_from ranges (end + 1) (old_start + old_count shown) (new_start + new_count shown)
        (drop (end + 1 - start) behind)

unfoldable pub hunks : List Op → List Hunk
unfolding changed ranges_of hunks_from
hunks ops = hunks_from (ranges_of (length ops) (changed 0 ops)) 0 1 1 ops

abbrev pub hunk_lines : List Text → Text
hunk_lines [] = []
hunk_lines (line ∷ lines) = line ++ codes "\n" ++ hunk_lines lines

abbrev pub hunks_text : List Hunk → Text
hunks_text [] = []
hunks_text (hunk ∷ hunks) = hunk.header ++ codes "\n" ++ hunk_lines hunk.lines ++ hunks_text hunks

abbrev pub file_names : Text → Text → Text
file_names old_name new_name = codes "--- " ++ old_name ++ codes "\n+++ " ++ new_name ++ codes "\n"

unfoldable pub unified_diff : Text → Text → Text → Text → Text
unfolding eq_text lines diff_ops hunks
unified_diff old new old_name new_name =
    let hunks = hunks (diff_ops (lines old) (lines new)) in
    if eq_text old new
    then []
    else if is_empty hunks
    then file_names old_name new_name ++ codes "@@ files differ @@\n"
    else file_names old_name new_name ++ hunks_text hunks

is_empty-unified_diff :
    (old new old_name new_name : Text)
    → (is_empty (unified_diff old new old_name new_name) ≡ true) ↔ (old ≡ new)
unfolding unified_diff
is_empty-unified_diff old new old_name new_name = ground (arith, eq_text_iff old new)
