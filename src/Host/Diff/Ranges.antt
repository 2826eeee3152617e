-- ===== src/Host/Diff/Ranges.antt =====
-- The ranges of the hunks of a diff.
use Prim.Native.Nat.{max, min}
use shellflow.Base.{
  ℕ, ◌+◌, ◌-◌, ◌≤◌, ◌<◌, List, [], ◌∷◌, leb, length, drop, ◌≡◌, Bool-cases, inl, inr, ap, ◌∙◌,
  arith, length-drop,
}
use shellflow.Host.Diff.{Op, equal, delete, insert}
use shellflow.Host.Diff.Table.{drop_add}
use shellflow.Host.Diff.Hunks.{context, changed, join_ranges, ranges_of}
use shellflow.Host.Diff.Quiet.{Quiet, quiet, Quiet-empty, Quiet-part, Quiet-length, Quiet-next}

-- The ranges follow each other from a position on, and no change is outside of them.
abbrev pub Covers : List Op → List (ℕ × ℕ) → ℕ → Type 0
Covers all [] cursor = Quiet all cursor (length all)
Covers all ((start, end) ∷ ranges) cursor =
    (cursor ≤ start) × ((start ≤ end + 1) × (Quiet all cursor start × Covers all ranges (end + 1)))

-- The ranges behind the one that is open cover the changes from position `i` on.
abbrev Joins : List Op → ℕ → List ℕ → Type 0
Joins all i changes =
    (start end cursor : ℕ)
    → cursor ≤ start
    → start ≤ end + 1
    → Quiet all cursor start
    → Quiet all (end + 1) i
    → Covers all (join_ranges (length all) start end changes) cursor

Joins-change :
    (all : List Op) (i : ℕ) (changes : List ℕ)
    → i < length all
    → Joins all (i + 1) changes
    → Joins all i (i ∷ changes)
unfolding join_ranges
Joins-change all i changes l joins start end cursor h k q r =
    let from = i - context in
    let to = min (i + context) (length all - 1) in
    elim (Bool-cases (leb from (end + 1))) [
      | inl e ↦
          rw (e, Covers, join_ranges)
            (joins start (max end to) cursor h (omega (arith, k)) q
              (Quiet-empty all (max end to + 1) (i + 1) (omega (arith, l))))
      | inr e ↦
          rw (e, Covers, join_ranges)
            ((
              h,
              (
                k,
                (
                  q,
                  joins from to (end + 1) (ground arith) (omega (arith, l))
                      (Quiet-part all (end + 1) i from (omega arith) r)
                      (Quiet-empty all (to + 1) (i + 1) (omega (arith, l))),
                ),
              ),
            ))
    ]

within :
    (all : List Op) (i : ℕ) (op : Op) (rest : List Op)
    → drop i all ≡ op ∷ rest
    → (i < length all) × (drop (i + 1) all ≡ rest)
within all i op rest d =
    let l = ap (λ ops. length ops) d in
    (omega (arith, l, length-drop i all), drop_add i 1 all ∙ ap (drop 1) d)

Joins-changed :
    (all : List Op) (i : ℕ) (rest : List Op) → drop i all ≡ rest → Joins all i (changed i rest)
unfolding changed join_ranges
Joins-changed all i [] d start end cursor h k q r = (h, (k, (q, Quiet-length all (end + 1) i d r)))
Joins-changed all i (equal line ∷ rest) d start end cursor h k q r =
    let (l, d') = within all i (equal line) rest d in
    Joins-changed all (i + 1) rest d' start end cursor h k q
      (Quiet-next all (end + 1) i r (ap quiet d))
Joins-changed all i (delete line ∷ rest) d start end cursor h k q r =
    let (l, d') = within all i (delete line) rest d in
    Joins-change all i (changed (i + 1) rest) l (Joins-changed all (i + 1) rest d') start end cursor
      h k q r
Joins-changed all i (insert line ∷ rest) d start end cursor h k q r =
    let (l, d') = within all i (insert line) rest d in
    Joins-change all i (changed (i + 1) rest) l (Joins-changed all (i + 1) rest d') start end cursor
      h k q r

Covers-first :
    (all : List Op) (i : ℕ) (changes : List ℕ)
    → i < length all
    → Quiet all 0 i
    → Joins all (i + 1) changes
    → Covers all (ranges_of (length all) (i ∷ changes)) 0
unfolding ranges_of
Covers-first all i changes l q joins =
    let from = i - context in
    let to = min (i + context) (length all - 1) in
    joins from to 0 (omega arith) (omega (arith, l)) (Quiet-part all 0 i from (omega arith) q)
      (Quiet-empty all (to + 1) (i + 1) (omega (arith, l)))

pub Covers-ranges_of :
    (all : List Op) (i : ℕ) (rest : List Op)
    → drop i all ≡ rest
    → Quiet all 0 i
    → Covers all (ranges_of (length all) (changed i rest)) 0
unfolding changed ranges_of
Covers-ranges_of all i [] d q = Quiet-length all 0 i d q
Covers-ranges_of all i (equal line ∷ rest) d q =
    let (l, d') = within all i (equal line) rest d in
    Covers-ranges_of all (i + 1) rest d' (Quiet-next all 0 i q (ap quiet d))
Covers-ranges_of all i (delete line ∷ rest) d q =
    let (l, d') = within all i (delete line) rest d in
    Covers-first all i (changed (i + 1) rest) l q (Joins-changed all (i + 1) rest d')
Covers-ranges_of all i (insert line ∷ rest) d q =
    let (l, d') = within all i (insert line) rest d in
    Covers-first all i (changed (i + 1) rest) l q (Joins-changed all (i + 1) rest d')
