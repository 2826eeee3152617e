-- ===== src/Dsl/Heredoc/Tracker.antt =====
-- `HeredocTracker`: which lines are here-document bodies.
use shellflow.Base.{
  ℕ, Bool, true, false, not, List, [], ◌∷◌, ◌++◌, Option, none, some, Text, map, is_empty,
  if◌then◌else◌, ◌≡◌, refl, All,
}
use shellflow.Dsl.Heredoc.{Heredoc, terminates, scan_openers}

-- Each here-document with the line that opened it.
pub record HeredocTracker : Type 0 where
  pub opened : List (ℕ × Heredoc)

unfoldable pub is_open : HeredocTracker → Bool
is_open t = not (is_empty t.opened)

unfoldable pub unterminated : HeredocTracker → Option (ℕ × Heredoc)
unterminated t = elim t.opened [ [] ↦ none | first ∷ _ ↦ some first ]

unfoldable pub open_in : HeredocTracker → Text → ℕ → HeredocTracker
unfolding scan_openers
open_in t line line_no = record t {
  opened = t.opened ++ map (λ heredoc. (line_no, heredoc)) (scan_openers line);
}

consume_first : Text → List (ℕ × Heredoc) → Bool × HeredocTracker
unfolding terminates
consume_first line [] = (false, record { opened = [] })
consume_first line ((line_no, head) ∷ rest) =
    (true, record { opened = if terminates head line then rest else (line_no, head) ∷ rest })

unfoldable pub consume_body : HeredocTracker → Text → Bool × HeredocTracker
unfolding consume_first
consume_body t line = consume_first line t.opened

-- The answers for several lines in a row.
pub consume_lines : HeredocTracker → List Text → List Bool × HeredocTracker
consume_lines t [] = ([], t)
consume_lines t (line ∷ lines) =
    let (taken, t') = consume_body t line in
    let (takens, t'') = consume_lines t' lines in (taken ∷ takens, t'')

abbrev pub tracking : List (ℕ × Heredoc) → HeredocTracker
tracking opened = record { opened = opened }

-- None of the lines is the terminator.
abbrev pub IsBody : Heredoc → List Text → Type 0
IsBody h = All (λ line. terminates h line ≡ false)

consume_lines-body :
    (line_no : ℕ) (h : Heredoc) (rest : List (ℕ × Heredoc)) (body lines : List Text)
    → IsBody h body
    → consume_lines (tracking ((line_no, h) ∷ rest)) (body ++ lines) ≡ (
      map (λ _. true) body ++ (consume_lines (tracking ((line_no, h) ∷ rest)) lines).0,
      (consume_lines (tracking ((line_no, h) ∷ rest)) lines).1,
    )
unfolding consume_lines consume_body
consume_lines-body line_no h rest [] lines b = refl
consume_lines-body line_no h rest (line ∷ body) lines b =
    rw (b.0, consume_lines-body line_no h rest body lines b.1)

-- The oldest open here-document takes its body and its terminator, whatever else the lines look
-- like, and nothing more: then the next one in the order of opening is the oldest.
pub consume_lines-terminated :
    (line_no : ℕ) (h : Heredoc) (rest : List (ℕ × Heredoc)) (body : List Text) (end : Text)
    → IsBody h body
    → terminates h end ≡ true
    → consume_lines (tracking ((line_no, h) ∷ rest)) (body ++ end ∷ [])
      ≡ (map (λ _. true) (body ++ end ∷ []), tracking rest)
unfolding consume_lines consume_body
consume_lines-terminated line_no h rest [] end b e = rw e
consume_lines-terminated line_no h rest (line ∷ body) end b e =
    rw (b.0, consume_lines-terminated line_no h rest body end b.1 e)
