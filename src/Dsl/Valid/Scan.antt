-- ===== src/Dsl/Valid/Scan.antt =====
-- `apply_directive` and `parse_script` keep the invariant of the state.
use shellflow.Base.{ℕ, suc, List, [], ◌∷◌, Text, ◌≡◌, if_intro, inl, inr, Option-cases, Bool-cases}
use shellflow.Base.Text.{codes, eq_text}
use shellflow.Base.Text.Lines.{lines, strip_last}
use shellflow.Base.Result.{ok}
use shellflow.Base.Yields.{Yields, Yields-ok, Yields-err, Yields-then, Yields-bind, Yields-value}
use shellflow.Dsl.Heredoc.Tracker.{consume_body}
use shellflow.Dsl.Plan.{ExecutionPlan}
use shellflow.Dsl.Parser.Apply.{keywords, find_keyword, apply_directive}
use shellflow.Dsl.Parser.Script.{
  directive, push_line, scan_line, scan_all, finish_script, parse_script,
}
use shellflow.Dsl.Parser.State.{State, new_state}
use shellflow.Dsl.Valid.{IsState, IsPlan}
use shellflow.Dsl.Valid.Steps.{flush-IsState}
use shellflow.Dsl.Valid.Keywords.{run_keyword-IsState}

-- Every directive keeps the invariant: names of servers and groups are aliases, destinations are
-- well-formed, variables are identifiers, timeouts are positive, and every step holds the unit
-- names, ports, paths and counts that its directive asks for.
pub apply_directive-IsState :
    (keyword payload : Text) (line : ℕ) (s : State)
    → IsState s
    → Yields IsState (apply_directive keyword payload line s)
unfolding apply_directive
apply_directive-IsState keyword payload line s h =
    elim (Option-cases (find_keyword keyword keywords)) [
      | inl e ↦ rw (e, apply_directive) (Yields-err _)
      | inr (found, e) ↦
          rw (e, apply_directive)
            (run_keyword-IsState found payload line _ (
              if_intro IsState (eq_text keyword (codes "export")) _ _ (λ _. h)
                (λ _. flush-IsState s h)))
    ]

scan_line-IsState :
    (line_no : ℕ) (line : Text) (s : State) → IsState s → Yields IsState (scan_line line_no line s)
unfolding scan_line push_line
scan_line-IsState line_no line s h = elim (Bool-cases (consume_body s.heredocs line).0) [
  | inl e ↦ rw (e, scan_line) (Yields-ok _ h)
  | inr e ↦ elim (Option-cases (directive line)) [
    | inl d ↦ rw (e, d, scan_line) (Yields-ok _ h)
    | inr ((keyword, payload), d) ↦
        rw (e, d, scan_line) (apply_directive-IsState keyword payload line_no _ h)
  ]
]

pub scan_all-IsState :
    (line_no : ℕ) (raws : List Text) (s : State)
    → IsState s
    → Yields IsState (scan_all line_no raws s)
unfolding scan_all
scan_all-IsState line_no [] s h = Yields-ok _ h
scan_all-IsState line_no (raw ∷ raws) s h =
    Yields-bind (scan_line-IsState line_no (strip_last b'\r' raw) s h)
      (λ s' h'. scan_all-IsState (suc line_no) raws s' h')

finish_script-IsPlan : (s : State) → IsState s → Yields IsPlan (finish_script s)
unfolding finish_script
finish_script-IsPlan s h =
    Yields-then _ (λ _. Yields-then _ (λ _. Yields-ok _ (flush-IsState s h).0))

parse_script-Yields : (input : Text) → Yields IsPlan (parse_script input)
unfolding parse_script
parse_script-Yields input =
    Yields-bind (scan_all-IsState 1 (lines input) new_state ((tt, tt, tt, tt), tt, tt))
      (λ s h. finish_script-IsPlan s h)

-- A script that is accepted gives a plan in which every server and group has a well-formed alias,
-- every destination is one that prints and parses back, every variable of a declaration or an export
-- is an identifier, every timeout is at least 1 and fits into 64 bits, every unit name is safe,
-- every port is between 1 and 65535, every checked or installed path is absolute; the files of a copy,
-- each with a source and a destination, the conditions of an assertion, the paths of a backup, the
-- artifacts and directories of a build, the tools and the images are not empty.
pub parse_script-IsPlan :
    (input : Text) (plan : ExecutionPlan) → parse_script input ≡ ok plan → IsPlan plan
parse_script-IsPlan input plan h =
    Yields-value (parse_script input) plan (parse_script-Yields input) h
