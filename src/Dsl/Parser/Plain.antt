-- ===== src/Dsl/Parser/Plain.antt =====
-- `parse_script` on scripts without directives and here-documents.
use shellflow.Base.{
  ℕ, suc, Bool, true, not, ◌||◌, List, [], ◌∷◌, ◌++◌, none, Text, ◌≡◌, refl, sym, ap, ◌∙◌, arith,
  All, any, all, map, append-nil, append_assoc, is_empty, if◌then◌else◌, inl, inr, Bool-cases,
}
use shellflow.Base.Text.{codes, starts_with, trim}
use shellflow.Base.Text.Lines.{lines}
use shellflow.Base.Result.{ok, ◌>>=◌}
use shellflow.Dsl.Heredoc.Tracker.{consume_body, unterminated, open_in}
use shellflow.Dsl.Step.{local_step}
use shellflow.Dsl.Parser.Script.{
  push_line, scan_line, scan_all, check_heredocs, check_groups, by_key, finish_script, parse_script,
}
use shellflow.Dsl.Parser.State.{
  State, new_state, empty_plan, is_executable, has_executable, joined, flush, emit_block,
  block_step, plan_with,
}
use shellflow.Dsl.Plan.{ExecutionPlan}
use shellflow.Dsl.Parser.Bodies.{without_cr, holding}
use shellflow.Dsl.Parser.Unmarked.{IsPlain, PassesBy, All-PassesBy}

scan_line-plain :
    (line_no : ℕ) (line : Text) (pending : List Text) (s : State)
    → PassesBy line
    → scan_line line_no line (holding pending [] s) ≡ ok (holding (pending ++ line ∷ []) [] s)
unfolding scan_line consume_body push_line open_in
scan_line-plain line_no line pending s (d, o) = rw (d, o, scan_line) refl

scan_all-plain :
    (s : State) (raws : List Text) (line_no : ℕ) (pending : List Text)
    → All PassesBy (map without_cr raws)
    → scan_all line_no raws (holding pending [] s)
      ≡ ok (holding (pending ++ map without_cr raws) [] s)
unfolding scan_all ◌>>=◌
scan_all-plain s [] line_no pending p = ap (λ q. ok (holding q [] s)) (sym (append-nil pending))
scan_all-plain s (raw ∷ raws) line_no pending (p, ps) =
    rw (scan_line-plain line_no (without_cr raw) pending s p) (
      scan_all-plain s raws (suc line_no) (pending ++ without_cr raw ∷ []) ps
      ∙ ap (λ q. ok (holding q [] s))
          (append_assoc pending (without_cr raw ∷ []) (map without_cr raws)))

-- A blank line, or a comment.
abbrev pub is_idle : Text → Bool
is_idle line = is_empty (trim line) || starts_with (codes "#") (trim line)

-- Every line with a line feed behind it.
abbrev pub text_of : List Text → Text
text_of [] = []
text_of (line ∷ lines) = line ++ b'\n' ∷ text_of lines

-- One local block with this script, and nothing else.
abbrev pub block_plan : Text → ExecutionPlan
block_plan script = record {
  servers = [];
  groups = [];
  env = [];
  secrets = [];
  workdir = none;
  steps =
      local_step (record {
        name = none;
        script = script;
        guard = none;
        timeout = none;
        export = [];
        env = [];
      })
      ∷ [];
}

all-is_idle : (added : List Text) → all is_idle added ≡ not (any is_executable added)
unfolding is_executable
all-is_idle [] = refl
all-is_idle (line ∷ added) = ground (arith, all-is_idle added)

joined-text_of : (line : Text) (added : List Text) → joined (line ∷ added) ≡ text_of (line ∷ added)
unfolding joined
joined-text_of line [] = refl
joined-text_of line (next ∷ added) = ap (λ rest. line ++ b'\n' ∷ rest) (joined-text_of next added)

joined_executable :
    (added : List Text) → any is_executable added ≡ true → joined added ≡ text_of added
joined_executable [] h = absurd (cc h)
joined_executable (line ∷ added) h = joined-text_of line added

finish_script-plain :
    (added : List Text)
    → finish_script (holding added [] new_state)
      ≡ ok (if all is_idle added then empty_plan else block_plan (text_of added))
unfolding finish_script check_heredocs unterminated flush emit_block has_executable plan_with
    block_step check_groups by_key ◌>>=◌
finish_script-plain added = elim (Bool-cases (any is_executable added)) [
  | inl e ↦ rw (all-is_idle added, e) (ap (λ t. ok (block_plan t)) (joined_executable added e))
  | inr e ↦ rw (all-is_idle added, e) refl
]

-- A script in which no line has two `<` in a row, or both a `#` and an `@`, is accepted. If all of
-- its lines are blank or comments, the plan is empty; else it is one local block, with nothing else
-- declared, whose script is the lines in their order, without the carriage returns at their end,
-- each with a line feed behind it.
pub parse_script-plain :
    (input : Text)
    → All IsPlain (map without_cr (lines input))
    → parse_script input
      ≡ ok (
          if all is_idle (map without_cr (lines input))
          then empty_plan
          else block_plan (text_of (map without_cr (lines input))))
unfolding parse_script ◌>>=◌
parse_script-plain input p =
    let added = map without_cr (lines input) in
    ap (λ r. r >>= finish_script)
      (scan_all-plain new_state (lines input) 1 [] (All-PassesBy added p))
    ∙ finish_script-plain added
