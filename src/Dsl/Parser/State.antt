-- ===== src/Dsl/Parser/State.antt =====
-- crates/shellflow-dsl/src/parser.rs: `State`, which the scan of the lines threads through, and
-- `flush`. An error ends the scan, so that no state is kept beside it.
use shellflow.Base.{
  ℕ, Bool, not, ◌&&◌, List, [], ◌∷◌, ◌++◌, Option, none, some, Text, if◌then◌else◌, is_empty, any,
}
use shellflow.Base.Text.{codes, starts_with, trim}
use shellflow.Base.Result.{Result, ok, ◌>>=◌, ◌>>◌}
use shellflow.Dsl.Error.{ParseError}
use shellflow.Dsl.Heredoc.Tracker.{HeredocTracker}
use shellflow.Dsl.Target.{target_at}
use shellflow.Dsl.Step.{Step, ExportVar, local_step, remote_step}
use shellflow.Dsl.Plan.{ExecutionPlan}
use shellflow.Dsl.Parser.Flags.{reject_guard}

pub data Mode : Type 0 where
  in_local : Mode
  in_remote : Mode

pub record State : Type 0 where
  pub plan : ExecutionPlan
  pub mode : Mode
  pub target : Text
  pub target_line : ℕ
  pub pending : List Text
  pub pending_name : Option Text
  pub pending_guard : Option Text
  pub pending_timeout : Option ℕ
  pub pending_export : List ExportVar
  pub last_target : Option Text
  pub group_lines : List (Text × ℕ)
  pub heredocs : HeredocTracker

abbrev pub empty_plan : ExecutionPlan
empty_plan = record {
  servers = [];
  groups = [];
  env = [];
  secrets = [];
  workdir = none;
  steps = [];
}

-- `State::new`
abbrev pub new_state : State
new_state = record {
  plan = empty_plan;
  mode = in_local;
  target = [];
  target_line = 0;
  pending = [];
  pending_name = none;
  pending_guard = none;
  pending_timeout = none;
  pending_export = [];
  last_target = none;
  group_lines = [];
  heredocs = record { opened = [] };
}

-- A line that is neither blank nor a comment.
unfoldable pub is_executable : Text → Bool
unfolding trim starts_with
is_executable line = not (is_empty (trim line)) && not (starts_with (codes "#") (trim line))

unfoldable pub has_executable : State → Bool
unfolding is_executable
has_executable s = any is_executable s.pending

-- `join("\n")` and a final newline: every line is followed by one, and there is a line.
unfoldable pub joined : List Text → Text
joined [] = b'\n' ∷ []
joined (line ∷ []) = line ++ b'\n' ∷ []
joined (line ∷ next ∷ lines) = line ++ b'\n' ∷ joined (next ∷ lines)

unfoldable pub plan_with : Step → ExecutionPlan → ExecutionPlan
plan_with step plan = record plan { steps = plan.steps ++ step ∷ [] }

unfoldable pub block_step : Mode → State → Step
unfolding joined target_at
block_step in_local s = local_step (record {
  name = s.pending_name;
  script = joined s.pending;
  guard = s.pending_guard;
  timeout = s.pending_timeout;
  export = s.pending_export;
  env = s.plan.env;
})
block_step in_remote s = remote_step (record {
  name = s.pending_name;
  target = target_at s.target s.target_line;
  script = joined s.pending;
  guard = s.pending_guard;
  timeout = s.pending_timeout;
  env = s.plan.env;
})

abbrev target_of_block : Mode → State → Option Text
target_of_block in_local s = s.last_target
target_of_block in_remote s = some s.target

unfoldable pub emit_block : State → State
unfolding plan_with block_step
emit_block s = record s {
  plan = plan_with (block_step s.mode s) s.plan;
  pending = [];
  pending_name = none;
  pending_guard = none;
  pending_timeout = none;
  pending_export = [];
  last_target = target_of_block s.mode s;
}

unfoldable pub flush : State → State
unfolding has_executable emit_block
flush s = if has_executable s then emit_block s else record s { pending = [] }

-- The end of a directive that adds one step: it takes the pending name and timeout, and its target
-- is the one that later directives inherit.
unfoldable pub push_step : Text → Step → State → State
unfolding plan_with
push_step target step s = record s {
  plan = plan_with step s.plan;
  pending_name = none;
  pending_timeout = none;
  last_target = some target;
}

-- A directive that refuses a guard, reads its payload, and adds one step.
unfoldable pub add_step :
    Text → ℕ → Result ParseError (Text × Step) → State → Result ParseError State
unfolding reject_guard push_step
add_step directive line read s = do
  reject_guard s.pending_guard directive line
  (target, step) ← read
  ok (push_step target step s)
