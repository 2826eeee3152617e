-- ===== src/Examples/Slips.antt =====
-- Scripts that crates/shellflow-dsl/src/parser.rs accepts against its comments.
use shellflow.Base.{List, [], ◌∷◌, ◌++◌, Option, none, some, Text, ◌≡◌, refl, map}
use shellflow.Base.Text.{codes}
use shellflow.Base.Result.{Result, ok, err, ◌>>=◌, ensure, ok_or}
use shellflow.Dsl.Error.{ParseError}
use shellflow.Dsl.Plan.{ExecutionPlan}
use shellflow.Dsl.Step.Access.{kind, target_text}
use shellflow.Dsl.Parser.Flags.{positive}
use shellflow.Dsl.Parser.Script.{parse_script}

-- The kinds and targets of the steps.
abbrev outline : ExecutionPlan → List (Text × Option Text)
outline plan = map (λ step. (kind step, target_text step)) plan.steps

abbrev outlined : Result ParseError ExecutionPlan → Option (List (Text × Option Text))
outlined (ok plan) = some (outline plan)
outlined (err e) = none

-- A flag that `@unit_inventory` does not define.
ignored_flag :
    outlined (parse_script (codes "# @unit_inventory @web --bogus"))
    ≡ some ((codes "unit_inventory", some (codes "web")) ∷ [])
unfolding parse_script ◌>>=◌ ensure ok_or positive kind target_text
ignored_flag = refl

-- A target of nothing but `@`.
lost_target :
    outlined (parse_script (codes "# @remote @ @" ++ b'\n' ∷ codes "reboot"))
    ≡ some ((codes "remote", some []) ∷ [])
unfolding parse_script ◌>>=◌ ensure ok_or positive kind target_text
lost_target = refl
