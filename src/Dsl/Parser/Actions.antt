-- ===== src/Dsl/Parser/Actions.antt =====
-- What the steps of a plan do, check by check and file by file.
use shellflow.Base.{
  ℕ, Bool, List, [], ◌∷◌, ◌++◌, Option, none, some, Text, ◌≡◌, refl, sym, ap, ◌∙◌, append-nil,
  append_assoc, map,
}
use shellflow.Dsl.Target.{EnvEntry}
use shellflow.Dsl.Step.{Step, CopyStep, CopyEntry, AssertStep, Assertion, as_copy, as_assert}

-- What a plan does, with no account of which checks and copies share a step: a check with its target
-- and timeout, a file with the options of its transfer, or any other step.
pub data Action : Type 0 where
  check : Text → Option ℕ → Assertion → Action
  transfer : Text → Bool → List Text → Option ℕ → List EnvEntry → CopyEntry → Action
  other_step : Step → Action

abbrev pub check_of : AssertStep → Assertion → Action
check_of s c = check s.target.text s.timeout c

abbrev pub transfer_of : CopyStep → CopyEntry → Action
transfer_of s entry = transfer s.target.text s.delete s.excludes s.timeout s.env entry

unfoldable pub actions_of : Step → List Action
unfolding as_assert as_copy
actions_of step = elim (as_assert step) [
  | some s ↦ map (check_of s) s.checks
  | none ↦ elim (as_copy step) [
    | some s ↦ map (transfer_of s) s.entries
    | none ↦ other_step step ∷ []
  ]
]

unfoldable pub actions : List Step → List Action
unfolding actions_of
actions [] = []
actions (step ∷ steps) = actions_of step ++ actions steps

pub actions-append :
    (steps more : List Step) → actions (steps ++ more) ≡ actions steps ++ actions more
unfolding actions
actions-append [] more = refl
actions-append (step ∷ steps) more =
    ap (◌++◌ (actions_of step)) (actions-append steps more)
    ∙ sym (append_assoc (actions_of step) (actions steps) (actions more))

pub pushed :
    (steps : List Step) (step : Step)
    → actions (steps ++ step ∷ []) ≡ actions steps ++ actions_of step
unfolding actions
pushed steps step =
    actions-append steps (step ∷ []) ∙ ap (◌++◌ (actions steps)) (append-nil (actions_of step))
