-- ===== src/Dsl/Parser/Checks.antt =====
-- crates/shellflow-dsl/src/parser.rs: `push_assertion`, the end of every assertion.
use shellflow.Base.{
  ℕ, Bool, ◌&&◌, List, [], ◌∷◌, ◌++◌, Option, none, some, Text, if◌then◌else◌, is_some,
}
use shellflow.Base.Text.{eq_text}
use shellflow.Base.Result.{Result, ok, ◌>>=◌, ◌>>◌}
use shellflow.Dsl.Error.{ParseError}
use shellflow.Dsl.Target.{target_at}
use shellflow.Dsl.Step.{Step, AssertStep, Assertion, assert_step, as_assert}
use shellflow.Dsl.Parser.Flags.{reject_guard}
use shellflow.Dsl.Parser.Files.{eq_timeout}
use shellflow.Dsl.Parser.State.{State}

-- The key that two assertions in a row share when they are one step.
unfoldable pub asserts_alike : Text → AssertStep → AssertStep → Bool
unfolding eq_text
asserts_alike target existing new =
    eq_text existing.target.text target && eq_timeout existing.timeout new.timeout

-- The last step takes the checks of an assertion like itself, and else there is no such step.
unfoldable pub merge_assert : Text → AssertStep → List Step → Option (List Step)
unfolding asserts_alike as_assert
merge_assert target new [] = none
merge_assert target new (step ∷ next ∷ steps) = elim (merge_assert target new (next ∷ steps)) [
  | none ↦ none
  | some merged ↦ some (step ∷ merged)
]
merge_assert target new (step ∷ []) = elim (as_assert step) [
  | none ↦ none
  | some existing ↦
      if asserts_alike target existing new
      then some (assert_step (record existing { checks = existing.checks ++ new.checks }) ∷ [])
      else none
]

-- An assertion with a name is a step of its own.
unfoldable pub merged_steps : Text → AssertStep → List Step → Option (List Step)
unfolding merge_assert
merged_steps target new steps = if is_some new.name then none else merge_assert target new steps

-- The last target stays as it is where the assertion joins the last step.
unfoldable pub push_assert : Text → AssertStep → State → State
unfolding merged_steps
push_assert target new s = elim (merged_steps target new s.plan.steps) [
  | some steps ↦ record s {
    plan = record s.plan { steps = steps };
    pending_name = none;
    pending_timeout = none;
  }
  | none ↦ record s {
    plan = record s.plan { steps = s.plan.steps ++ assert_step new ∷ [] };
    pending_name = none;
    pending_timeout = none;
    last_target = some target;
  }
]

unfoldable pub push_assertion : Text → ℕ → Assertion → State → State
unfolding push_assert target_at
push_assertion target line check s =
    push_assert target
      (record {
        name = s.pending_name;
        target = target_at target line;
        checks = check ∷ [];
        timeout = s.pending_timeout;
      })
      s

-- A directive that refuses a guard, reads its payload, and adds one assertion.
unfoldable pub add_check :
    Text → ℕ → Result ParseError (Text × Assertion) → State → Result ParseError State
unfolding reject_guard push_assertion
add_check directive line read s = do
  reject_guard s.pending_guard directive line
  (target, check) ← read
  ok (push_assertion target line check s)
