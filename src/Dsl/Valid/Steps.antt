-- ===== src/Dsl/Valid/Steps.antt =====
-- The ways in which a directive adds to the steps: a block, a step, a copy or an assertion that may
-- join the last step. Each keeps the invariant of the state.
use shellflow.Base.{
  some_inj, ℕ, List, [], ◌∷◌, ◌++◌, some, Text, ◌≡◌, refl, subst, is_some, All, All-append,
  if_intro, inl, inr, Option-cases, Bool-cases,
}
use shellflow.Base.Result.{Result}
use shellflow.Base.Yields.{Yields, Yields-ok, Yields-then, Yields-bind}
use shellflow.Dsl.Error.{ParseError}
use shellflow.Dsl.Step.{
  Step, CopyStep, AssertStep, Assertion, copy_step, assert_step, as_copy, as_assert,
  as_copy-eq_some, as_assert-eq_some,
}
use shellflow.Dsl.Step.Access.{step_timeout}
use shellflow.Dsl.Parser.Checks.{
  asserts_alike, merge_assert, merged_steps, push_assert, push_assertion, add_check,
}
use shellflow.Dsl.Parser.Files.{copies_alike, merge_copy, push_copy, add_copy}
use shellflow.Dsl.Parser.State.{
  State, Mode, in_local, in_remote, has_executable, block_step, emit_block, flush, push_step,
  add_step,
}
use shellflow.Dsl.Valid.{IsStep, IsCheck, IsState, IsFilled, IsTransfer, ReadsStep}
use shellflow.Dsl.Valid.Checks.{ReadsCheck}
use shellflow.Dsl.Valid.Files.{read_copy-IsStep}

block_step-IsStep : (mode : Mode) (s : State) → IsState s → IsStep (block_step mode s)
unfolding block_step step_timeout
block_step-IsStep in_local s ((sv, gr, en, st), ex, t) = (t, (ex, en))
block_step-IsStep in_remote s ((sv, gr, en, st), ex, t) = (t, en)

pub flush-IsState : (s : State) → IsState s → IsState (flush s)
unfolding flush emit_block
flush-IsState s ((sv, gr, en, st), ex, t) =
    if_intro IsState (has_executable s) _ _
      (λ _. (
        (
          sv,
          gr,
          en,
          All-append IsStep s.plan.steps (block_step s.mode s ∷ []) st
              (block_step-IsStep s.mode s ((sv, gr, en, st), ex, t), tt),
        ),
        tt,
        tt,
      ))
      (λ _. ((sv, gr, en, st), ex, t))

pub add_step-IsState :
    (directive : Text) (line : ℕ) (read : Result ParseError (Text × Step)) (s : State)
    → ReadsStep read
    → IsState s
    → Yields IsState (add_step directive line read s)
unfolding add_step push_step
add_step-IsState directive line read s r ((sv, gr, en, st), ex, t) = Yields-then _ (λ _.
    Yields-bind r (λ (target, step) h.
      Yields-ok _ ((sv, gr, en, All-append IsStep s.plan.steps (step ∷ []) st (h, tt)), ex, tt)))

filled : {A : Type 0} (xs ys : List A) → IsFilled xs → IsFilled (xs ++ ys)
filled [] ys h = absurd (cc h)
filled (x ∷ xs) ys h = refl

copied :
    (existing new : CopyStep)
    → IsStep (copy_step existing)
    → IsStep (copy_step new)
    → IsStep (copy_step (record existing { entries = existing.entries ++ new.entries }))
unfolding step_timeout
copied existing new (t, (f, c, e)) (_, (_, d, _)) = (
  t,
  (
    filled existing.entries new.entries f,
    All-append IsTransfer existing.entries new.entries c d,
    e,
  ),
)

merge_copy-IsStep :
    (target : Text) (new : CopyStep) (steps : List Step)
    → IsStep (copy_step new)
    → All IsStep steps
    → All IsStep (merge_copy target new steps)
unfolding merge_copy
merge_copy-IsStep target new [] n h = (n, tt)
merge_copy-IsStep target new (step ∷ []) n (h, _) = elim (Option-cases (as_copy step)) [
  | inl e ↦ rw (e, merge_copy) (h, (n, tt))
  | inr (existing, e) ↦
      rw (e, merge_copy)
        (if_intro (All IsStep) (copies_alike target existing new) _ _
          (λ _. (copied existing new (subst IsStep (as_copy-eq_some step existing e) h) n, tt))
          (λ _. (h, (n, tt))))
]
merge_copy-IsStep target new (step ∷ next ∷ steps) n (h, hs) =
    (h, merge_copy-IsStep target new (next ∷ steps) n hs)

pub add_copy-IsState :
    (payload : Text) (line : ℕ) (s : State) → IsState s → Yields IsState (add_copy payload line s)
unfolding add_copy push_copy
add_copy-IsState payload line s ((sv, gr, en, st), ex, t) = Yields-then _ (λ _.
    Yields-bind (read_copy-IsStep payload line s t en) (λ (target, new) n. Yields-ok _ (
      (
        sv,
        gr,
        en,
        if_intro (All IsStep) (is_some new.name) _ _
            (λ _. All-append IsStep s.plan.steps (copy_step new ∷ []) st (n, tt))
            (λ _. merge_copy-IsStep target new s.plan.steps n st),
      ),
      ex,
      tt,
    )))

joined_checks :
    (existing new : AssertStep)
    → IsStep (assert_step existing)
    → All IsCheck new.checks
    → IsStep (assert_step (record existing { checks = existing.checks ++ new.checks }))
unfolding step_timeout
joined_checks existing new (t, (f, c)) n =
    (t, (filled existing.checks new.checks f, All-append IsCheck existing.checks new.checks c n))

merge_assert-IsStep :
    (target : Text) (new : AssertStep) (steps merged : List Step)
    → All IsCheck new.checks
    → All IsStep steps
    → merge_assert target new steps ≡ some merged
    → All IsStep merged
unfolding merge_assert
merge_assert-IsStep target new [] merged n h e = absurd (cc e)
merge_assert-IsStep target new (step ∷ []) merged n (h, _) e =
    elim (Option-cases (as_assert step)) [
      | inl a ↦ absurd (cc (rw (a, merge_assert) at e))
      | inr (existing, a) ↦ elim (Bool-cases (asserts_alike target existing new)) [
        | inl b ↦
            subst (All IsStep) (some_inj _ merged (rw (a, b, merge_assert) at e)) (
              joined_checks existing new (subst IsStep (as_assert-eq_some step existing a) h) n,
              tt,
            )
        | inr b ↦ absurd (cc (rw (a, b, merge_assert) at e))
      ]
    ]
merge_assert-IsStep target new (step ∷ next ∷ steps) merged n (h, hs) e =
    elim (Option-cases (merge_assert target new (next ∷ steps))) [
      | inl a ↦ absurd (cc (rw (a, merge_assert) at e))
      | inr (rest, a) ↦
          subst (All IsStep) (some_inj (step ∷ rest) merged (rw (a, merge_assert) at e))
            (h, merge_assert-IsStep target new (next ∷ steps) rest n hs a)
    ]

merged_steps-IsStep :
    (target : Text) (new : AssertStep) (steps merged : List Step)
    → All IsCheck new.checks
    → All IsStep steps
    → merged_steps target new steps ≡ some merged
    → All IsStep merged
unfolding merged_steps
merged_steps-IsStep target new steps merged n h e = elim (Bool-cases (is_some new.name)) [
  | inl b ↦ absurd (cc (rw (b, merged_steps) at e))
  | inr b ↦ merge_assert-IsStep target new steps merged n h (rw (b, merged_steps) at e)
]

push_assert-IsState :
    (target : Text) (new : AssertStep) (s : State)
    → IsStep (assert_step new)
    → IsState s
    → IsState (push_assert target new s)
unfolding push_assert step_timeout
push_assert-IsState target new s (t', (f, c)) ((sv, gr, en, st), ex, t) =
    elim (Option-cases (merged_steps target new s.plan.steps)) [
      | inl e ↦
          rw (e, push_assert)
            (
              (
                sv,
                gr,
                en,
                All-append IsStep s.plan.steps (assert_step new ∷ []) st ((t', (f, c)), tt),
              ),
              ex,
              tt,
            )
      | inr (steps, e) ↦
          rw (e, push_assert)
            ((sv, gr, en, merged_steps-IsStep target new s.plan.steps steps c st e), ex, tt)
    ]

pub add_check-IsState :
    (directive : Text) (line : ℕ) (read : Result ParseError (Text × Assertion)) (s : State)
    → ReadsCheck read
    → IsState s
    → Yields IsState (add_check directive line read s)
unfolding add_check push_assertion step_timeout
add_check-IsState directive line read s r h = Yields-then _ (λ _.
    Yields-bind r
      (λ (target, check) c. Yields-ok _ (push_assert-IsState target _ s (h.2, (refl, (c, tt))) h)))
