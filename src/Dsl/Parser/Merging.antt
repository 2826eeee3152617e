-- ===== src/Dsl/Parser/Merging.antt =====
-- Copies and assertions that join the step in front of them.
use mathlib.Core.List.{map-append}
use shellflow.Base.{
  true, List, [], ◌∷◌, ◌++◌, Text, ◌≡◌, refl, sym, ap, ◌∙◌, arith, append-nil, append_assoc,
  if_intro, inl, inr, map, is_some, Bool-cases, Option-cases,
}
use shellflow.Base.Text.{eq_text_iff}
use shellflow.Dsl.Step.{
  Step, CopyStep, CopyEntry, AssertStep, copy_step, assert_step, as_copy, as_assert,
  as_copy-eq_some,
}
use shellflow.Dsl.Parser.Files.{copies_alike, merge_copy, push_copy}
use shellflow.Dsl.Parser.State.{State}
use shellflow.Dsl.Parser.Actions.{Action, check_of, transfer_of, actions_of, actions, pushed}
use shellflow.Dsl.Parser.Keys.{eq_timeout_lem, eq_bool_lem, eq_texts_lem, eq_env_lem}

actions_of_assert : (s : AssertStep) → actions_of (assert_step s) ≡ map (check_of s) s.checks
unfolding actions_of as_assert
actions_of_assert s = refl

copies_alike_lem :
    (target : Text) (existing new : CopyStep)
    → copies_alike target existing new ≡ true
    → (existing.target.text ≡ target)
      × (existing.delete ≡ new.delete)
      × (existing.excludes ≡ new.excludes)
      × (existing.timeout ≡ new.timeout)
      × (existing.env ≡ new.env)
unfolding copies_alike
copies_alike_lem target existing new h = ground (
  arith,
  eq_text_iff existing.target.text target,
  eq_bool_lem existing.delete new.delete,
  eq_texts_lem existing.excludes new.excludes,
  eq_timeout_lem existing.timeout new.timeout,
  eq_env_lem existing.env new.env,
)

transfer_of_alike :
    (existing new : CopyStep)
    → existing.target.text ≡ new.target.text
    → existing.delete ≡ new.delete
    → existing.excludes ≡ new.excludes
    → existing.timeout ≡ new.timeout
    → existing.env ≡ new.env
    → (entry : CopyEntry) → transfer_of existing entry ≡ transfer_of new entry
transfer_of_alike existing new t d x o n entry = cc

map_cong :
    (f g : CopyEntry → Action) (entries : List CopyEntry)
    → ((entry : CopyEntry) → f entry ≡ g entry)
    → map f entries ≡ map g entries
map_cong f g [] h = refl
map_cong f g (entry ∷ entries) h = rw (h entry, map_cong f g entries h) refl

joined_copy :
    (target : Text) (existing new : CopyStep)
    → new.target.text ≡ target
    → copies_alike target existing new ≡ true
    → actions_of (copy_step (record existing { entries = existing.entries ++ new.entries }))
      ≡ actions_of (copy_step existing) ++ actions_of (copy_step new)
unfolding actions_of as_assert as_copy
joined_copy target existing new n h =
    let (t, d, x, o, v) = copies_alike_lem target existing new h in
    map-append (transfer_of existing) existing.entries new.entries
    ∙ ap (◌++◌ (map (transfer_of existing) existing.entries)) (
        map_cong (transfer_of existing) (transfer_of new) new.entries
          (transfer_of_alike existing new (t ∙ sym n) d x o v))

merge_copy-actions :
    (target : Text) (new : CopyStep) (steps : List Step)
    → new.target.text ≡ target
    → actions (merge_copy target new steps) ≡ actions steps ++ actions_of (copy_step new)
unfolding merge_copy actions
merge_copy-actions target new [] n = append-nil (actions_of (copy_step new))
merge_copy-actions target new (step ∷ []) n = elim (Option-cases (as_copy step)) [
  | inl a ↦ rw (a, merge_copy) (pushed (step ∷ []) (copy_step new))
  | inr (existing, a) ↦ elim (Bool-cases (copies_alike target existing new)) [
    | inr b ↦ rw (a, b, merge_copy) (pushed (step ∷ []) (copy_step new))
    | inl b ↦
        rw (a, b, merge_copy)
          (append-nil _
            ∙ joined_copy target existing new n b
            ∙ ap (λ step. actions_of step ++ actions_of (copy_step new))
                (sym (as_copy-eq_some step existing a))
            ∙ ap (λ before. before ++ actions_of (copy_step new))
                (sym (append-nil (actions_of step))))
  ]
]
merge_copy-actions target new (step ∷ next ∷ steps) n =
    ap (◌++◌ (actions_of step)) (merge_copy-actions target new (next ∷ steps) n)
    ∙ sym (append_assoc (actions_of step) (actions (next ∷ steps)) (actions_of (copy_step new)))

-- The same for a copy: the plan transfers what it transferred before and then the new files, with
-- their own target, options, timeout and environment.
pub push_copy-actions :
    (target : Text) (new : CopyStep) (s : State)
    → new.target.text ≡ target
    → actions (push_copy target new s).plan.steps
      ≡ actions s.plan.steps ++ actions_of (copy_step new)
unfolding push_copy
push_copy-actions target new s n =
    if_intro (λ steps. actions steps ≡ actions s.plan.steps ++ actions_of (copy_step new))
      (is_some new.name) _ _ (λ _. pushed s.plan.steps (copy_step new))
      (λ _. merge_copy-actions target new s.plan.steps n)
