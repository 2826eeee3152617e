-- ===== src/Dsl/Valid/Exports.antt =====
-- `@export` keeps the invariant of the state.
use shellflow.Base.{
  ℕ, Bool, List, [], ◌∷◌, ◌++◌, Text, subst, All, All-append, map, inl, inr, Option-cases,
  Bool-cases,
}
use shellflow.Base.Yields.{
  Yields, Yields-ok, Yields-err, Yields-then, Yields-bind, Yields-ensure, Yields-map,
}
use shellflow.Dsl.Step.{Step, LocalStep, ExportVar, local_step, as_local, as_local-eq_some}
use shellflow.Dsl.Step.Access.{step_timeout}
use shellflow.Dsl.Parser.Flags.{comma_list}
use shellflow.Dsl.Parser.State.{State, Mode, in_local, in_remote, has_executable}
use shellflow.Dsl.Parser.Declare.{
  check_names, read_exports, export_last, bind_exports, bind_vars, declare_export,
}
use shellflow.Dsl.Valid.{IsVariable, IsExport, IsStep, IsState}

check_names-IsVariable :
    (line : ℕ) (names : List Text) → Yields (λ _. All IsVariable names) (check_names line names)
unfolding check_names
check_names-IsVariable line [] = Yields-ok _ tt
check_names-IsVariable line (name ∷ names) =
    Yields-bind (Yields-ensure _ _)
      (λ _ v. Yields-map _ (check_names-IsVariable line names) (λ _ rest. (v, rest)))

All-exports :
    (public : Bool) (names : List Text)
    → All IsVariable names
    → All IsExport (map (λ name. record { name = name; public = public }) names)
All-exports public [] h = tt
All-exports public (name ∷ names) (v, h) = (v, All-exports public names h)

read_exports-IsExport :
    (payload : Text) (line : ℕ) → Yields (All IsExport) (read_exports payload line)
unfolding read_exports
read_exports-IsExport payload line = Yields-then _ (λ (positional, flags). Yields-then _ (λ _.
    Yields-then _ (λ names. Yields-then _ (λ _.
      Yields-bind (check_names-IsVariable line (comma_list names))
        (λ _ v. Yields-ok _ (All-exports _ (comma_list names) v))))))

exported :
    (s : LocalStep) (vars : List ExportVar)
    → All IsExport vars
    → IsStep (local_step s)
    → IsStep (local_step (record s { export = s.export ++ vars }))
unfolding step_timeout
exported s vars v (t, (x, n)) = (t, (All-append IsExport s.export vars x v, n))

bind_exports-IsState :
    (mode : Mode) (line : ℕ) (vars : List ExportVar) (s : State)
    → All IsExport vars
    → IsState s
    → Yields IsState (bind_exports mode line vars s)
unfolding bind_exports
bind_exports-IsState in_local line vars s v (p, ex, t) =
    Yields-ok _ (p, All-append IsExport s.pending_export vars ex v, t)
bind_exports-IsState in_remote line vars s v h = Yields-err _

export_last-IsStep :
    (line : ℕ) (vars : List ExportVar) (steps : List Step)
    → All IsExport vars
    → All IsStep steps
    → Yields (All IsStep) (export_last line vars steps)
unfolding export_last
export_last-IsStep line vars [] v h = Yields-err _
export_last-IsStep line vars (step ∷ []) v (h, _) = elim (Option-cases (as_local step)) [
  | inl e ↦ rw (e, export_last) (Yields-err _)
  | inr (s, e) ↦
      rw (e, export_last)
        (Yields-ok _ (exported s vars v (subst IsStep (as_local-eq_some step s e) h), tt))
]
export_last-IsStep line vars (step ∷ next ∷ steps) v (h, hs) =
    Yields-bind (export_last-IsStep line vars (next ∷ steps) v hs)
      (λ steps' hs'. Yields-ok _ (h, hs'))

bind_vars-IsState :
    (line : ℕ) (vars : List ExportVar) (s : State)
    → All IsExport vars
    → IsState s
    → Yields IsState (bind_vars line vars s)
unfolding bind_vars
bind_vars-IsState line vars s v ((sv, gr, en, st), ex, t) = elim (Bool-cases (has_executable s)) [
  | inr e ↦
      rw (e, bind_vars)
        (Yields-bind (export_last-IsStep line vars s.plan.steps v st)
          (λ steps h. Yields-ok _ ((sv, gr, en, h), ex, t)))
  | inl e ↦ rw (e, bind_vars) (bind_exports-IsState s.mode line vars s v ((sv, gr, en, st), ex, t))
]

pub declare_export-IsState :
    (payload : Text) (line : ℕ) (s : State)
    → IsState s
    → Yields IsState (declare_export payload line s)
unfolding declare_export
declare_export-IsState payload line s h =
    Yields-bind (read_exports-IsExport payload line) (λ vars v. bind_vars-IsState line vars s v h)
