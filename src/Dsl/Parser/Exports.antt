-- ===== src/Dsl/Parser/Exports.antt =====
-- `@export`: the block that it binds to, pending or emitted.
use shellflow.Base.{ℕ, true, List, [], ◌∷◌, ◌++◌, Text, ◌≡◌, refl, sym, ap, ◌∙◌, inl, inr}
use shellflow.Base.Result.{ok, ◌>>=◌, Result-cases}
use shellflow.Dsl.Step.{Step, LocalStep, ExportVar, local_step}
use shellflow.Dsl.Parser.Declare.{
  read_exports, export_last, bind_exports, bind_vars, declare_export,
}
use shellflow.Dsl.Parser.State.{
  State, in_local, has_executable, flush, emit_block, block_step, plan_with,
}

export_last-append :
    (line : ℕ) (vars : List ExportVar) (steps : List Step) (block : LocalStep)
    → export_last line vars (steps ++ local_step block ∷ [])
      ≡ ok (steps ++ local_step (record block { export = block.export ++ vars }) ∷ [])
unfolding export_last ◌>>=◌
export_last-append line vars [] block = refl
export_last-append line vars (step ∷ []) block = refl
export_last-append line vars (step ∷ next ∷ steps) block =
    rw (export_last-append line vars (next ∷ steps) block) refl

flush_block : (s : State) → has_executable s ≡ true → flush s ≡ emit_block s
unfolding flush
flush_block s e = rw e refl

bind_vars_pending :
    (line : ℕ) (vars : List ExportVar) (s : State)
    → s.mode ≡ in_local
    → has_executable s ≡ true
    → bind_vars line vars s ≡ ok (record s { pending_export = s.pending_export ++ vars })
unfolding bind_vars bind_exports
bind_vars_pending line vars s m e = rw (e, m, bind_vars) refl

bind_vars_emitted :
    (line : ℕ) (vars : List ExportVar) (s : State)
    → s.mode ≡ in_local
    → bind_vars line vars (emit_block s)
      ≡ ok (emit_block (record s { pending_export = s.pending_export ++ vars }))
unfolding bind_vars emit_block plan_with block_step ◌>>=◌ has_executable
bind_vars_emitted line vars s m = rw m (rw (export_last-append line vars s.plan.steps _) refl)

flushed :
    (line : ℕ) (vars : List ExportVar) (s : State)
    → s.mode ≡ in_local
    → has_executable s ≡ true
    → (bind_vars line vars s >>= λ s'. ok (flush s')) ≡ bind_vars line vars (flush s)
unfolding ◌>>=◌ has_executable
flushed line vars s m e =
    ap (λ r. r >>= λ s'. ok (flush s')) (bind_vars_pending line vars s m e)
    ∙ ap ok (flush_block (record s { pending_export = s.pending_export ++ vars }) e)
    ∙ sym (bind_vars_emitted line vars s m)
    ∙ ap (bind_vars line vars) (sym (flush_block s e))

-- While the pending block of a local script holds an executable line, `@export` may stand in front
-- of the flush of that block or behind it, with any payload: both orders give the same result, the
-- same error or the same state.
pub declare_export-flush :
    (payload : Text) (line : ℕ) (s : State)
    → s.mode ≡ in_local
    → has_executable s ≡ true
    → (declare_export payload line s >>= λ s'. ok (flush s'))
      ≡ declare_export payload line (flush s)
unfolding declare_export ◌>>=◌
declare_export-flush payload line s m e = elim (Result-cases (read_exports payload line)) [
  | inr (x, r) ↦ rw (r, declare_export) refl
  | inl (vars, r) ↦ rw (r, declare_export) (flushed line vars s m e)
]
