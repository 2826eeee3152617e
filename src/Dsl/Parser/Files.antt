-- ===== src/Dsl/Parser/Files.antt =====
-- crates/shellflow-dsl/src/parser.rs: the directives that move files: `@copy`.
use shellflow.Base.{
  ℕ, Bool, true, false, not, ◌&&◌, List, [], ◌∷◌, ◌++◌, Option, none, some, Text, ◌==◌,
  if◌then◌else◌, is_empty, is_some,
}
use shellflow.Base.Text.{codes, eq_text, split_once, trim}
use shellflow.Base.Result.{Result, ok, err, ◌>>=◌, ◌>>◌, ok_or, ensure, try_fold}
use shellflow.Shell.{strip_surrounding_quotes}
use shellflow.Dsl.Error.{ParseError, invalid_directive}
use shellflow.Dsl.Target.{EnvEntry, literal, passthrough, target_at}
use shellflow.Dsl.Step.{Step, CopyStep, copy_step, as_copy}
use shellflow.Dsl.Parser.Flags.{
  Flag, ticked, split_flags, flag_value, unknown_flag, require_target, reject_guard, split_last,
  join_spaces,
}
use shellflow.Dsl.Parser.State.{State}

-- The source path in front of the arrow, and what follows it.
unfoldable pub read_source : Text → Text → ℕ → Text → Result ParseError (Text × Text)
unfolding split_once trim
read_source directive usage line payload = do
  (src, rest) ← ok_or (invalid_directive line directive usage) (split_once (codes "->") payload)
  ensure (not (is_empty (trim src)))
      (invalid_directive line directive (codes "missing source path"))
  ok (trim src, rest)

-- `delete` and `excludes`
abbrev pub CopyFlags : Type 0
CopyFlags = Bool × List Text

unfoldable pub exclude_glob : ℕ → Text → Result ParseError Text
unfolding trim strip_surrounding_quotes
exclude_glob line raw =
    let glob = trim (strip_surrounding_quotes raw) in
    if is_empty glob
    then err (
        invalid_directive line (codes "copy")
          (ticked [] (codes "--exclude") (codes " glob must not be empty")))
    else ok glob

unfoldable pub copy_flag : ℕ → CopyFlags → Flag → Result ParseError CopyFlags
unfolding eq_text flag_value exclude_glob unknown_flag
copy_flag line (delete, excludes) (flag, value) =
    if eq_text flag (codes "--delete")
    then ok (true, excludes)
    else if eq_text flag (codes "--exclude")
    then flag_value value flag (codes "copy") line
      >>= (λ raw. exclude_glob line raw >>= λ glob. ok (delete, excludes ++ glob ∷ []))
    else err (unknown_flag (codes "copy") flag line)

-- The target is the last positional argument; the others are the destination.
unfoldable pub copy_target : ℕ → List Text → Result ParseError (Text × Text)
unfolding require_target join_spaces
copy_target line positional = do
  (front, last) ←
      ok_or (invalid_directive line (codes "copy") (codes "missing target")) (split_last positional)
  target ← require_target last (codes "copy") line
  ensure (not (is_empty (join_spaces front)))
      (invalid_directive line (codes "copy") (codes "missing destination path"))
  ok (target, join_spaces front)

unfoldable pub eq_texts : List Text → List Text → Bool
unfolding eq_text
eq_texts [] [] = true
eq_texts (x ∷ xs) (y ∷ ys) = eq_text x y && eq_texts xs ys
eq_texts _ _ = false

abbrev pub eq_entry : EnvEntry → EnvEntry → Bool
eq_entry (literal k v) (literal k' v') = eq_text k k' && eq_text v v'
eq_entry (passthrough k) (passthrough k') = eq_text k k'
eq_entry _ _ = false

unfoldable pub eq_env : List EnvEntry → List EnvEntry → Bool
unfolding eq_text
eq_env [] [] = true
eq_env (x ∷ xs) (y ∷ ys) = eq_entry x y && eq_env xs ys
eq_env _ _ = false

abbrev pub eq_bool : Bool → Bool → Bool
eq_bool true b = b
eq_bool false b = not b

abbrev pub eq_timeout : Option ℕ → Option ℕ → Bool
eq_timeout none none = true
eq_timeout (some m) (some n) = m == n
eq_timeout _ _ = false

-- A copy of one entry, as a directive reads it.
unfoldable pub read_copy : Text → ℕ → State → Result ParseError (Text × CopyStep)
unfolding read_source split_flags try_fold copy_flag copy_target target_at
read_copy payload line s = do
  (src, rest) ←
      read_source (codes "copy")
        (ticked (codes "expected ") (codes "src -> dst @target [--delete] [--exclude <glob>]") [])
        line payload
  (positional, flags) ← split_flags rest (codes "--delete" ∷ []) (codes "copy") line
  (delete, excludes) ← try_fold (copy_flag line) (false, []) flags
  (target, dst) ← copy_target line positional
  ok (
    target,
    record {
      name = s.pending_name;
      entries = record { src = src; dst = dst } ∷ [];
      target = target_at target line;
      delete = delete;
      excludes = excludes;
      timeout = s.pending_timeout;
      env = s.plan.env;
    },
  )

-- The key that two copies in a row share when they travel together.
unfoldable pub copies_alike : Text → CopyStep → CopyStep → Bool
unfolding eq_text eq_texts eq_env
copies_alike target existing new =
    eq_text existing.target.text target
    && eq_bool existing.delete new.delete
    && eq_texts existing.excludes new.excludes
    && eq_timeout existing.timeout new.timeout
    && eq_env existing.env new.env

-- The last step takes the entries of a copy like itself; else the copy becomes a step.
unfoldable pub merge_copy : Text → CopyStep → List Step → List Step
unfolding copies_alike as_copy
merge_copy target new [] = copy_step new ∷ []
merge_copy target new (step ∷ next ∷ steps) = step ∷ merge_copy target new (next ∷ steps)
merge_copy target new (step ∷ []) = elim (as_copy step) [
  | none ↦ step ∷ copy_step new ∷ []
  | some existing ↦
      if copies_alike target existing new
      then copy_step (record existing { entries = existing.entries ++ new.entries }) ∷ []
      else step ∷ copy_step new ∷ []
]

unfoldable pub push_copy : Text → CopyStep → State → State
unfolding merge_copy
push_copy target new s = record s {
  plan = record s.plan {
    steps =
        if is_some new.name
        then s.plan.steps ++ copy_step new ∷ []
        else merge_copy target new s.plan.steps;
  };
  pending_name = none;
  pending_timeout = none;
  last_target = some target;
}

unfoldable pub add_copy : Text → ℕ → State → Result ParseError State
unfolding reject_guard read_copy push_copy
add_copy payload line s = do
  reject_guard s.pending_guard (codes "copy") line
  (target, new) ← read_copy payload line s
  ok (push_copy target new s)
