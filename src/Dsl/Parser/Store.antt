-- ===== src/Dsl/Parser/Store.antt =====
-- crates/shellflow-dsl/src/parser.rs: the directives that write files of the target: `@install`,
-- `@backup` and `@credstore`.
use shellflow.Base.{
  ℕ, Bool, true, false, List, [], ◌∷◌, ◌++◌, Option, none, some, Text, if◌then◌else◌,
}
use shellflow.Base.Text.{codes, eq_text, starts_with, trim}
use shellflow.Base.Text.Number.{parse_uint, max_u32}
use shellflow.Base.Result.{Result, ok, err, ◌>>=◌, ◌>>◌, ok_or, ensure, try_fold}
use shellflow.Shell.{is_valid_unit_name, is_valid_var_name}
use shellflow.Dsl.Error.{ParseError, invalid_directive}
use shellflow.Dsl.Target.{target_at}
use shellflow.Dsl.Step.{Step, install_step, backup_step, credstore_step}
use shellflow.Dsl.Parser.Flags.{
  Flag, ticked, split_flags, flag_value, unknown_flag, require_target, parse_mode, parse_owner,
  comma_list, exactly_two, is_absolute, split_last, ellipsis, positive,
}
use shellflow.Dsl.Parser.Files.{read_source}
use shellflow.Dsl.Parser.State.{State, add_step}

pub record InstallFlags : Type 0 where
  pub mode : Option ℕ
  pub owner : Option Text
  pub dir_mode : Option ℕ

unfoldable pub install_flag : ℕ → InstallFlags → Flag → Result ParseError InstallFlags
unfolding eq_text flag_value parse_mode parse_owner unknown_flag
install_flag line opts (flag, value) =
    if eq_text flag (codes "--mode")
    then flag_value value flag (codes "install") line >>= (λ raw.
      parse_mode raw (codes "install") line >>= λ mode. ok (record opts { mode = some mode }))
    else if eq_text flag (codes "--dir-mode")
    then flag_value value flag (codes "install") line >>= (λ raw.
      parse_mode raw (codes "install") line >>= λ mode. ok (record opts { dir_mode = some mode }))
    else if eq_text flag (codes "--owner")
    then flag_value value flag (codes "install") line >>= (λ raw.
      parse_owner raw (codes "install") line >>= λ owner. ok (record opts { owner = some owner }))
    else err (unknown_flag (codes "install") flag line)

unfoldable pub read_install : Text → ℕ → State → Result ParseError (Text × Step)
unfolding read_source split_flags try_fold install_flag trim require_target target_at
read_install payload line s = do
  (src, rest) ←
      read_source (codes "install")
        (ticked (codes "expected ") (codes "src -> dst @target [--mode M] [--owner U:G]") []) line
        payload
  (positional, flags) ← split_flags rest [] (codes "install") line
  opts ← try_fold (install_flag line) (record { mode = none; owner = none; dir_mode = none }) flags
  (raw_dst, raw_target) ←
      ok_or
        (invalid_directive line (codes "install") (
          ticked (codes "expected ")
            (codes "src -> dst @target [--mode M] [--owner U:G] [--dir-mode M]") []))
        (exactly_two positional)
  ensure (is_absolute (trim raw_dst)) (
      invalid_directive line (codes "install")
        (codes "the destination must be absolute (got " ++ ticked [] (trim raw_dst) (codes ")")))
  target ← require_target raw_target (codes "install") line
  ok (
    target,
    install_step (record {
      name = s.pending_name;
      target = target_at target line;
      src = src;
      dst = trim raw_dst;
      mode = opts.mode;
      owner = opts.owner;
      dir_mode = opts.dir_mode;
      timeout = s.pending_timeout;
    }),
  )

unfoldable pub add_install : Text → ℕ → State → Result ParseError State
unfolding read_install add_step
add_install payload line s = add_step (codes "install") line (read_install payload line s) s

pub record BackupFlags : Type 0 where
  pub keep : Option ℕ
  pub seal : Bool
  pub dir : Option Text
  pub service : Option Text

unfoldable pub keep_count : ℕ → Text → Result ParseError ℕ
unfolding parse_uint
keep_count line raw =
    positive (invalid_directive line (codes "backup") (ticked (codes "invalid keep count ") raw []))
      (invalid_directive line (codes "backup")
        (ticked [] (codes "--keep") (codes " must be greater than zero")))
      (parse_uint max_u32 raw)

unfoldable pub service_name : Text → ℕ → Text → Result ParseError Text
unfolding is_valid_unit_name
service_name directive line raw =
    if is_valid_unit_name raw
    then ok raw
    else err (invalid_directive line directive (ticked (codes "unsafe service name ") raw []))

unfoldable pub backup_flag : ℕ → BackupFlags → Flag → Result ParseError BackupFlags
unfolding eq_text flag_value keep_count service_name unknown_flag
backup_flag line opts (flag, value) =
    if eq_text flag (codes "--keep")
    then flag_value value flag (codes "backup") line
      >>= (λ raw. keep_count line raw >>= λ count. ok (record opts { keep = some count }))
    else if eq_text flag (codes "--seal")
    then ok (record opts { seal = true })
    else if eq_text flag (codes "--service")
    then flag_value value flag (codes "backup") line >>= (λ raw.
      service_name (codes "backup") line raw >>= λ service.
      ok (record opts { service = some service }))
    else if eq_text flag (codes "--dir")
    then flag_value value flag (codes "backup") line
      >>= (λ raw. ok (record opts { dir = some raw }))
    else err (unknown_flag (codes "backup") flag line)

unfoldable pub check_paths : ℕ → List Text → Result ParseError Unit
unfolding starts_with
check_paths line [] = ok tt
check_paths line (path ∷ paths) =
    ensure (is_absolute path) (
      invalid_directive line (codes "backup")
        (codes "the path must be absolute (got " ++ ticked [] path (codes ")")))
    >> check_paths line paths

unfoldable pub check_dir : ℕ → Option Text → Result ParseError Unit
unfolding starts_with
check_dir line none = ok tt
check_dir line (some dir) = ensure (is_absolute dir) (
    invalid_directive line (codes "backup")
      (codes "the snapshot directory must be absolute (got " ++ ticked [] dir (codes ")")))

abbrev pub backup_usage : ℕ → ParseError
backup_usage line = invalid_directive line (codes "backup") (
    ticked (codes "expected ")
      (codes "<path>" ++ ellipsis ++ codes " @<target> [--keep N] [--seal] [--dir PATH]") [])

-- The paths, and the target behind them.
unfoldable pub some_paths : ℕ → Option (List Text × Text) → Result ParseError (List Text × Text)
some_paths line (some (path ∷ paths, raw_target)) = ok (path ∷ paths, raw_target)
some_paths line _ = err (backup_usage line)

unfoldable pub read_backup : Text → ℕ → State → Result ParseError (Text × Step)
unfolding split_flags try_fold backup_flag some_paths require_target check_paths check_dir target_at
read_backup payload line s = do
  (positional, flags) ← split_flags payload (codes "--seal" ∷ []) (codes "backup") line
  opts ←
      try_fold (backup_flag line) (record { keep = none; seal = false; dir = none; service = none })
        flags
  (paths, raw_target) ← some_paths line (split_last positional)
  target ← require_target raw_target (codes "backup") line
  check_paths line paths
  check_dir line opts.dir
  ok (
    target,
    backup_step (record {
      name = s.pending_name;
      target = target_at target line;
      paths = paths;
      service = opts.service;
      keep = opts.keep;
      seal = opts.seal;
      dir = opts.dir;
      timeout = s.pending_timeout;
    }),
  )

unfoldable pub add_backup : Text → ℕ → State → Result ParseError State
unfolding read_backup add_step
add_backup payload line s = add_step (codes "backup") line (read_backup payload line s) s

unfoldable pub require_key : ℕ → List Text → Text → Result ParseError (List Text)
unfolding is_valid_var_name
require_key line keys key =
    if is_valid_var_name key
    then ok (keys ++ key ∷ [])
    else err (
        invalid_directive line (codes "credstore")
          (ticked (codes "invalid credential key ") key []))

unfoldable pub credstore_flag : ℕ → List Text → Flag → Result ParseError (List Text)
unfolding eq_text flag_value try_fold require_key comma_list unknown_flag
credstore_flag line keys (flag, value) =
    if eq_text flag (codes "--require")
    then flag_value value flag (codes "credstore") line
      >>= (λ raw. try_fold (require_key line) keys (comma_list raw))
    else err (unknown_flag (codes "credstore") flag line)

unfoldable pub read_credstore : Text → ℕ → State → Result ParseError (Text × Step)
unfolding split_flags try_fold credstore_flag service_name trim require_target target_at
read_credstore payload line s = do
  (positional, flags) ← split_flags payload [] (codes "credstore") line
  keys ← try_fold (credstore_flag line) [] flags
  (raw_service, raw_target) ←
      ok_or
        (invalid_directive line (codes "credstore") (
          ticked (codes "expected ")
            (codes "<service> @<target> [--require KEY," ++ ellipsis ++ codes "]") []))
        (exactly_two positional)
  service ← service_name (codes "credstore") line (trim raw_service)
  target ← require_target raw_target (codes "credstore") line
  ok (
    target,
    credstore_step (record {
      name = s.pending_name;
      target = target_at target line;
      service = service;
      require = keys;
      timeout = s.pending_timeout;
    }),
  )

unfoldable pub add_credstore : Text → ℕ → State → Result ParseError State
unfolding read_credstore add_step
add_credstore payload line s = add_step (codes "credstore") line (read_credstore payload line s) s
