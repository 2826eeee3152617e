-- ===== src/Dsl/Valid/Files.antt =====
-- The steps of `@copy`, `@install`, `@backup` and `@credstore`.
use shellflow.Base.{ℕ, ◌≤◌, List, [], ◌∷◌, Option, none, some, Text, refl, All, All-append}
use shellflow.Base.Text.{codes, eq_text, trim}
use shellflow.Base.Text.Number.{parse_uint, parse_uint_bound, max_u32}
use shellflow.Base.Yields.{
  Yields, Yields-ok, Yields-err, Yields-if, Yields-either, Yields-then, Yields-bind,
  Yields-try_fold, Yields-ensure, Yields-map,
}
use shellflow.Shell.{is_valid_var_name}
use shellflow.Dsl.Step.{copy_step}
use shellflow.Dsl.Step.Access.{step_timeout}
use shellflow.Dsl.Parser.Flags.{Flag, comma_list, join_spaces, split_last}
use shellflow.Dsl.Parser.Files.{read_source, copy_target, read_copy}
use shellflow.Dsl.Parser.State.{State}
use shellflow.Dsl.Parser.Store.{
  InstallFlags, BackupFlags, install_flag, read_install, keep_count, backup_flag, check_paths,
  check_dir, some_paths, read_backup, require_key, credstore_flag, read_credstore,
}
use shellflow.Dsl.Valid.{
  IsTimeout, IsUnit, IsEntry, IsStep, IsVariable, IsAbsolute, IsFilled, IsPositive, Optionally,
  ReadsStep,
}
use shellflow.Dsl.Valid.Values.{
  not_empty, parse_mode_bound, service_name-IsUnit, positive-IsPositive,
}

read_source-IsFilled :
    (directive usage payload : Text) (line : ℕ)
    → Yields (λ found. IsFilled found.0) (read_source directive usage line payload)
unfolding read_source
read_source-IsFilled directive usage payload line =
    Yields-then _
      (λ (src, rest). Yields-bind (Yields-ensure _ _) (λ _ e. Yields-ok _ (not_empty (trim src) e)))

copy_target-IsFilled :
    (line : ℕ) (positional : List Text)
    → Yields (λ found. IsFilled found.1) (copy_target line positional)
unfolding copy_target
copy_target-IsFilled line positional = Yields-then _ (λ (front, last). Yields-then _ (λ target.
    Yields-bind (Yields-ensure _ _) (λ _ e. Yields-ok _ (not_empty (join_spaces front) e))))

pub read_copy-IsStep :
    (payload : Text) (line : ℕ) (s : State)
    → IsTimeout s.pending_timeout
    → All IsEntry s.plan.env
    → Yields (λ found. IsStep (copy_step found.1)) (read_copy payload line s)
unfolding read_copy step_timeout
read_copy-IsStep payload line s t h =
    Yields-bind (read_source-IsFilled _ _ payload line) (λ (src, rest) f.
      Yields-then _ (λ (positional, flags). Yields-then _ (λ (delete, excludes).
        Yields-bind (copy_target-IsFilled line positional)
          (λ (target, dst) g. Yields-ok _ (t, (refl, ((f, g), tt), h))))))

abbrev IsMode : Option ℕ → Type 0
IsMode = Optionally (λ mode. mode ≤ max_u32)

abbrev IsInstall : InstallFlags → Type 0
IsInstall opts = IsMode opts.mode × IsMode opts.dir_mode

install_flag-IsInstall :
    (line : ℕ) (opts : InstallFlags) (flag : Flag)
    → IsInstall opts
    → Yields IsInstall (install_flag line opts flag)
unfolding install_flag
install_flag-IsInstall line opts (flag, value) (m, d) =
    Yields-either (eq_text flag (codes "--mode"))
      (Yields-then _
        (λ raw. Yields-bind (parse_mode_bound raw _ line) (λ mode p. Yields-ok _ (p, d))))
      (Yields-either (eq_text flag (codes "--dir-mode"))
        (Yields-then _
          (λ raw. Yields-bind (parse_mode_bound raw _ line) (λ mode p. Yields-ok _ (m, p))))
        (Yields-either (eq_text flag (codes "--owner"))
          (Yields-then _ (λ raw. Yields-then _ (λ owner. Yields-ok _ (m, d)))) (Yields-err _)))

pub read_install-IsStep :
    (payload : Text) (line : ℕ) (s : State)
    → IsTimeout s.pending_timeout
    → ReadsStep (read_install payload line s)
unfolding read_install step_timeout
read_install-IsStep payload line s t = Yields-then _ (λ (src, rest).
    Yields-then _ (λ (positional, flags).
      Yields-bind (Yields-try_fold _ _ flags (install_flag-IsInstall line) (tt, tt)) (λ opts (m, d).
        Yields-then _ (λ (dst, raw_target).
          Yields-bind (Yields-ensure _ _)
            (λ _ a. Yields-then _ (λ target. Yields-ok _ (t, (a, m, d))))))))

abbrev IsBackup : BackupFlags → Type 0
IsBackup opts = Optionally IsUnit opts.service × Optionally (IsPositive max_u32) opts.keep

keep_count-IsPositive : (line : ℕ) (raw : Text) → Yields (IsPositive max_u32) (keep_count line raw)
unfolding keep_count
keep_count-IsPositive line raw =
    positive-IsPositive max_u32 _ _ (parse_uint max_u32 raw) (parse_uint_bound max_u32 raw)

backup_flag-IsBackup :
    (line : ℕ) (opts : BackupFlags) (flag : Flag)
    → IsBackup opts
    → Yields IsBackup (backup_flag line opts flag)
unfolding backup_flag
backup_flag-IsBackup line opts (flag, value) (u, k) =
    Yields-either (eq_text flag (codes "--keep"))
      (Yields-then _
        (λ raw. Yields-bind (keep_count-IsPositive line raw) (λ count p. Yields-ok _ (u, p))))
      (Yields-either (eq_text flag (codes "--seal")) (Yields-ok _ (u, k)) (
        Yields-either (eq_text flag (codes "--service"))
          (Yields-then _
            (λ raw. Yields-bind (service_name-IsUnit _ line raw) (λ name p. Yields-ok _ (p, k))))
          (Yields-either (eq_text flag (codes "--dir")) (Yields-then _ (λ raw. Yields-ok _ (u, k)))
            (Yields-err _))))

check_paths-IsAbsolute :
    (line : ℕ) (paths : List Text) → Yields (λ _. All IsAbsolute paths) (check_paths line paths)
unfolding check_paths
check_paths-IsAbsolute line [] = Yields-ok _ tt
check_paths-IsAbsolute line (path ∷ paths) =
    Yields-bind (Yields-ensure _ _)
      (λ _ a. Yields-map _ (check_paths-IsAbsolute line paths) (λ _ rest. (a, rest)))

check_dir-IsAbsolute :
    (line : ℕ) (dir : Option Text) → Yields (λ _. Optionally IsAbsolute dir) (check_dir line dir)
unfolding check_dir
check_dir-IsAbsolute line none = Yields-ok _ tt
check_dir-IsAbsolute line (some dir) = Yields-ensure _ _

some_paths-IsFilled :
    (line : ℕ) (found : Option (List Text × Text))
    → Yields (λ found. IsFilled found.0) (some_paths line found)
unfolding some_paths
some_paths-IsFilled line none = Yields-err _
some_paths-IsFilled line (some ([], raw_target)) = Yields-err _
some_paths-IsFilled line (some (path ∷ paths, raw_target)) = Yields-ok _ refl

pub read_backup-IsStep :
    (payload : Text) (line : ℕ) (s : State)
    → IsTimeout s.pending_timeout
    → ReadsStep (read_backup payload line s)
unfolding read_backup step_timeout
read_backup-IsStep payload line s t = Yields-then _ (λ (positional, flags).
    Yields-bind (Yields-try_fold _ _ flags (backup_flag-IsBackup line) (tt, tt)) (λ opts (u, k).
      Yields-bind (some_paths-IsFilled line (split_last positional)) (λ (paths, raw_target) f.
        Yields-then _ (λ target. Yields-bind (check_paths-IsAbsolute line paths) (λ _ a.
          Yields-bind (check_dir-IsAbsolute line opts.dir)
            (λ _ d. Yields-ok _ (t, (f, a, d, u, k))))))))

require_key-IsVariable :
    (line : ℕ) (keys : List Text) (key : Text)
    → All IsVariable keys
    → Yields (All IsVariable) (require_key line keys key)
unfolding require_key
require_key-IsVariable line keys key h =
    Yields-if (is_valid_var_name key) _ _
      (λ e. Yields-ok _ (All-append IsVariable keys (key ∷ []) h (e, tt))) (λ _. Yields-err _)

credstore_flag-IsVariable :
    (line : ℕ) (keys : List Text) (flag : Flag)
    → All IsVariable keys
    → Yields (All IsVariable) (credstore_flag line keys flag)
unfolding credstore_flag
credstore_flag-IsVariable line keys (flag, value) h =
    Yields-either (eq_text flag (codes "--require"))
      (Yields-then _ (λ raw. Yields-try_fold _ _ (comma_list raw) (require_key-IsVariable line) h))
      (Yields-err _)

pub read_credstore-IsStep :
    (payload : Text) (line : ℕ) (s : State)
    → IsTimeout s.pending_timeout
    → ReadsStep (read_credstore payload line s)
unfolding read_credstore step_timeout
read_credstore-IsStep payload line s t = Yields-then _ (λ (positional, flags).
    Yields-bind (Yields-try_fold _ _ flags (credstore_flag-IsVariable line) tt) (λ keys k.
      Yields-then _ (λ (raw_service, raw_target).
        Yields-bind (service_name-IsUnit (codes "credstore") line (trim raw_service))
          (λ service u. Yields-then _ (λ target. Yields-ok _ (t, (u, k)))))))
