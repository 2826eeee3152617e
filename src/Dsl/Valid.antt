-- ===== src/Dsl/Valid.antt =====
-- What the scanner of crates/shellflow-dsl/src/parser.rs promises of the plan that it returns: the
-- names, numbers and paths of a plan that the later stages put into commands.
pub mod Values
pub mod Declarations
pub mod Files
pub mod Units
pub mod Builds
pub mod Checks
pub mod Probes
pub mod Exports
pub mod Steps
pub mod Keywords
pub mod Scan
pub mod Groups
use shellflow.Base.{
  ℕ, ◌<◌, ◌≤◌, Bool, true, false, not, List, [], ◌∷◌, Option, none, some, Text, is_empty, all, All,
  ◌≡◌, ◌||◌,
}
use shellflow.Base.Text.{codes, starts_with, contains}
use shellflow.Base.Text.Number.{max_u64, max_u32}
use shellflow.Base.Result.{Result}
use shellflow.Base.Yields.{Yields}
use shellflow.Dsl.Error.{ParseError}
use shellflow.Shell.{is_valid_var_name, is_valid_unit_name, is_word}
use shellflow.Dsl.SshSpec.{SshSpec}
use shellflow.Dsl.SshSpec.Print.{IsSpec}
use shellflow.Dsl.Target.{EnvEntry, literal, passthrough}
use shellflow.Dsl.Step.{
  Step, ExportVar, CopyEntry, Assertion, local_step, remote_step, copy_step, wait_step, reload_step,
  assert_step, service_step, install_step, backup_step, credstore_step, unit_inventory_step,
  helper_step, release_step, build_step, toolchain_step, image_step, unit_state, enabled, health,
  port, port_free, rendered, no_leak, digest, credstore,
}
use shellflow.Dsl.Step.Access.{step_timeout}
use shellflow.Dsl.Plan.{ExecutionPlan}
use shellflow.Dsl.Parser.Flags.{is_valid_alias_name, is_absolute, is_known_tool, is_status_pattern}
use shellflow.Dsl.Parser.Builds.{is_repo}
use shellflow.Dsl.Parser.State.{State}

abbrev pub IsAlias : Text → Type 0
IsAlias name = is_valid_alias_name name ≡ true

abbrev pub IsVariable : Text → Type 0
IsVariable name = is_valid_var_name name ≡ true

abbrev pub IsUnit : Text → Type 0
IsUnit unit = is_valid_unit_name unit ≡ true

abbrev pub IsAbsolute : Text → Type 0
IsAbsolute path = is_absolute path ≡ true

abbrev pub IsFilled {ℓ} : {A : Type ℓ} → List A → Type 0
IsFilled xs = is_empty xs ≡ false

-- A value that may be left out.
abbrev pub Optionally {ℓ} : {A : Type ℓ} → (A → Type 0) → Option A → Type 0
Optionally P none = Unit
Optionally P (some a) = P a

abbrev pub IsPositive : ℕ → ℕ → Type 0
IsPositive limit n = (1 ≤ n) × (n ≤ limit)

abbrev pub IsTimeout : Option ℕ → Type 0
IsTimeout = Optionally (IsPositive max_u64)

abbrev pub IsEntry : EnvEntry → Type 0
IsEntry (literal key value) = IsVariable key
IsEntry (passthrough key) = IsVariable key

abbrev pub IsExport : ExportVar → Type 0
IsExport var = IsVariable var.name

abbrev pub IsPorts : List ℕ → Type 0
IsPorts ports = IsFilled ports × All (IsPositive 65535) ports

abbrev pub IsCheck : Assertion → Type 0
IsCheck (unit_state unit state) = IsUnit unit
IsCheck (enabled unit state) = IsUnit unit
IsCheck (health url expect method body headers) =
    ((starts_with (codes "http://") url || starts_with (codes "https://") url) ≡ true)
    × All (λ code. is_status_pattern code ≡ true) expect
IsCheck (port ports udp) = IsPorts ports
IsCheck (port_free ports) = IsPorts ports
IsCheck (rendered path) = IsAbsolute path
IsCheck (no_leak unit lines) = IsUnit unit × Optionally (IsPositive max_u64) lines
IsCheck (digest path sha256 file) = IsAbsolute path
IsCheck (credstore service) = IsUnit service

-- A source and a destination are given.
abbrev pub IsTransfer : CopyEntry → Type 0
IsTransfer entry = IsFilled entry.src × IsFilled entry.dst

-- What a step holds beside its timeout.
abbrev pub IsBody : Step → Type 0
IsBody (local_step s) = All IsExport s.export × All IsEntry s.env
IsBody (remote_step s) = All IsEntry s.env
IsBody (copy_step s) = IsFilled s.entries × All IsTransfer s.entries × All IsEntry s.env
IsBody (wait_step s) = IsUnit s.unit
IsBody (reload_step s) = IsUnit s.unit × Optionally (λ sig. all is_word sig ≡ true) s.signal
IsBody (assert_step s) = IsFilled s.checks × All IsCheck s.checks
IsBody (service_step s) = IsUnit s.unit
IsBody (install_step s) =
    IsAbsolute s.dst
    × Optionally (λ mode. mode ≤ max_u32) s.mode
    × Optionally (λ mode. mode ≤ max_u32) s.dir_mode
IsBody (backup_step s) =
    IsFilled s.paths
    × All IsAbsolute s.paths
    × Optionally IsAbsolute s.dir
    × Optionally IsUnit s.service
    × Optionally (IsPositive max_u32) s.keep
IsBody (credstore_step s) = IsUnit s.service × All IsVariable s.require
IsBody (unit_inventory_step s) = Unit
IsBody (helper_step s) = IsAbsolute s.install_path
IsBody (release_step s) = (is_repo s.repo ≡ true) × IsAbsolute s.to_dir
IsBody (build_step s) =
    IsFilled s.artifacts
    × IsFilled s.install_dirs
    × All IsAbsolute s.install_dirs
    × All IsUnit s.units
    × Optionally IsAbsolute s.workdir
IsBody (toolchain_step s) = IsFilled s.tools × All (λ tool. is_known_tool tool ≡ true) s.tools
IsBody (image_step s) = IsFilled s.images

abbrev pub IsStep : Step → Type 0
IsStep step = IsTimeout (step_timeout step) × IsBody step

abbrev pub IsServer : Text × SshSpec → Type 0
IsServer (name, spec) = IsAlias name × IsSpec spec

abbrev pub IsGroup : Text × List Text → Type 0
IsGroup (name, members) = IsAlias name × All IsAlias members

abbrev pub IsPlan : ExecutionPlan → Type 0
IsPlan plan =
    All IsServer plan.servers
    × All IsGroup plan.groups
    × All IsEntry plan.env
    × All IsStep plan.steps

-- The plan so far, and what waits for the next block.
abbrev pub IsState : State → Type 0
IsState s = IsPlan s.plan × All IsExport s.pending_export × IsTimeout s.pending_timeout

-- What a directive reads: a step with its target.
abbrev pub ReadsStep : Result ParseError (Text × Step) → Type 0
ReadsStep = Yields (λ found. IsStep found.1)
