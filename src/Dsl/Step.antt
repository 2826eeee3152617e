-- ===== src/Dsl/Step.antt =====
-- crates/shellflow-dsl/src/plan.rs: the steps of a plan. The `Arc` of an environment is shared and
-- never written through a step, so it is its list here.
pub mod Access
use shellflow.Base.{ℕ, Bool, List, Option, none, some, Text, ◌≡◌, arith}
use shellflow.Base.Text.{codes}
use shellflow.Dsl.Target.{Target, EnvEntry}
use shellflow.Dsl.States.{ActiveState, EnabledState}

pub record ExportVar : Type 0 where
  pub name : Text
  pub public : Bool

pub record LocalStep : Type 0 where
  pub name : Option Text
  pub script : Text
  pub guard : Option Text
  pub timeout : Option ℕ
  pub export : List ExportVar
  pub env : List EnvEntry

pub record RemoteStep : Type 0 where
  pub name : Option Text
  pub target : Target
  pub script : Text
  pub guard : Option Text
  pub timeout : Option ℕ
  pub env : List EnvEntry

pub record CopyEntry : Type 0 where
  pub src : Text
  pub dst : Text

pub record CopyStep : Type 0 where
  pub name : Option Text
  pub entries : List CopyEntry
  pub target : Target
  pub delete : Bool
  pub excludes : List Text
  pub timeout : Option ℕ
  pub env : List EnvEntry

pub record WaitStep : Type 0 where
  pub name : Option Text
  pub target : Target
  pub unit : Text
  pub timeout : Option ℕ
  pub interval_secs : ℕ

pub record ReloadStep : Type 0 where
  pub name : Option Text
  pub target : Target
  pub unit : Text
  pub signal : Option Text
  pub wait : Bool
  pub timeout : Option ℕ

-- The fields of a constructor are those of the source, in their order.
pub data Assertion : Type 0 where
  unit_state : Text → ActiveState → Assertion
  enabled : Text → EnabledState → Assertion
  health : Text → List Text → Option Text → Option Text → List Text → Assertion
  port : List ℕ → Bool → Assertion
  port_free : List ℕ → Assertion
  rendered : Text → Assertion
  no_leak : Text → Option ℕ → Assertion
  digest : Text → Option Text → Option Text → Assertion
  credstore : Text → Assertion

pub record ServiceStep : Type 0 where
  pub name : Option Text
  pub target : Target
  pub unit : Text
  pub enable : Bool
  pub restart : Bool
  pub reload : Bool
  pub wait : Bool
  pub verify : Bool
  pub force_start : Bool
  pub timeout : Option ℕ

pub record InstallStep : Type 0 where
  pub name : Option Text
  pub target : Target
  pub src : Text
  pub dst : Text
  pub mode : Option ℕ
  pub owner : Option Text
  pub dir_mode : Option ℕ
  pub timeout : Option ℕ

pub record BackupStep : Type 0 where
  pub name : Option Text
  pub target : Target
  pub paths : List Text
  pub service : Option Text
  pub keep : Option ℕ
  pub seal : Bool
  pub dir : Option Text
  pub timeout : Option ℕ

pub record CredstoreStep : Type 0 where
  pub name : Option Text
  pub target : Target
  pub service : Text
  pub require : List Text
  pub timeout : Option ℕ

pub record UnitInventoryStep : Type 0 where
  pub name : Option Text
  pub target : Target
  pub timeout : Option ℕ

pub record HelperStep : Type 0 where
  pub name : Option Text
  pub target : Target
  pub source : Option Text
  pub triple : Option Text
  pub install_path : Text
  pub timeout : Option ℕ

pub record ReleaseStep : Type 0 where
  pub name : Option Text
  pub target : Target
  pub repo : Text
  pub installed_cmd : Text
  pub asset : Text
  pub to_dir : Text
  pub base_url : Option Text
  pub timeout : Option ℕ

pub record BuildStep : Type 0 where
  pub name : Option Text
  pub target : Target
  pub repo : Text
  pub workdir : Option Text
  pub git_ref : Text
  pub build_cmd : Text
  pub prep_cmd : Option Text
  pub artifacts : List Text
  pub install_dirs : List Text
  pub units : List Text
  pub version_flag : Text
  pub min_free_gb : ℕ
  pub timeout : Option ℕ

pub record ToolchainStep : Type 0 where
  pub name : Option Text
  pub target : Target
  pub tools : List Text
  pub timeout : Option ℕ

pub record ImageStep : Type 0 where
  pub name : Option Text
  pub target : Target
  pub images : List Text
  pub prune : Bool
  pub timeout : Option ℕ

pub record AssertStep : Type 0 where
  pub name : Option Text
  pub target : Target
  pub checks : List Assertion
  pub timeout : Option ℕ

pub data Step : Type 0 where
  local_step : LocalStep → Step
  remote_step : RemoteStep → Step
  copy_step : CopyStep → Step
  wait_step : WaitStep → Step
  reload_step : ReloadStep → Step
  assert_step : AssertStep → Step
  service_step : ServiceStep → Step
  install_step : InstallStep → Step
  backup_step : BackupStep → Step
  credstore_step : CredstoreStep → Step
  unit_inventory_step : UnitInventoryStep → Step
  helper_step : HelperStep → Step
  release_step : ReleaseStep → Step
  build_step : BuildStep → Step
  toolchain_step : ToolchainStep → Step
  image_step : ImageStep → Step

-- The patterns `Step::Local(s)`, `Step::Copy(s)` and `Step::Assert(s)`.
unfoldable pub as_local : Step → Option LocalStep
as_local (local_step s) = some s
as_local _ = none

unfoldable pub as_copy : Step → Option CopyStep
as_copy (copy_step s) = some s
as_copy _ = none

unfoldable pub as_assert : Step → Option AssertStep
as_assert (assert_step s) = some s
as_assert _ = none

pub as_local-eq_some : (step : Step) (s : LocalStep) → as_local step ≡ some s → step ≡ local_step s
unfolding as_local
as_local-eq_some step s h = ground arith

pub as_copy-eq_some : (step : Step) (s : CopyStep) → as_copy step ≡ some s → step ≡ copy_step s
unfolding as_copy
as_copy-eq_some step s h = ground arith

pub as_assert-eq_some :
    (step : Step) (s : AssertStep) → as_assert step ≡ some s → step ≡ assert_step s
unfolding as_assert
as_assert-eq_some step s h = ground arith
