-- ===== src/Dsl/Step/Access.antt =====
-- crates/shellflow-dsl/src/plan.rs: the accessors of `Step`.
use shellflow.Base.{ℕ, Option, none, some, Text}
use shellflow.Base.Text.{codes}
use shellflow.Dsl.Target.{Target}
use shellflow.Dsl.Step.{
  Step, local_step, remote_step, copy_step, wait_step, reload_step, assert_step, service_step,
  install_step, backup_step, credstore_step, unit_inventory_step, helper_step, release_step,
  build_step, toolchain_step, image_step,
}

-- `Step::name`
unfoldable pub step_name : Step → Option Text
step_name (local_step s) = s.name
step_name (remote_step s) = s.name
step_name (copy_step s) = s.name
step_name (wait_step s) = s.name
step_name (reload_step s) = s.name
step_name (assert_step s) = s.name
step_name (service_step s) = s.name
step_name (install_step s) = s.name
step_name (backup_step s) = s.name
step_name (credstore_step s) = s.name
step_name (unit_inventory_step s) = s.name
step_name (helper_step s) = s.name
step_name (release_step s) = s.name
step_name (build_step s) = s.name
step_name (toolchain_step s) = s.name
step_name (image_step s) = s.name

-- `Step::kind`
unfoldable pub kind : Step → Text
kind (local_step s) = codes "local"
kind (remote_step s) = codes "remote"
kind (copy_step s) = codes "copy"
kind (wait_step s) = codes "wait_active"
kind (reload_step s) = codes "reload"
kind (assert_step s) = codes "assert"
kind (service_step s) = codes "service"
kind (install_step s) = codes "install"
kind (backup_step s) = codes "backup"
kind (credstore_step s) = codes "credstore"
kind (unit_inventory_step s) = codes "unit_inventory"
kind (helper_step s) = codes "helper"
kind (release_step s) = codes "release"
kind (build_step s) = codes "build"
kind (toolchain_step s) = codes "toolchain"
kind (image_step s) = codes "image"

-- `Step::target`
unfoldable pub step_target : Step → Option Target
step_target (local_step s) = none
step_target (remote_step s) = some s.target
step_target (copy_step s) = some s.target
step_target (wait_step s) = some s.target
step_target (reload_step s) = some s.target
step_target (assert_step s) = some s.target
step_target (service_step s) = some s.target
step_target (install_step s) = some s.target
step_target (backup_step s) = some s.target
step_target (credstore_step s) = some s.target
step_target (unit_inventory_step s) = some s.target
step_target (helper_step s) = some s.target
step_target (release_step s) = some s.target
step_target (build_step s) = some s.target
step_target (toolchain_step s) = some s.target
step_target (image_step s) = some s.target

unfoldable pub target_text : Step → Option Text
unfolding step_target
target_text s = elim (step_target s) [ none ↦ none | some target ↦ some target.text ]

-- `Step::guard`
unfoldable pub step_guard : Step → Option Text
step_guard (local_step s) = s.guard
step_guard (remote_step s) = s.guard
step_guard (copy_step s) = none
step_guard (wait_step s) = none
step_guard (reload_step s) = none
step_guard (assert_step s) = none
step_guard (service_step s) = none
step_guard (install_step s) = none
step_guard (backup_step s) = none
step_guard (credstore_step s) = none
step_guard (unit_inventory_step s) = none
step_guard (helper_step s) = none
step_guard (release_step s) = none
step_guard (build_step s) = none
step_guard (toolchain_step s) = none
step_guard (image_step s) = none

-- `Step::timeout`
unfoldable pub step_timeout : Step → Option ℕ
step_timeout (local_step s) = s.timeout
step_timeout (remote_step s) = s.timeout
step_timeout (copy_step s) = s.timeout
step_timeout (wait_step s) = s.timeout
step_timeout (reload_step s) = s.timeout
step_timeout (assert_step s) = s.timeout
step_timeout (service_step s) = s.timeout
step_timeout (install_step s) = s.timeout
step_timeout (backup_step s) = s.timeout
step_timeout (credstore_step s) = s.timeout
step_timeout (unit_inventory_step s) = s.timeout
step_timeout (helper_step s) = s.timeout
step_timeout (release_step s) = s.timeout
step_timeout (build_step s) = s.timeout
step_timeout (toolchain_step s) = s.timeout
step_timeout (image_step s) = s.timeout
