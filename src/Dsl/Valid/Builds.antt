-- ===== src/Dsl/Valid/Builds.antt =====
-- The steps of `@unit_inventory`, `@helper`, `@release`, `@build`, `@toolchain` and `@image`.
use shellflow.Base.{
  ℕ, Bool, true, false, List, [], ◌∷◌, ◌++◌, Option, none, some, Text, ◌≡◌, refl, All, All-append,
  if◌then◌else◌, map,
}
use shellflow.Base.Text.{codes, eq_text, starts_with}
use shellflow.Base.Yields.{
  Yields, Yields-ok, Yields-err, Yields-if, Yields-either, Yields-then, Yields-bind,
  Yields-try_fold, Yields-ensure, Yields-map,
}
use shellflow.Shell.{normalize_unit}
use shellflow.Dsl.Step.Access.{step_timeout}
use shellflow.Dsl.Parser.Words.{split_words}
use shellflow.Dsl.Parser.Flags.{Flag, comma_list, is_absolute, is_known_tool, is_one_of}
use shellflow.Dsl.Parser.Builds.{
  HelperFlags, read_unit_inventory, helper_path, helper_flag, read_helper, read_release,
}
use shellflow.Dsl.Parser.Fleet.{
  check_workdir, check_dirs, check_units, read_build, add_tool, add_tools, read_toolchain,
  read_image,
}
use shellflow.Dsl.Parser.State.{State}
use shellflow.Dsl.Valid.{IsTimeout, IsUnit, IsAbsolute, Optionally, ReadsStep}
use shellflow.Dsl.Valid.Values.{not_empty, target_or_keeps}

pub read_unit_inventory-IsStep :
    (payload : Text) (line : ℕ) (s : State)
    → IsTimeout s.pending_timeout
    → ReadsStep (read_unit_inventory payload line s)
unfolding read_unit_inventory step_timeout
read_unit_inventory-IsStep payload line s t =
    Yields-then _ (λ (positional, flags). Yields-then _ (λ target. Yields-ok _ (t, tt)))

helper_path-IsAbsolute : (line : ℕ) (raw : Text) → Yields IsAbsolute (helper_path line raw)
unfolding helper_path
helper_path-IsAbsolute line raw =
    Yields-if (is_absolute raw) _ _ (λ e. Yields-ok raw e) (λ _. Yields-err _)

helper_flag-IsAbsolute :
    (line : ℕ) (opts : HelperFlags) (flag : Flag)
    → IsAbsolute opts.install_path
    → Yields (λ opts. IsAbsolute opts.install_path) (helper_flag line opts flag)
unfolding helper_flag
helper_flag-IsAbsolute line opts (flag, value) h =
    Yields-either (eq_text flag (codes "--source")) (Yields-then _ (λ raw. Yields-ok _ h)) (
      Yields-either (eq_text flag (codes "--triple")) (Yields-then _ (λ raw. Yields-ok _ h)) (
        Yields-either (eq_text flag (codes "--install-path"))
          (Yields-then _
            (λ raw. Yields-bind (helper_path-IsAbsolute line raw) (λ path p. Yields-ok _ p)))
          (Yields-err _)))

pub read_helper-IsStep :
    (payload : Text) (line : ℕ) (s : State)
    → IsTimeout s.pending_timeout
    → ReadsStep (read_helper payload line s)
unfolding read_helper step_timeout starts_with
read_helper-IsStep payload line s t = Yields-then _ (λ (positional, flags).
    Yields-bind (Yields-try_fold _ _ flags (helper_flag-IsAbsolute line) refl)
      (λ opts p. Yields-then _ (λ _. Yields-then _ (λ target. Yields-ok _ (t, p)))))

pub read_release-IsStep :
    (payload : Text) (line : ℕ) (s : State)
    → IsTimeout s.pending_timeout
    → ReadsStep (read_release payload line s)
unfolding read_release step_timeout
read_release-IsStep payload line s t = Yields-then _ (λ (positional, flags). Yields-then _ (λ opts.
    Yields-then _ (λ (repo, raw_target). Yields-bind (Yields-ensure _ _) (λ _ r.
      Yields-then _ (λ target. Yields-then _ (λ cmd. Yields-then _ (λ asset.
        Yields-then _ (λ to_dir.
          Yields-bind (Yields-ensure _ _)
            (λ _ a. Yields-then _ (λ _. Yields-ok _ (t, (r, a))))))))))))

check_workdir-IsAbsolute :
    (line : ℕ) (dir : Option Text)
    → Yields (λ _. Optionally IsAbsolute dir) (check_workdir line dir)
unfolding check_workdir
check_workdir-IsAbsolute line none = Yields-ok _ tt
check_workdir-IsAbsolute line (some dir) = Yields-ensure _ _

check_dirs-IsAbsolute :
    (line : ℕ) (dirs : List Text) → Yields (λ _. All IsAbsolute dirs) (check_dirs line dirs)
unfolding check_dirs
check_dirs-IsAbsolute line [] = Yields-ok _ tt
check_dirs-IsAbsolute line (dir ∷ dirs) =
    Yields-bind (Yields-ensure _ _)
      (λ _ a. Yields-map _ (check_dirs-IsAbsolute line dirs) (λ _ rest. (a, rest)))

check_units-IsUnit :
    (line : ℕ) (units : List Text)
    → Yields (λ _. All IsUnit (map normalize_unit units)) (check_units line units)
unfolding check_units
check_units-IsUnit line [] = Yields-ok _ tt
check_units-IsUnit line (unit ∷ units) =
    Yields-bind (Yields-ensure _ _)
      (λ _ u. Yields-map _ (check_units-IsUnit line units) (λ _ rest. (u, rest)))

pub read_build-IsStep :
    (payload : Text) (line : ℕ) (s : State)
    → IsTimeout s.pending_timeout
    → ReadsStep (read_build payload line s)
unfolding read_build step_timeout
read_build-IsStep payload line s t = Yields-then _ (λ (positional, flags). Yields-then _ (λ opts.
    Yields-then _ (λ (repo, raw_target). Yields-then _ (λ _. Yields-then _ (λ target.
      Yields-then _ (λ git_ref. Yields-then _ (λ build_cmd. Yields-bind (Yields-ensure _ _) (λ _ a.
        Yields-bind (Yields-ensure _ _) (λ _ i.
          Yields-bind (check_workdir-IsAbsolute line opts.workdir) (λ _ w.
            Yields-bind (check_dirs-IsAbsolute line opts.install_dirs) (λ _ d.
              Yields-bind (check_units-IsUnit line opts.units) (λ _ u. Yields-ok _ (
                t,
                (not_empty opts.artifacts a, not_empty opts.install_dirs i, d, u, w),
              )))))))))))))

abbrev IsTool : Text → Type 0
IsTool tool = is_known_tool tool ≡ true

All-if :
    (b : Bool) (tools : List Text) (part : Text)
    → All IsTool tools
    → IsTool part
    → All IsTool (if b then tools else tools ++ part ∷ [])
All-if true tools part h e = h
All-if false tools part h e = All-append IsTool tools (part ∷ []) h (e, tt)

add_tool-IsTool :
    (line : ℕ) (tools : List Text) (part : Text)
    → All IsTool tools
    → Yields (All IsTool) (add_tool line tools part)
unfolding add_tool
add_tool-IsTool line tools part h =
    Yields-bind (Yields-ensure _ _)
      (λ _ e. Yields-ok _ (All-if (is_one_of part tools) tools part h e))

add_tools-IsTool :
    (line : ℕ) (tools : List Text) (token : Text)
    → All IsTool tools
    → Yields (All IsTool) (add_tools line tools token)
unfolding add_tools
add_tools-IsTool line tools token h =
    Yields-try_fold _ _ (comma_list token) (add_tool-IsTool line) h

pub read_toolchain-IsStep :
    (payload : Text) (line : ℕ) (s : State)
    → IsTimeout s.pending_timeout
    → ReadsStep (read_toolchain payload line s)
unfolding read_toolchain step_timeout
read_toolchain-IsStep payload line s t =
    Yields-bind
      (target_or_keeps (codes "toolchain") line (add_tools line) (split_words payload)
        (add_tools-IsTool line) (none, []) tt)
      (λ (named, tools) h.
        Yields-bind (Yields-ensure _ _)
          (λ _ f. Yields-then _ (λ target. Yields-ok _ (t, (not_empty tools f, h)))))

pub read_image-IsStep :
    (payload : Text) (line : ℕ) (s : State)
    → IsTimeout s.pending_timeout
    → ReadsStep (read_image payload line s)
unfolding read_image step_timeout
read_image-IsStep payload line s t = Yields-then _ (λ (positional, flags). Yields-then _ (λ prune.
    Yields-then _ (λ (named, images).
      Yields-bind (Yields-ensure _ _)
        (λ _ f. Yields-then _ (λ target. Yields-ok _ (t, not_empty images f))))))
