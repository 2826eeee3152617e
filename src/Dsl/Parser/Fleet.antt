-- ===== src/Dsl/Parser/Fleet.antt =====
-- crates/shellflow-dsl/src/parser.rs: the directives that build and update a target: `@build`,
-- `@toolchain` and `@image`.
use shellflow.Base.{
  ℕ, Bool, true, false, not, List, [], ◌∷◌, ◌++◌, Option, none, some, Text, if◌then◌else◌, is_empty,
  is_some, map,
}
use shellflow.Base.Text.{codes, eq_text, starts_with}
use shellflow.Base.Text.Number.{parse_uint, max_u64}
use shellflow.Base.Result.{Result, ok, ◌>>=◌, ◌>>◌, ok_or, ensure, try_fold}
use shellflow.Shell.{normalize_unit, is_valid_unit_name}
use shellflow.Dsl.Error.{ParseError, invalid_directive}
use shellflow.Dsl.Target.{target_at}
use shellflow.Dsl.Step.{Step, build_step, toolchain_step, image_step}
use shellflow.Dsl.Parser.Words.{split_words}
use shellflow.Dsl.Parser.Flags.{
  Flag, ticked, is_one_of, split_flags, flag_value, unknown_flag, require_target, comma_list,
  exactly_two, is_absolute, is_known_tool, ellipsis,
}
use shellflow.Dsl.Parser.Builds.{required}
use shellflow.Dsl.Parser.Inherit.{resolve_assert_target, target_or}
use shellflow.Dsl.Parser.State.{State, add_step}

pub record BuildFlags : Type 0 where
  pub git_ref : Option Text
  pub build_cmd : Option Text
  pub prep_cmd : Option Text
  pub workdir : Option Text
  pub artifacts : List Text
  pub install_dirs : List Text
  pub units : List Text
  pub version_flag : Text
  pub min_free_gb : ℕ

abbrev no_build : BuildFlags
no_build = record {
  git_ref = none;
  build_cmd = none;
  prep_cmd = none;
  workdir = none;
  artifacts = [];
  install_dirs = [];
  units = [];
  version_flag = [];
  min_free_gb = 8;
}

-- Every flag of `@build` takes a value.
unfoldable pub build_value : ℕ → BuildFlags → Text → Text → Result ParseError BuildFlags
unfolding eq_text comma_list parse_uint unknown_flag
build_value line opts flag raw =
    if eq_text flag (codes "--ref")
    then ok (record opts { git_ref = some raw })
    else if eq_text flag (codes "--build")
    then ok (record opts { build_cmd = some raw })
    else if eq_text flag (codes "--prep")
    then ok (record opts { prep_cmd = some raw })
    else if eq_text flag (codes "--workdir")
    then ok (record opts { workdir = some raw })
    else if eq_text flag (codes "--artifacts")
    then ok (record opts { artifacts = opts.artifacts ++ comma_list raw })
    else if eq_text flag (codes "--install-dirs")
    then ok (record opts { install_dirs = opts.install_dirs ++ comma_list raw })
    else if eq_text flag (codes "--units")
    then ok (record opts { units = opts.units ++ comma_list raw })
    else if eq_text flag (codes "--version-flag")
    then ok (record opts { version_flag = raw })
    else ok_or
        (invalid_directive line (codes "build")
          (ticked (codes "invalid ") (codes "--min-free-gb") (ticked (codes " ") raw [])))
        (parse_uint max_u64 raw)
      >>= (λ gb. ok (record opts { min_free_gb = gb }))

abbrev build_flags : List Text
build_flags =
    codes "--ref"
    ∷ codes "--build"
    ∷ codes "--prep"
    ∷ codes "--workdir"
    ∷ codes "--artifacts"
    ∷ codes "--install-dirs"
    ∷ codes "--units"
    ∷ codes "--version-flag"
    ∷ codes "--min-free-gb"
    ∷ []

unfoldable pub build_flag : ℕ → BuildFlags → Flag → Result ParseError BuildFlags
unfolding eq_text flag_value build_value unknown_flag
build_flag line opts (flag, value) = do
  ensure (is_one_of flag build_flags) (unknown_flag (codes "build") flag line)
  raw ← flag_value value flag (codes "build") line
  build_value line opts flag raw

unfoldable pub check_workdir : ℕ → Option Text → Result ParseError Unit
unfolding starts_with
check_workdir line none = ok tt
check_workdir line (some dir) = ensure (is_absolute dir) (
    invalid_directive line (codes "build")
      (codes "the workdir must be absolute (got " ++ ticked [] dir (codes ")")))

unfoldable pub check_dirs : ℕ → List Text → Result ParseError Unit
unfolding starts_with
check_dirs line [] = ok tt
check_dirs line (dir ∷ dirs) =
    ensure (is_absolute dir) (
      invalid_directive line (codes "build")
        (codes "install dirs must be absolute (got " ++ ticked [] dir (codes ")")))
    >> check_dirs line dirs

unfoldable pub check_units : ℕ → List Text → Result ParseError Unit
unfolding normalize_unit is_valid_unit_name
check_units line [] = ok tt
check_units line (unit ∷ units) =
    ensure (is_valid_unit_name (normalize_unit unit))
      (invalid_directive line (codes "build") (ticked (codes "unsafe unit name ") unit []))
    >> check_units line units

abbrev build_usage : Text
build_usage =
    codes "<repo-url> @<target> --ref REF --build CMD --artifacts A"
    ++ ellipsis
    ++ codes " --install-dirs D"
    ++ ellipsis
    ++ codes " [--prep CMD] [--workdir DIR]"

unfoldable pub read_build : Text → ℕ → State → Result ParseError (Text × Step)
unfolding split_flags try_fold build_flag require_target check_workdir check_dirs check_units
    normalize_unit target_at
read_build payload line s = do
  (positional, flags) ← split_flags payload [] (codes "build") line
  opts ← try_fold (build_flag line) no_build flags
  (repo, raw_target) ←
      ok_or (invalid_directive line (codes "build") (ticked (codes "expected ") build_usage []))
        (exactly_two positional)
  ensure (not (is_empty repo)) (invalid_directive line (codes "build") (codes "missing repo url"))
  target ← require_target raw_target (codes "build") line
  git_ref ← required (codes "build") line (codes "--ref") opts.git_ref
  build_cmd ← required (codes "build") line (codes "--build") opts.build_cmd
  ensure (not (is_empty opts.artifacts))
      (invalid_directive line (codes "build") (ticked (codes "missing ") (codes "--artifacts") []))
  ensure (not (is_empty opts.install_dirs)) (
      invalid_directive line (codes "build")
        (ticked (codes "missing ") (codes "--install-dirs") []))
  check_workdir line opts.workdir
  check_dirs line opts.install_dirs
  check_units line opts.units
  ok (
    target,
    build_step (record {
      name = s.pending_name;
      target = target_at target line;
      repo = repo;
      workdir = opts.workdir;
      git_ref = git_ref;
      build_cmd = build_cmd;
      prep_cmd = opts.prep_cmd;
      artifacts = opts.artifacts;
      install_dirs = opts.install_dirs;
      units = map normalize_unit opts.units;
      version_flag = opts.version_flag;
      min_free_gb = opts.min_free_gb;
      timeout = s.pending_timeout;
    }),
  )

unfoldable pub add_build : Text → ℕ → State → Result ParseError State
unfolding read_build add_step
add_build payload line s = add_step (codes "build") line (read_build payload line s) s

-- A tool is kept where it is named first.
unfoldable pub add_tool : ℕ → List Text → Text → Result ParseError (List Text)
unfolding is_known_tool eq_text
add_tool line tools part = do
  ensure (is_known_tool part) (
      invalid_directive line (codes "toolchain") (
        ticked (codes "unknown tool ") part
          (codes " (expected os, aur, rustup, cargo, go, npm, pipx, uv, foundry, proto, gh)")))
  ok (if is_one_of part tools then tools else tools ++ part ∷ [])

unfoldable pub add_tools : ℕ → List Text → Text → Result ParseError (List Text)
unfolding try_fold add_tool comma_list
add_tools line tools token = try_fold (add_tool line) tools (comma_list token)

unfoldable pub read_toolchain : Text → ℕ → State → Result ParseError (Text × Step)
unfolding split_words try_fold target_or add_tools resolve_assert_target target_at
read_toolchain payload line s = do
  (named, tools) ←
      try_fold (target_or (codes "toolchain") line (add_tools line)) (none, [])
        (split_words payload)
  ensure (not (is_empty tools))
      (invalid_directive line (codes "toolchain") (codes "missing tool list"))
  target ← resolve_assert_target named (codes "toolchain") line s
  ok (
    target,
    toolchain_step (record {
      name = s.pending_name;
      target = target_at target line;
      tools = tools;
      timeout = s.pending_timeout;
    }),
  )

unfoldable pub add_toolchain : Text → ℕ → State → Result ParseError State
unfolding read_toolchain add_step
add_toolchain payload line s = add_step (codes "toolchain") line (read_toolchain payload line s) s

unfoldable pub image_flag : ℕ → Bool → Flag → Result ParseError Bool
unfolding eq_text unknown_flag
image_flag line prune (flag, value) = do
  ensure (eq_text flag (codes "--prune")) (unknown_flag (codes "image") flag line)
  ensure (not (is_some value)) (
      invalid_directive line (codes "image")
        (ticked [] (codes "--prune") (codes " takes no value")))
  ok true

abbrev add_image_name : List Text → Text → Result ParseError (List Text)
add_image_name images token = ok (images ++ token ∷ [])

unfoldable pub read_image : Text → ℕ → State → Result ParseError (Text × Step)
unfolding split_flags try_fold image_flag target_or resolve_assert_target target_at
read_image payload line s = do
  (positional, flags) ← split_flags payload (codes "--prune" ∷ []) (codes "image") line
  prune ← try_fold (image_flag line) false flags
  (named, images) ← try_fold (target_or (codes "image") line add_image_name) (none, []) positional
  ensure (not (is_empty images)) (invalid_directive line (codes "image") (codes "missing image"))
  target ← resolve_assert_target named (codes "image") line s
  ok (
    target,
    image_step (record {
      name = s.pending_name;
      target = target_at target line;
      images = images;
      prune = prune;
      timeout = s.pending_timeout;
    }),
  )

unfoldable pub add_image : Text → ℕ → State → Result ParseError State
unfolding read_image add_step
add_image payload line s = add_step (codes "image") line (read_image payload line s) s
