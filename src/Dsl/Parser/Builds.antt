-- ===== src/Dsl/Parser/Builds.antt =====
-- crates/shellflow-dsl/src/parser.rs: the directives that bring software to the target:
-- `@unit_inventory`, `@helper` and `@release`.
use shellflow.Base.{
  ℕ, Bool, true, false, not, ◌&&◌, ◌||◌, List, [], ◌∷◌, ◌++◌, Option, none, some, Text, ◌==◌,
  if◌then◌else◌, length,
}
use shellflow.Base.Text.{codes, eq_text, starts_with, contains}
use shellflow.Base.Text.Lines.{split_byte}
use shellflow.Base.Result.{Result, ok, err, ◌>>=◌, ◌>>◌, ok_or, ensure, try_fold}
use shellflow.Dsl.Error.{ParseError, invalid_directive}
use shellflow.Dsl.Target.{target_at}
use shellflow.Dsl.Step.{Step, unit_inventory_step, helper_step, release_step}
use shellflow.Dsl.Parser.Flags.{
  Flag, ticked, split_flags, flag_value, unknown_flag, require_target, exactly_two, is_absolute,
}
use shellflow.Dsl.Parser.Inherit.{first_target, resolve_assert_target}
use shellflow.Dsl.Parser.State.{State, add_step}

unfoldable pub read_unit_inventory : Text → ℕ → State → Result ParseError (Text × Step)
unfolding split_flags first_target resolve_assert_target target_at
read_unit_inventory payload line s = do
  (positional, flags) ← split_flags payload [] (codes "unit_inventory") line
  target ← resolve_assert_target (first_target positional) (codes "unit_inventory") line s
  ok (
    target,
    unit_inventory_step (record {
      name = s.pending_name;
      target = target_at target line;
      timeout = s.pending_timeout;
    }),
  )

unfoldable pub add_unit_inventory : Text → ℕ → State → Result ParseError State
unfolding read_unit_inventory add_step
add_unit_inventory payload line s =
    add_step (codes "unit_inventory") line (read_unit_inventory payload line s) s

pub record HelperFlags : Type 0 where
  pub source : Option Text
  pub triple : Option Text
  pub install_path : Text

unfoldable pub helper_path : ℕ → Text → Result ParseError Text
unfolding starts_with
helper_path line raw =
    if is_absolute raw
    then ok raw
    else err (
        invalid_directive line (codes "helper")
          (codes "the install path must be absolute (got " ++ ticked [] raw (codes ")")))

unfoldable pub helper_flag : ℕ → HelperFlags → Flag → Result ParseError HelperFlags
unfolding eq_text flag_value helper_path unknown_flag
helper_flag line opts (flag, value) =
    if eq_text flag (codes "--source")
    then flag_value value flag (codes "helper") line
      >>= (λ raw. ok (record opts { source = some raw }))
    else if eq_text flag (codes "--triple")
    then flag_value value flag (codes "helper") line
      >>= (λ raw. ok (record opts { triple = some raw }))
    else if eq_text flag (codes "--install-path")
    then flag_value value flag (codes "helper") line
      >>= (λ raw. helper_path line raw >>= λ path. ok (record opts { install_path = path }))
    else err (unknown_flag (codes "helper") flag line)

abbrev at_most_one : List Text → Bool
at_most_one (_ ∷ _ ∷ _) = false
at_most_one _ = true

unfoldable pub read_helper : Text → ℕ → State → Result ParseError (Text × Step)
unfolding split_flags try_fold helper_flag first_target resolve_assert_target target_at
read_helper payload line s = do
  (positional, flags) ← split_flags payload [] (codes "helper") line
  opts ←
      try_fold (helper_flag line)
        (record { source = none; triple = none; install_path = codes "/usr/local/bin/shellflow" })
        flags
  ensure (at_most_one positional) (
      invalid_directive line (codes "helper")
        (ticked (codes "expected ") (codes "[@<target>] [--source DIR] [--triple T]") []))
  target ← resolve_assert_target (first_target positional) (codes "helper") line s
  ok (
    target,
    helper_step (record {
      name = s.pending_name;
      target = target_at target line;
      source = opts.source;
      triple = opts.triple;
      install_path = opts.install_path;
      timeout = s.pending_timeout;
    }),
  )

unfoldable pub add_helper : Text → ℕ → State → Result ParseError State
unfolding read_helper add_step
add_helper payload line s = add_step (codes "helper") line (read_helper payload line s) s

pub record ReleaseFlags : Type 0 where
  pub installed_cmd : Option Text
  pub asset : Option Text
  pub to_dir : Option Text
  pub base_url : Option Text

unfoldable pub release_flag : ℕ → ReleaseFlags → Flag → Result ParseError ReleaseFlags
unfolding eq_text flag_value unknown_flag
release_flag line opts (flag, value) =
    if eq_text flag (codes "--installed-cmd")
    then flag_value value flag (codes "release") line
      >>= (λ raw. ok (record opts { installed_cmd = some raw }))
    else if eq_text flag (codes "--asset")
    then flag_value value flag (codes "release") line
      >>= (λ raw. ok (record opts { asset = some raw }))
    else if eq_text flag (codes "--to")
    then flag_value value flag (codes "release") line
      >>= (λ raw. ok (record opts { to_dir = some raw }))
    else if eq_text flag (codes "--base-url")
    then flag_value value flag (codes "release") line
      >>= (λ raw. ok (record opts { base_url = some raw }))
    else err (unknown_flag (codes "release") flag line)

-- `owner/name`
unfoldable pub is_repo : Text → Bool
unfolding contains starts_with split_byte
is_repo repo =
    contains (codes "/") repo
    && not (starts_with (codes "/") repo)
    && not (contains (codes " ") repo)
    && length (split_byte b'/' repo) == 2

abbrev is_http : Text → Bool
is_http url = starts_with (codes "https://") url || starts_with (codes "http://") url

unfoldable pub check_base : ℕ → Option Text → Result ParseError Unit
unfolding starts_with
check_base line none = ok tt
check_base line (some base) = ensure (is_http base) (
    invalid_directive line (codes "release")
      (codes "the base URL must be http(s) (got " ++ ticked [] base (codes ")")))

-- A flag that may not be left out.
abbrev pub required : Text → ℕ → Text → Option Text → Result ParseError Text
required directive line flag value =
    ok_or (invalid_directive line directive (ticked (codes "missing ") flag [])) value

unfoldable pub read_release : Text → ℕ → State → Result ParseError (Text × Step)
unfolding split_flags try_fold release_flag is_repo require_target check_base target_at
read_release payload line s = do
  (positional, flags) ← split_flags payload [] (codes "release") line
  opts ←
      try_fold (release_flag line)
        (record { installed_cmd = none; asset = none; to_dir = none; base_url = none }) flags
  (repo, raw_target) ←
      ok_or
        (invalid_directive line (codes "release") (
          ticked (codes "expected ")
            (codes "<owner/repo> @<target> --installed-cmd CMD --asset PATTERN --to DIR "
              ++ codes "[--base-url URL]")
            []))
        (exactly_two positional)
  ensure (is_repo repo) (
      invalid_directive line (codes "release") (
        ticked (codes "the repo must look like ") (codes "owner/name")
          (codes " (got " ++ ticked [] repo (codes ")"))))
  target ← require_target raw_target (codes "release") line
  installed_cmd ← required (codes "release") line (codes "--installed-cmd") opts.installed_cmd
  asset ← required (codes "release") line (codes "--asset") opts.asset
  to_dir ← required (codes "release") line (codes "--to") opts.to_dir
  ensure (is_absolute to_dir) (
      invalid_directive line (codes "release")
        (codes "the destination must be absolute (got " ++ ticked [] to_dir (codes ")")))
  check_base line opts.base_url
  ok (
    target,
    release_step (record {
      name = s.pending_name;
      target = target_at target line;
      repo = repo;
      installed_cmd = installed_cmd;
      asset = asset;
      to_dir = to_dir;
      base_url = opts.base_url;
      timeout = s.pending_timeout;
    }),
  )

unfoldable pub add_release : Text → ℕ → State → Result ParseError State
unfolding read_release add_step
add_release payload line s = add_step (codes "release") line (read_release payload line s) s
