-- ===== src/Core/Env.antt =====
-- crates/shellflow-core/src/env.rs, the environment header and the capture records: `render_env`,
-- `parse_capture_records` and `parse_capture_records_checked`.
pub mod Capture
use shellflow.Base.{
  ℕ, Bool, true, false, not, ◌&&◌, ◌||◌, List, [], ◌∷◌, ◌++◌, Option, none, some, Text, ◌==◌,
  if◌then◌else◌, is_empty, any,
}
use shellflow.Base.Text.{codes, eq_text, split_once}
use shellflow.Base.Text.Utf8.{is_utf8}
use shellflow.Base.Text.Lines.{split_byte}
use shellflow.Base.Dict.{insert}
use shellflow.Base.Result.{Result, ok, err}
use shellflow.Shell.{is_valid_var_name, shell_quote_single}

pub data CaptureError : Type 0 where
  missing_separator : CaptureError
  not_utf8 : CaptureError
  unexpected_var : Text → CaptureError

pub data RenderEnvError : Type 0 where
  invalid_key : Text → RenderEnvError

abbrev pub Vars : Type 0
Vars = List (Text × Text)

abbrev pub capture_separator : ℕ
capture_separator = 0

-- `allowed.iter().any(|item| item == name)`, or no allow list.
unfoldable pub is_allowed : Option (List Text) → Text → Bool
unfolding eq_text
is_allowed none name = true
is_allowed (some names) name = any (λ item. eq_text item name) names

-- The checks on the two sides of a record's first `=`.
unfoldable pub check_record : Option (List Text) → Text → Text → Result CaptureError (Text × Text)
check_record allowed name value =
    if not (is_utf8 name)
    then err not_utf8
    else if not (is_utf8 value)
    then err not_utf8
    else if is_empty name || not (is_valid_var_name name)
    then err (unexpected_var name)
    else if not (is_allowed allowed name)
    then err (unexpected_var name)
    else ok (name, value)

-- One record that is not empty: its name and its value.
unfoldable pub parse_record : Option (List Text) → Text → Result CaptureError (Text × Text)
parse_record allowed record_bytes = elim (split_once (b'=' ∷ []) record_bytes) [
  | none ↦ err missing_separator
  | some (name, value) ↦ check_record allowed name value
]

unfoldable pub parse_records : Option (List Text) → Vars → List Text → Result CaptureError Vars
unfolding parse_record insert
parse_records allowed out [] = ok out
parse_records allowed out ([] ∷ records) = parse_records allowed out records
parse_records allowed out ((c ∷ s) ∷ records) = elim (parse_record allowed (c ∷ s)) [
  | ok (name, value) ↦ parse_records allowed (insert name value out) records
  | err e ↦ err e
]

unfoldable pub parse_capture_records_checked : Text → Option (List Text) → Result CaptureError Vars
unfolding split_byte parse_records
parse_capture_records_checked bytes allowed =
    parse_records allowed [] (split_byte capture_separator bytes)

unfoldable pub parse_capture_records : Text → Result CaptureError Vars
unfolding parse_capture_records_checked
parse_capture_records bytes = parse_capture_records_checked bytes none

-- One `export` line.
unfoldable pub export_line : Text → Text → Text
unfolding shell_quote_single
export_line key value =
    codes "export " ++ (key ++ (b'=' ∷ (shell_quote_single value ++ codes ";\n")))

unfoldable pub render_from : Text → List (Text × Text) → Result RenderEnvError Text
unfolding is_valid_var_name export_line
render_from out [] = ok out
render_from out ((key, value) ∷ entries) =
    let rest = render_from (out ++ export_line key value) entries in
    if not (is_valid_var_name key) then err (invalid_key key) else rest

unfoldable pub render_env : List (Text × Text) → Result RenderEnvError Text
unfolding render_from
render_env entries = render_from [] entries
