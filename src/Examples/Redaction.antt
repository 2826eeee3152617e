-- ===== src/Examples/Redaction.antt =====
-- Runs of crates/shellflow-core and crates/shellflow-text.
use mathlib.Core.List.{Memᴰ}
use shellflow.Base.{All, false, List, [], ◌∷◌, ◌++◌, some, Text, ◌≡◌, ◌≢◌, ◌↔◌, refl, arith, All}
use shellflow.Base.Text.{codes, contains, split_once}
use shellflow.Base.Dict.{lookup}
use shellflow.Base.Result.{ok}
use shellflow.Shell.{shell_quote_single, strip_surrounding_quotes, is_valid_var_name}
use shellflow.Shell.Quote.{read_word, bare, read_word-shell_quote_single}
use shellflow.Shell.Strip.{strip_surrounding_quotes-quoted}
use shellflow.Core.Mask.{Range, is_boundary, mask_line, apply_ranges}
use shellflow.Core.Mask.Redacts.{IsPlain}
use shellflow.Core.Mask.Ranges.{covered}
use shellflow.Core.Mask.Apart.{IsWhole}
use shellflow.Core.Mask.Runs.{mask_runs, apply_ranges-mask_runs}
use shellflow.Core.Mask.Line.{contains-mask_line, contains-redact_text}
use shellflow.Core.Mask.Hidden.{contains-redact_line}
use shellflow.Core.Mask.Stream.{SecretMasker, new, redact_text, redact_line}
use shellflow.Base.Text.Utf8.{is_utf8}
use shellflow.Core.Env.{Vars, is_allowed, check_record, parse_capture_records_checked}
use shellflow.Core.Env.Capture.{
  IsTrusted, IsExport, encode_records, assign, parse_capture_records_checked-IsTrusted,
  parse_capture_records_checked-encode_records,
}
use shellflow.Core.Template.{placeholders, render_template}
use shellflow.Core.Template.Missing.{IsProvided, render_template_iff}
use shellflow.Secrets.EnvFile.{IsEnv, parse_env_file, parse_env_file-IsEnv}

abbrev secret : Text
secret = codes "pa55word"

abbrev line : Text
line = codes "login=pa55word;pa55word ok"

abbrev masker : SecretMasker
masker = new (secret ∷ []) []

secret_ne_nil : secret ≢ []
secret_ne_nil = λ e. absurd (cc e)

secret-IsPlain : IsPlain secret
secret-IsPlain = ground arith

contains-redact_line_example : contains secret (redact_line masker line).0 ≡ false
unfolding new
contains-redact_line_example =
    contains-redact_line masker line secret (Memᴰ.head refl) secret_ne_nil secret-IsPlain

contains-redact_text_example : contains secret (redact_text masker line) ≡ false
unfolding new
contains-redact_text_example =
    contains-redact_text masker line secret (Memᴰ.head refl) secret_ne_nil secret-IsPlain

contains-mask_line_example : contains secret (mask_line line (secret ∷ [])) ≡ false
contains-mask_line_example =
    contains-mask_line line secret (secret ∷ []) (Memᴰ.head refl) secret_ne_nil secret-IsPlain

abbrev overlapping : List Range
overlapping = (2, 3) ∷ (0, 3) ∷ (7, 1) ∷ []

overlapping-IsWhole : All (IsWhole (codes "abcdefgh")) overlapping
unfolding is_boundary
overlapping-IsWhole =
    ((omega arith, refl, refl), ((omega arith, refl, refl), ((omega arith, refl, refl), tt)))

apply_ranges-mask_runs_example :
    apply_ranges (codes "abcdefgh") overlapping
    ≡ mask_runs (λ i. covered i overlapping) false 0 (codes "abcdefgh")
apply_ranges-mask_runs_example =
    apply_ranges-mask_runs (codes "abcdefgh") overlapping
      (omega arith, (omega arith, (omega arith, tt))) overlapping-IsWhole
      (unfold is_boundary in refl)

overlapping_run : apply_ranges (codes "abcdefgh") overlapping ≡ codes "***fg***"
unfolding apply_ranges
overlapping_run = refl

-- A value that two lines break is printed whole where a shorter prefix of it ends the first line
-- with a longer one.
abbrev broken : SecretMasker
broken = new (codes "aabcde" ∷ []) []

broken_first : (redact_line broken (codes "xaa")).0 ≡ codes "xaa"
unfolding redact_line new
broken_first = refl

broken_second : (redact_line (redact_line broken (codes "xaa")).1 (codes "abcde")).0 ≡ codes "abcde"
unfolding redact_line new
broken_second = refl

read_word-shell_quote_single_example :
    read_word bare (shell_quote_single (codes "it's $HOME") ++ codes " rest")
    ≡ some (codes "it's $HOME", codes " rest")
read_word-shell_quote_single_example =
    read_word-shell_quote_single (codes "it's $HOME") (codes " rest") refl

strip_surrounding_quotes-quoted_example :
    strip_surrounding_quotes (b'"' ∷ (codes " 'x' " ++ b'"' ∷ [])) ≡ codes " 'x' "
strip_surrounding_quotes-quoted_example = strip_surrounding_quotes-quoted b'"' (codes " 'x' ") refl

abbrev allowed : List Text
allowed = codes "A" ∷ codes "B" ∷ []

abbrev exported : List (Text × Text)
exported = (codes "A", codes "x=1") ∷ (codes "B", []) ∷ (codes "A", codes "2\n") ∷ []

exported-IsExport : All (IsExport (some allowed)) exported
unfolding is_valid_var_name is_allowed is_utf8 contains
exported-IsExport = (
  record { valid = refl; listed = refl; text = refl; no_nul = refl },
  (
    record { valid = refl; listed = refl; text = refl; no_nul = refl },
    (record { valid = refl; listed = refl; text = refl; no_nul = refl }, tt),
  ),
)

parse_capture_records_checked-encode_records_example :
    parse_capture_records_checked (encode_records exported) (some allowed) ≡ ok (assign [] exported)
parse_capture_records_checked-encode_records_example =
    parse_capture_records_checked-encode_records allowed exported exported-IsExport

abbrev captured : Vars
captured = (codes "B", codes "7") ∷ []

parse_capture_records_checked-IsTrusted_example : IsTrusted (some allowed) (codes "B") (codes "7")
unfolding parse_capture_records_checked lookup split_once check_record is_utf8 is_valid_var_name
    is_allowed
parse_capture_records_checked-IsTrusted_example =
    parse_capture_records_checked-IsTrusted (codes "B=7" ++ 0 ∷ []) allowed captured (codes "B")
      (codes "7") refl refl

abbrev values : List (Text × Text)
values = (codes "USER", codes "${USER}") ∷ []

render_template_iff_example :
    ((out : Text) × (render_template (codes "a ${USER} $b ${-}") values ≡ ok out))
    ↔ IsProvided values (placeholders (codes "a ${USER} $b ${-}"))
render_template_iff_example = render_template_iff (codes "a ${USER} $b ${-}") values

rendered_run : render_template (codes "a ${USER} $b ${-}") values ≡ ok (codes "a ${USER} $b ${-}")
unfolding render_template
rendered_run = refl

abbrev env_file : Text
env_file = codes "# keys\nexport A='1'\nB=2\nA=3\n"

abbrev env_vars : List (Text × Text)
env_vars = (codes "A", codes "3") ∷ (codes "B", codes "2") ∷ []

parse_env_file-IsEnv_example : IsEnv env_vars
unfolding parse_env_file
parse_env_file-IsEnv_example = parse_env_file-IsEnv env_file env_vars refl
