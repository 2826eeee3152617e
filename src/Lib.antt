-- ===== src/Lib.antt =====
-- shellflow runs a deploy script: a shell script with `# @` directives is parsed into a plan, its
-- targets are resolved to hosts, and its blocks run locally, over ssh or in a muxy session, with an
-- environment in front and with every secret masked in what they print. This library models the
-- parts of that program that compute.
--
-- The parts:
-- - Shell.antt, crates/shellflow-text/src/lib.rs: `shell_quote_single`, `strip_surrounding_quotes`,
--   `is_valid_var_name`, `is_valid_unit_name`, `normalize_unit`, `is_unit_file`. Shell/Quote.antt
--   holds a reader of shell words that is independent of the quoting.
-- - Core/Mask.antt, crates/shellflow-core/src/env.rs: the masks of a line. Core/Mask/Stream.antt is
--   `SecretMasker`, with the values that lines broke off as its state: `redact_line` returns the
--   masked line and the next masker. Core/Mask/Redacts.antt says what a redaction may do to a text,
--   Core/Mask/Runs.antt what `apply_ranges` writes for each byte.
-- - Core/Env.antt, the same file: `render_env` and the capture records.
-- - Core/Template.antt, crates/shellflow-core/src/template.rs: `template_keys`, `render_template`.
-- - Secrets/EnvFile.antt, crates/shellflow-secrets/src/env.rs: `parse_env_file`.
-- - Dsl/Heredoc.antt, crates/shellflow-dsl/src/heredoc.rs: the scanner of a line for here-document
--   openers. Dsl/Heredoc/Tracker.antt is `HeredocTracker`.
-- - Dsl/SshSpec.antt, crates/shellflow-dsl/src/ssh_spec.rs: destinations.
-- - Dsl/Target.antt, Dsl/States.antt, Dsl/Step.antt, Dsl/Plan.antt and Dsl/Interpolate.antt,
--   crates/shellflow-dsl/src/plan.rs: `Target`, `ActiveState`, `EnabledState`, the steps with their
--   accessors, `ExecutionPlan`, `resolve_hosts`, `interpolate`. Dsl/Error.antt, error.rs beside it:
--   the errors.
-- - Dsl/Parser.antt, crates/shellflow-dsl/src/parser.rs. Parser/Words is `split_words`, a machine on
--   bytes; Parser/Flags is `split_flags` and the readers of single arguments; Parser/State is `State`
--   and `flush`. Each directive is a function of the payload, the line and the state that returns the
--   next state or an error: Parser/Declare (`declare_…`, `add_workdir`), Parser/Files (`add_copy`),
--   Parser/Store (`add_install`, `add_backup`, `add_credstore`), Parser/Units (`add_wait`,
--   `add_reload`, `add_service`), Parser/Builds and Parser/Fleet (`add_unit_inventory`, `add_helper`,
--   `add_release`, `add_build`, `add_toolchain`, `add_image`), Parser/Inherit
--   (`resolve_assert_target`), Parser/Checks (`push_assertion`), Parser/Conditions, Parser/Health and
--   Parser/Probes (the assertions). `read_…` is the part of `add_…` that reads the payload. Parser/Apply
--   is `apply_directive`, Parser/Script is `directive` and `parse_script`.
-- - Dsl/Valid.antt says what a well-formed plan is, in a module for each part of the parser.
--   Base/Yields.antt has the rules by which a property of a result is derived step by step.
-- - Muxy/Lines.antt, crates/shellflow-muxy/src/lines.rs: `LineAssembler`; each method takes the
--   assembler and returns its result with the next assembler.
-- - Muxy/Policy.antt, policy.rs and outcome.rs beside it. Muxy/Payload.antt, payload.rs.
-- - Host/Diff.antt, bin/shellflow/src/diffutil.rs: `lcs_table`, `diff_ops`. Diff/Hunks has `hunks` and
--   `unified_diff`. Diff/Table has the recursive definition of the longest common subsequence.
-- - Examples.antt: runs on concrete inputs.
--
-- Texts are lists of UTF-8 bytes (Base/Text.antt). The tests of the code are on ASCII characters,
-- which are the same on bytes; white space and the character boundaries are modelled on the
-- encoding.
-- Maps are association lists (Base/Dict.antt) that keep the place of a key. Lengths and offsets are
-- native numbers: the code adds and compares them within the length of a text in memory, so they do
-- not wrap around. A number of 16, 32 or 64 bits is checked against its largest value where the code
-- parses it.
--
-- The loops run over their input. Those of the here-document scanner, which skip ahead, run on fuel,
-- one more than the length of the line, and the loop of `diff_ops` on as much as both texts have
-- lines, since each round takes one; decimal numbers have 20 digits at most, as those of 64 bits
-- do.
--
-- Not modelled: running blocks, ssh, the muxy connection and its sessions, encryption, the file
-- system, the command line and the terminal output, which are calls of the operating system and of
-- other crates; and the messages of the error types, but for the reasons that the parser composes.
-- The iteration order of a `BTreeMap` is modelled where the code iterates over one.
pub mod Base
pub mod Shell
pub mod Core
pub mod Secrets
pub mod Dsl
pub mod Muxy
pub mod Host
pub mod Examples
