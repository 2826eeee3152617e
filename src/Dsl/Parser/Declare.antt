-- ===== src/Dsl/Parser/Declare.antt =====
-- crates/shellflow-dsl/src/parser.rs: the directives that declare servers, groups, variables,
-- secrets, exports and the work directory.
use shellflow.Base.{
  ℕ, Bool, true, false, not, ◌&&◌, ◌||◌, List, [], ◌∷◌, ◌++◌, Option, none, some, Text, ◌==◌,
  if◌then◌else◌, is_empty, is_some, any, all, map,
}
use shellflow.Base.Text.{codes, eq_text, split_once, trim, is_alnum}
use shellflow.Base.Dict.{insert, contains_key}
use shellflow.Base.Result.{Result, ok, err, ◌>>=◌, ◌>>◌, ensure, try_fold}
use shellflow.Shell.{is_valid_var_name}
use shellflow.Dsl.Error.{ParseError, invalid_directive, duplicate_server, export_not_after_local}
use shellflow.Dsl.SshSpec.{SshSpec, parse}
use shellflow.Dsl.Target.{EnvEntry, literal, passthrough, SecretEntry}
use shellflow.Dsl.Step.{Step, ExportVar, local_step, as_local}
use shellflow.Dsl.Plan.{at_line}
use shellflow.Dsl.Parser.Words.{split_words}
use shellflow.Dsl.Parser.Flags.{
  Flag, ticked, is_one_of, split_flags, flag_value, unknown_flag, is_valid_alias_name, comma_list,
}
use shellflow.Dsl.Parser.State.{State, Mode, in_local, in_remote, has_executable}

abbrev bad : Text → ℕ → Text → ParseError
bad directive line reason = invalid_directive line directive reason

-- The name and the second argument of `@server` and `@group`, with what the messages call them.
unfoldable pub read_pair : Text → Text → ℕ → List Text → Result ParseError (Text × Text)
unfolding is_valid_alias_name
read_pair directive second line [] = err (bad directive line (codes "missing name"))
read_pair directive second line (name ∷ words) = do
  ensure (is_valid_alias_name name) (
      bad directive line (
        ticked (codes "invalid " ++ directive ++ codes " name ") name (
          ticked (codes " (allowed: letters, digits, ") (codes "_")
            (ticked (codes ", ") (codes "-") (ticked (codes ", ") (codes ".") (codes ")"))))))
  elim words [
    | [] ↦ err (bad directive line (ticked (codes "missing " ++ second ++ codes " for ") name []))
    | value ∷ [] ↦ ok (name, value)
    | value ∷ _ ∷ _ ↦ err (bad directive line (ticked (codes "too many arguments for ") name []))
  ]

-- `map_err`: the destination's error names the line of the directive.
unfoldable pub parse_at : ℕ → Text → Result ParseError SshSpec
unfolding parse at_line
parse_at line spec = elim (parse spec) [ ok parsed ↦ ok parsed | err e ↦ err (at_line line e) ]

-- What follows the two words of `@server`.
unfoldable pub add_server : ℕ → State → Text × Text → Result ParseError State
unfolding parse_at insert contains_key
add_server line s (name, spec) = do
  ensure (not (contains_key name s.plan.servers)) (duplicate_server line name)
  parsed ← parse_at line spec
  ok (record s { plan = record s.plan { servers = insert name parsed s.plan.servers } })

unfoldable pub declare_server : Text → ℕ → State → Result ParseError State
unfolding split_words read_pair add_server
declare_server payload line s =
    read_pair (codes "server") (codes "ssh spec") line (split_words payload) >>= add_server line s

-- The loop over the members: each is checked, and kept where it is seen first.
unfoldable pub distinct_members : Text → ℕ → List Text → List Text → Result ParseError (List Text)
unfolding is_valid_alias_name eq_text
distinct_members name line seen [] = ok seen
distinct_members name line seen (member ∷ members) = do
  ensure (is_valid_alias_name member) (
      bad (codes "group") line
        (ticked (codes "invalid member ") member (ticked (codes " in group ") name [])))
  distinct_members name line (if is_one_of member seen then seen else seen ++ member ∷ []) members

unfoldable pub declare_group : Text → ℕ → State → Result ParseError State
unfolding split_words read_pair comma_list distinct_members eq_text insert contains_key
declare_group payload line s = do
  (name, members) ← read_pair (codes "group") (codes "members") line (split_words payload)
  ensure (not (contains_key name s.plan.servers)) (
      bad (codes "group") line
        (ticked (codes "group ") name (codes " collides with a server name")))
  ensure (not (contains_key name s.plan.groups))
      (bad (codes "group") line (ticked (codes "group ") name (codes " is already defined")))
  ensure (not (is_empty (comma_list members)))
      (bad (codes "group") line (ticked (codes "no members for ") name []))
  ensure (not (is_one_of name (comma_list members)))
      (bad (codes "group") line (ticked (codes "group ") name (codes " cannot contain itself")))
  kept ← distinct_members name line [] (comma_list members)
  ok (record s {
    plan = record s.plan { groups = insert name kept s.plan.groups };
    group_lines = insert name line s.group_lines;
  })

abbrev bad_variable : Text → ℕ → Text → ParseError
bad_variable directive line name =
    bad directive line (ticked (codes "invalid variable name ") name [])

unfoldable pub read_env : Text → ℕ → Result ParseError EnvEntry
unfolding trim split_once is_valid_var_name
read_env payload line = do
  ensure (not (is_empty (trim payload))) (bad (codes "env") line (codes "missing variable"))
  elim (split_once (codes "=") (trim payload)) [
    | some (key, value) ↦
        ensure (is_valid_var_name (trim key)) (bad_variable (codes "env") line (trim key))
        >> ok (literal (trim key) value)
    | none ↦
        ensure (is_valid_var_name (trim payload)) (bad_variable (codes "env") line (trim payload))
        >> ok (passthrough (trim payload))
  ]

unfoldable pub declare_env : Text → ℕ → State → Result ParseError State
unfolding read_env
declare_env payload line s = do
  entry ← read_env payload line
  ok (record s { plan = record s.plan { env = s.plan.env ++ entry ∷ [] } })

-- The tokens behind the file; the flag tells that the last one was `--identity`.
unfoldable pub read_identity : ℕ → Bool → Option Text → List Text → Result ParseError (Option Text)
unfolding eq_text
read_identity line true identity [] =
    err (bad (codes "secrets") line (ticked [] (codes "--identity") (codes " requires a path")))
read_identity line false identity [] = ok identity
read_identity line true identity (token ∷ tokens) = read_identity line false (some token) tokens
read_identity line false identity (token ∷ tokens) = do
  ensure (eq_text token (codes "--identity"))
      (bad (codes "secrets") line (ticked (codes "unexpected token ") token []))
  read_identity line true identity tokens

unfoldable pub read_secrets : ℕ → List Text → Result ParseError SecretEntry
unfolding read_identity
read_secrets line [] = err (bad (codes "secrets") line (codes "missing encrypted file path"))
read_secrets line (file ∷ tokens) = do
  identity ← read_identity line false none tokens
  ok (record { file = file; identity = identity })

unfoldable pub declare_secrets : Text → ℕ → State → Result ParseError State
unfolding split_words read_secrets
declare_secrets payload line s = do
  entry ← read_secrets line (split_words payload)
  ok (record s { plan = record s.plan { secrets = s.plan.secrets ++ entry ∷ [] } })

-- The loop that looks for a flag other than `--public`.
unfoldable pub only_public : ℕ → List Flag → Result ParseError Unit
unfolding eq_text unknown_flag
only_public line [] = ok tt
only_public line ((flag, _) ∷ flags) =
    ensure (eq_text flag (codes "--public")) (unknown_flag (codes "export") flag line)
    >> only_public line flags

abbrev no_variables : ℕ → ParseError
no_variables line = bad (codes "export") line (codes "missing variable name(s)")

unfoldable pub one_list : ℕ → List Text → Result ParseError Text
one_list line [] = err (no_variables line)
one_list line (names ∷ []) = ok names
one_list line (_ ∷ extra ∷ _) =
    err (bad (codes "export") line (ticked (codes "unexpected token ") extra []))

unfoldable pub check_names : ℕ → List Text → Result ParseError Unit
unfolding is_valid_var_name
check_names line [] = ok tt
check_names line (name ∷ names) =
    ensure (is_valid_var_name name) (bad_variable (codes "export") line name)
    >> check_names line names

unfoldable pub is_public : Flag → Bool
unfolding eq_text
is_public (flag, _) = eq_text flag (codes "--public")

unfoldable pub read_exports : Text → ℕ → Result ParseError (List ExportVar)
unfolding split_flags only_public is_public one_list comma_list check_names
read_exports payload line = do
  (positional, flags) ← split_flags payload (codes "--public" ∷ []) (codes "export") line
  only_public line flags
  names ← one_list line positional
  ensure (not (is_empty (comma_list names))) (no_variables line)
  check_names line (comma_list names)
  ok (map (λ name. record { name = name; public = any is_public flags }) (comma_list names))

-- The last step takes the variables if it is a local block.
unfoldable pub export_last : ℕ → List ExportVar → List Step → Result ParseError (List Step)
unfolding as_local
export_last line vars [] = err (export_not_after_local line)
export_last line vars (step ∷ []) = elim (as_local step) [
  | some s ↦ ok (local_step (record s { export = s.export ++ vars }) ∷ [])
  | none ↦ err (export_not_after_local line)
]
export_last line vars (step ∷ next ∷ steps) = do
  steps' ← export_last line vars (next ∷ steps)
  ok (step ∷ steps')

unfoldable pub bind_exports : Mode → ℕ → List ExportVar → State → Result ParseError State
bind_exports in_local line vars s = ok (record s { pending_export = s.pending_export ++ vars })
bind_exports in_remote line vars s = err (export_not_after_local line)

-- The pending block takes the variables if it holds an executable line, else the last step.
unfoldable pub bind_vars : ℕ → List ExportVar → State → Result ParseError State
unfolding bind_exports export_last has_executable
bind_vars line vars s = elim (has_executable s) [
  | true ↦ bind_exports s.mode line vars s
  | false ↦ export_last line vars s.plan.steps >>= λ steps.
      ok (record s { plan = record s.plan { steps = steps } })
]

unfoldable pub declare_export : Text → ℕ → State → Result ParseError State
unfolding read_exports bind_vars
declare_export payload line s = do vars ← read_exports payload line; bind_vars line vars s

abbrev is_prefix_byte : ℕ → Bool
is_prefix_byte c = is_alnum c || c == b'-' || c == b'_'

unfoldable pub workdir_flag : ℕ → Text → Flag → Result ParseError Text
unfolding eq_text flag_value unknown_flag
workdir_flag line prefix (flag, value) = do
  ensure (eq_text flag (codes "--prefix")) (unknown_flag (codes "workdir") flag line)
  raw ← flag_value value flag (codes "workdir") line
  ensure (not (is_empty raw) && all is_prefix_byte raw)
      (bad (codes "workdir") line (ticked (codes "invalid workdir prefix ") raw []))
  ok raw

unfoldable pub add_workdir : Text → ℕ → State → Result ParseError State
unfolding split_flags try_fold workdir_flag
add_workdir payload line s = do
  (positional, flags) ← split_flags payload [] (codes "workdir") line
  prefix ← try_fold (workdir_flag line) (codes "shellflow") flags
  ensure (not (is_some s.plan.workdir))
      (bad (codes "workdir") line (codes "the workdir is already declared"))
  ok (record s { plan = record s.plan { workdir = some (record { prefix = prefix }) } })
