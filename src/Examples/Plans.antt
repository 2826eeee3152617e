-- ===== src/Examples/Plans.antt =====
-- Runs of crates/shellflow-dsl/src/parser.rs.
use shellflow.Base.{
  arith, all, if◌then◌else◌, inl, true, false, ℕ, List, [], ◌∷◌, ◌++◌, none, some, Text, ◌≡◌, refl,
  All, map,
}
use shellflow.Base.Text.{contains, codes}
use shellflow.Base.Text.Lines.{lines, strip_last}
use shellflow.Base.Dict.{lookup, contains_key}
use shellflow.Base.Result.{ok, err, ◌>>=◌, ensure, ok_or}
use shellflow.Base.Yields.{Yields}
use shellflow.Shell.{shell_quote_single}
use shellflow.Dsl.Error.{unterminated_heredoc}
use shellflow.Dsl.Heredoc.{Heredoc, terminates}
use shellflow.Dsl.Heredoc.Tracker.{IsBody}
use shellflow.Dsl.SshSpec.{SshSpec, parse}
use shellflow.Dsl.SshSpec.Accepts.{parse-IsSpec}
use shellflow.Dsl.SshSpec.Print.{IsSpec}
use shellflow.Dsl.States.{active}
use shellflow.Dsl.Target.{Target, normalized}
use shellflow.Dsl.Step.{
  CopyStep, AssertStep, remote_step, assert_step, copy_step, unit_state, port, rendered,
}
use shellflow.Dsl.Plan.{ExecutionPlan, ResolvedHost, resolve_hosts}
use shellflow.Dsl.Parser.Actions.{actions, actions_of}
use shellflow.Dsl.Parser.Apply.{apply_directive}
use shellflow.Dsl.Parser.Members.{group_line, with_group, scan_line-group_line}
use shellflow.Dsl.Parser.Unmarked.{IsPlain}
use shellflow.Dsl.Parser.Plain.{is_idle, text_of, block_plan, parse_script-plain}
use shellflow.Dsl.Parser.Bodies.{holding, without_cr, scan_all-terminated, scan_all-unterminated}
use shellflow.Dsl.Parser.Declare.{declare_export}
use shellflow.Dsl.Parser.Exports.{declare_export-flush}
use shellflow.Dsl.Parser.Files.{push_copy}
use shellflow.Dsl.Parser.Flags.{positive, join_spaces, is_valid_alias_name}
use shellflow.Dsl.Parser.Merging.{push_copy-actions}
use shellflow.Dsl.Parser.Script.{scan_line, scan_all, finish_script, parse_script}
use shellflow.Dsl.Parser.Spelling.{server_line, with_server, scan_line-server_line}
use shellflow.Dsl.Parser.State.{State, new_state, empty_plan, has_executable, flush}
use shellflow.Dsl.Parser.Words.{split_words}
use shellflow.Dsl.Parser.Words.Quoted.{split_words-shell_quote_single}
use shellflow.Dsl.Valid.{IsState, IsPlan}
use shellflow.Dsl.Valid.Groups.{IsKnown, aliases, parse_script-IsKnown, resolve_hosts-parse_script}
use shellflow.Dsl.Valid.Scan.{apply_directive-IsState, parse_script-IsPlan}

abbrev script : Text
script =
    codes "# @server web1 deploy@10.0.0.1:22"
    ++ b'\n' ∷ codes "# @group web web1,web1"
    ++ b'\n' ∷ codes "# @remote @web"
    ++ b'\n' ∷ codes "echo hi"
    ++ b'\n' ∷ codes "# @assert app @web"
    ++ b'\n' ∷ codes "# @assert_port 80,443 @web"
    ++ b'\n' ∷ []

abbrev web1 : SshSpec
web1 = record { user = some (codes "deploy"); host = codes "10.0.0.1"; port = some 22 }

abbrev web_at : ℕ → Target
web_at line = record { text = codes "web"; line = line }

abbrev plan : ExecutionPlan
plan = record {
  servers = (codes "web1", web1) ∷ [];
  groups = (codes "web", codes "web1" ∷ []) ∷ [];
  env = [];
  secrets = [];
  workdir = none;
  steps =
      remote_step (record {
        name = none;
        target = web_at 3;
        script = codes "echo hi" ++ b'\n' ∷ [];
        guard = none;
        timeout = none;
        env = [];
      })
      ∷ assert_step (record {
        name = none;
        target = web_at 5;
        checks = unit_state (codes "app.service") active ∷ port (80 ∷ 443 ∷ []) false ∷ [];
        timeout = none;
      })
      ∷ [];
}

parsed : parse_script script ≡ ok plan
unfolding parse_script ◌>>=◌ ensure ok_or positive
parsed = refl

parse_script-IsPlan_example : IsPlan plan
parse_script-IsPlan_example = parse_script-IsPlan script plan parsed

parse_script-IsKnown_example : All (IsKnown plan.servers) plan.groups
parse_script-IsKnown_example = parse_script-IsKnown script plan parsed

resolve_hosts-parse_script_example :
    (hosts : List ResolvedHost) × (resolve_hosts plan (web_at 3) [] ≡ ok hosts)
    × (aliases hosts ≡ codes "web1" ∷ [])
resolve_hosts-parse_script_example =
    resolve_hosts-parse_script script plan (web_at 3) (codes "web1" ∷ []) parsed
      (unfold lookup normalized in refl)

new_state-IsState : IsState new_state
new_state-IsState = ((tt, tt, tt, tt), tt, tt)

apply_directive-IsState_example :
    Yields IsState
      (apply_directive (codes "wait_active") (codes "app @web --timeout 30") 1 new_state)
apply_directive-IsState_example =
    apply_directive-IsState (codes "wait_active") (codes "app @web --timeout 30") 1 new_state
      new_state-IsState

split_words-shell_quote_single_example :
    split_words (join_spaces (map shell_quote_single (codes "it's" ∷ [] ∷ codes "a b" ∷ [])))
    ≡ codes "it's" ∷ [] ∷ codes "a b" ∷ []
split_words-shell_quote_single_example =
    split_words-shell_quote_single (codes "it's" ∷ [] ∷ codes "a b" ∷ [])

abbrev block : State
block = record new_state { pending = codes "VERSION=1" ∷ [] }

declare_export-flush_example :
    (declare_export (codes "VERSION --public") 2 block >>= λ s'. ok (flush s'))
    ≡ declare_export (codes "VERSION --public") 2 (flush block)
declare_export-flush_example =
    declare_export-flush (codes "VERSION --public") 2 block refl (unfold has_executable in refl)

abbrev assertion : AssertStep
assertion = record {
  name = none;
  target = web_at 7;
  checks = rendered (codes "/etc/app.conf") ∷ [];
  timeout = none;
}

abbrev behind_plan : State
behind_plan = record new_state { plan = plan }

abbrev copy : CopyStep
copy = record {
  name = none;
  entries = record { src = codes "a.conf"; dst = codes "/etc/a.conf" } ∷ [];
  target = web_at 8;
  delete = false;
  excludes = [];
  timeout = some 60;
  env = [];
}

push_copy-actions_example :
    actions (push_copy (codes "web") copy behind_plan).plan.steps
    ≡ actions plan.steps ++ actions_of (copy_step copy)
push_copy-actions_example = push_copy-actions (codes "web") copy behind_plan refl

abbrev eof : Heredoc
eof = record { tag = codes "EOF"; strip_tabs = true }

abbrev unit_file : List Text
unit_file = codes "# @local" ∷ (codes "[Unit]" ++ b'\r' ∷ []) ∷ []

unit_file-IsBody : IsBody eof (map without_cr unit_file)
unfolding terminates strip_last
unit_file-IsBody = (refl, (refl, tt))

scan_all-terminated_example :
    scan_all 4
      (unit_file ++ codes "EOF" ∷ codes "# @local" ∷ [])
      (holding (codes "cat <<-EOF" ∷ []) ((3, eof) ∷ []) new_state)
    ≡ scan_all 7 (codes "# @local" ∷ []) (
        holding
          (codes "cat <<-EOF" ∷ codes "# @local" ∷ codes "[Unit]" ∷ codes "EOF" ∷ [])
          []
          new_state)
unfolding strip_last
scan_all-terminated_example =
    scan_all-terminated 3 4 eof [] unit_file (codes "# @local" ∷ []) (codes "EOF")
      (codes "cat <<-EOF" ∷ []) new_state unit_file-IsBody (unfold terminates strip_last in refl)

scan_all-unterminated_example :
    (scan_all 4 unit_file (holding (codes "cat <<-EOF" ∷ []) ((3, eof) ∷ []) new_state)
      >>= finish_script)
    ≡ err (unterminated_heredoc 3 (codes "EOF"))
scan_all-unterminated_example =
    scan_all-unterminated 3 4 eof [] unit_file (codes "cat <<-EOF" ∷ []) new_state unit_file-IsBody

abbrev plain : Text
plain = codes "# setup" ++ b'\n' ∷ codes "echo hi" ++ b'\r' ∷ b'\n' ∷ []

abbrev plain_lines : List Text
plain_lines = codes "# setup" ∷ codes "echo hi" ∷ []

plain-IsPlain : All IsPlain (map without_cr (lines plain))
unfolding contains lines
plain-IsPlain = ((refl, inl refl), ((refl, inl refl), tt))

parse_script-plain_example :
    parse_script plain
    ≡ ok (
        if all is_idle (map without_cr (lines plain))
        then empty_plan
        else block_plan (text_of (map without_cr (lines plain))))
parse_script-plain_example = parse_script-plain plain plain-IsPlain

web1-IsSpec : IsSpec web1
web1-IsSpec = (parse-IsSpec (codes "deploy@10.0.0.1:22") web1 (unfold parse in refl)).0

scan_line-server_line_example :
    scan_line 1 (server_line (codes "web1") web1) block
    ≡ ok (with_server (codes "web1") web1 (flush block))
scan_line-server_line_example =
    scan_line-server_line (codes "web1") web1 1 block (unfold is_valid_alias_name in refl)
      web1-IsSpec (unfold flush contains_key in refl) refl

abbrev two : List Text
two = codes "web2" ∷ codes "web1" ∷ []

scan_line-group_line_example :
    scan_line 1 (group_line (codes "web") two) block
    ≡ ok (with_group (codes "web") two 1 (flush block))
unfolding flush contains_key
scan_line-group_line_example =
    scan_line-group_line (codes "web") (codes "web2") (codes "web1" ∷ []) 1 block
      (unfold is_valid_alias_name in refl) (unfold is_valid_alias_name in (refl, (refl, tt)))
      ((ground arith, (ground arith, tt)), ((ground arith, tt), (tt, tt))) refl refl refl
