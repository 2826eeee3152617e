-- ===== src/Examples/Scripts.antt =====
-- Runs of crates/shellflow-dsl and of bin/shellflow.
use shellflow.Base.{
  length, ◌≤◌, inl, inr, ap, true, false, List, [], ◌∷◌, ◌++◌, none, some, Text, ◌≡◌, ◌↔◌, ◌≢◌,
  refl, arith, All, map,
}
use shellflow.Base.Text.{codes, contains}
use shellflow.Base.Dict.{lookup}
use shellflow.Base.Result.{ok}
use shellflow.Shell.{is_valid_var_name}
use shellflow.Dsl.Heredoc.{Heredoc, terminates, scan_openers, scan_loop, is_tag_end}
use shellflow.Dsl.Heredoc.Tracker.{tracking, consume_lines, consume_lines-terminated, IsBody}
use shellflow.Dsl.Heredoc.Scan.{scan_openers_bound}
use shellflow.Dsl.Heredoc.Skips.{scan_openers_bare}
use shellflow.Dsl.SshSpec.Accepts.{parse-IsSpec}
use shellflow.Dsl.SshSpec.Print.{IsSpec, print, parse-print}
use shellflow.Dsl.SshSpec.{SshSpec, is_valid_spec_component, host_is_well_formed, parse}
use shellflow.Dsl.Target.{Target}
use shellflow.Dsl.Plan.{ExecutionPlan, ResolvedHost, resolve_hosts}
use shellflow.Dsl.Plan.Hosts.{IsDeclared, resolve_hosts-IsDeclared}
use shellflow.Dsl.Plan.Restrict.{IsRestriction, resolve_hosts-restrict}
use shellflow.Dsl.States.{
  ActiveState, EnabledState, parse_active, active_text, parse_enabled, enabled_text,
  parse_states_iff,
}
use shellflow.Host.Diff.{diff_ops}
use shellflow.Host.Diff.Hunks.{hunks}
use shellflow.Host.Diff.Shown.{without_context, shown_lines, change_lines, shown_lines-hunks}
use shellflow.Host.Diff.Shared.{diff_ops-Among}
use shellflow.Host.Diff.Longest.{unchanged}
use shellflow.Host.Diff.Sides.{Leads, Leads-diff_ops}
use shellflow.Dsl.Interpolate.{RunState, interpolate}
use shellflow.Dsl.Interpolate.Segments.{
  Segment, literal, variable, IsSegment, template_of, rendered, interpolate-template_of,
}

abbrev eof : Heredoc
eof = record { tag = codes "EOF"; strip_tabs = true }

abbrev other : Heredoc
other = record { tag = codes "END"; strip_tabs = false }

abbrev body : List Text
body = codes "# @local" ∷ codes "END" ∷ []

body-IsBody : IsBody eof body
unfolding terminates
body-IsBody = (refl, (refl, tt))

consume_lines-terminated_example :
    consume_lines (tracking ((3, eof) ∷ (3, other) ∷ [])) (body ++ (b'\t' ∷ codes "EOF") ∷ [])
    ≡ (map (λ _. true) (body ++ (b'\t' ∷ codes "EOF") ∷ []), tracking ((3, other) ∷ []))
consume_lines-terminated_example =
    consume_lines-terminated 3 eof ((3, other) ∷ []) body (b'\t' ∷ codes "EOF") body-IsBody
      (unfold terminates in refl)

scan_openers_bound_example :
    scan_loop 20 30 true (codes "cat <<'A B'") ≡ scan_openers (codes "cat <<'A B'")
scan_openers_bound_example =
    scan_openers_bound (codes "cat <<'A B'") 20 30 (omega arith) (omega arith)

scan_openers_bare_example :
    scan_openers
      (codes "cat " ++ (b'<' ∷ b'<' ∷ (b'-' ∷ [] ++ (b'E' ∷ (codes "OF" ++ codes " && x")))))
    ≡ record { tag = b'E' ∷ codes "OF"; strip_tabs = true } ∷ []
unfolding is_tag_end
scan_openers_bare_example =
    scan_openers_bare (codes "cat ") true b'E' (codes "OF") (codes " && x") (ground arith)
      (ground arith) (omega arith) refl (ground arith)

abbrev web1 : SshSpec
web1 = record { user = none; host = codes "10.0.0.1"; port = none }

abbrev web2 : SshSpec
web2 = record { user = none; host = codes "10.0.0.2"; port = some 2222 }

abbrev plan : ExecutionPlan
plan = record {
  servers = (codes "web1", web1) ∷ (codes "web2", web2) ∷ [];
  groups = (codes "web", codes "web1" ∷ codes "web2" ∷ []) ∷ [];
  env = [];
  secrets = [];
  workdir = none;
  steps = [];
}

abbrev web : Target
web = record { text = codes "web"; line = 4 }

abbrev hosts : List ResolvedHost
hosts = record { alias = codes "web2"; spec = web2 } ∷ []

web_run : resolve_hosts plan web (codes "@web2" ∷ []) ≡ ok hosts
unfolding resolve_hosts
web_run = refl

resolve_hosts-IsDeclared_example : All (IsDeclared plan) hosts
resolve_hosts-IsDeclared_example =
    resolve_hosts-IsDeclared plan web (codes "@web2" ∷ []) hosts web_run

resolve_hosts-restrict_example :
    (every : List ResolvedHost) × (resolve_hosts plan web [] ≡ ok every)
    × IsRestriction plan (codes "@web2" ∷ []) every hosts
    × (hosts ≢ [])
resolve_hosts-restrict_example = resolve_hosts-restrict plan web (codes "@web2") [] hosts web_run

abbrev state : RunState
state = record { vars = (codes "DIR", codes "/tmp/$X") ∷ [] }

abbrev segments : List Segment
segments = variable (codes "DIR") (codes "/tmp/$X") ∷ literal (codes "/a.txt") ∷ []

segments-IsSegment : All (IsSegment state) segments
unfolding is_valid_var_name lookup contains
segments-IsSegment = ((refl, refl), (refl, tt))

interpolate-template_of_example : interpolate (template_of segments) state ≡ ok (rendered segments)
interpolate-template_of_example = interpolate-template_of state segments segments-IsSegment

parse_states_iff_example :
    ((state : ActiveState)
      → (parse_active (codes "masked") ≡ some state) ↔ (codes "masked" ≡ active_text state))
    × ((state : EnabledState)
        → (parse_enabled (codes "masked") ≡ some state) ↔ (codes "masked" ≡ enabled_text state))
parse_states_iff_example = parse_states_iff (codes "masked")

abbrev unit_old : List Text
unit_old = codes "[Unit]" ∷ codes "A=1" ∷ codes "B=2" ∷ []

abbrev unit_new : List Text
unit_new = codes "[Unit]" ∷ codes "B=2" ∷ codes "C=3" ∷ []

Leads-diff_ops_example : Leads (diff_ops unit_old unit_new) unit_old unit_new
Leads-diff_ops_example = Leads-diff_ops unit_old unit_new

abbrev unit_both : List Text
unit_both = codes "[Unit]" ∷ codes "B=2" ∷ []

diff_ops-Among_example : length unit_both ≤ unchanged (diff_ops unit_old unit_new)
diff_ops-Among_example =
    diff_ops-Among unit_old unit_new unit_both (omega arith) (inl (refl, inr (inl (refl, tt))))
      (inl (refl, inl (refl, tt)))

shown_lines-hunks_example :
    without_context (shown_lines (hunks (diff_ops unit_old unit_new)))
    ≡ change_lines (diff_ops unit_old unit_new)
shown_lines-hunks_example = shown_lines-hunks (diff_ops unit_old unit_new)

abbrev deploy : SshSpec
deploy = record { user = some (codes "deploy"); host = codes "2001:db8::1"; port = some 2222 }

some_name : (name : Text) → some (codes "deploy") ≡ some name → name ≡ codes "deploy"
some_name name e = cc e

deploy-IsSpec : IsSpec deploy
unfolding is_valid_spec_component host_is_well_formed
deploy-IsSpec = record {
  named = λ name e. ap is_valid_spec_component (some_name name e);
  reached = refl;
  in_range = (omega arith, omega arith);
}

parse-print_example : parse (print deploy) ≡ ok deploy
parse-print_example = parse-print deploy deploy-IsSpec

abbrev typed : Text
typed = codes "deploy@[2001:db8::1]:2222"

typed_run : parse typed ≡ ok deploy
unfolding parse
typed_run = refl

parse-IsSpec_example : IsSpec deploy × (parse (print deploy) ≡ ok deploy)
parse-IsSpec_example = parse-IsSpec typed deploy typed_run
