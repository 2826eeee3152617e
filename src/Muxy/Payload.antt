-- ===== src/Muxy/Payload.antt =====
-- crates/shellflow-muxy/src/payload.rs: the script that travels through the file API.
use shellflow.Base.{Bool, [], ◌∷◌, ◌++◌, Option, none, some, Text, if◌then◌else◌}
use shellflow.Base.Text.{codes, ends_with}

abbrev pub line_feed : Text
line_feed = b'\n' ∷ []

unfoldable pub run_dir_rel_path : Text → Text
run_dir_rel_path run_id = codes ".shellflow/steps/" ++ run_id

unfoldable pub payload_rel_path : Text → Text → Text
payload_rel_path run_id step_id =
    codes ".shellflow/steps/" ++ (run_id ++ (codes "/" ++ (step_id ++ codes ".sh")))

unfoldable pub bootstrap_line : Text → Text → Text
bootstrap_line run_id step_id =
    codes "chmod 700 ~/.shellflow ~/.shellflow/steps ~/.shellflow/steps/"
    ++ (run_id
        ++ (codes "; exec bash ~/.shellflow/steps/"
            ++ (run_id ++ (codes "/" ++ (step_id ++ (codes ".sh" ++ (b'\r' ∷ [])))))))

unfoldable pub begin_marker : Text → Text → Text
begin_marker run_id step_id =
    codes "@@shellflow:begin:" ++ (run_id ++ (codes "/" ++ (step_id ++ codes "@@")))

unfoldable pub folded_guard : Text → Text
folded_guard guard =
    codes "trap 'rc=$?; if [ \"$rc\" = 42 ]; then exit 1; fi' EXIT\n"
    ++ (codes "if ! ( set +u; "
        ++ (guard ++ codes " ) >/dev/null 2>&1; then trap - EXIT; exit 42; fi\n"))

-- The line that prints the marker.
unfoldable pub marker_line : Text → Text → Text
marker_line run_id step_id =
    codes "printf '%s\\n' '@@shellflow:begin:"
    ++ (run_id ++ (codes "/" ++ (step_id ++ codes "@@'\n")))

-- What stands in front of the script.
unfoldable pub preamble : Option Text → Bool → Text → Text → Text
unfolding folded_guard marker_line
preamble guard trace run_id step_id =
    codes "set -eu\n"
    ++ ((elim guard [ none ↦ [] | some g ↦ folded_guard g ])
        ++ ((if trace then codes "set -x\n" else []) ++ marker_line run_id step_id))

unfoldable pub build_payload : Text → Option Text → Bool → Text → Text → Text
unfolding preamble ends_with
build_payload script guard trace run_id step_id =
    preamble guard trace run_id step_id
    ++ (script ++ (if ends_with line_feed script then [] else line_feed))
