-- ===== src/Dsl/Parser/Script.antt =====
-- crates/shellflow-dsl/src/parser.rs: `directive` and `parse_script`.
use shellflow.Base.{
  ℕ, suc, true, false, List, [], ◌∷◌, ◌++◌, Option, none, some, Text, ltb, if◌then◌else◌,
}
use shellflow.Base.Text.{codes, trim, trim_start, strip_prefix, white_len}
use shellflow.Base.Text.Lines.{lines, strip_last}
use shellflow.Base.Dict.{lookup, contains_key}
use shellflow.Base.Result.{Result, ok, err, ◌>>=◌, ◌>>◌, ensure}
use shellflow.Shell.{is_word}
use shellflow.Core.Mask.{lt_text}
use shellflow.Dsl.Error.{ParseError, unknown_group_member, unterminated_heredoc}
use shellflow.Dsl.Heredoc.Tracker.{HeredocTracker, consume_body, open_in, unterminated}
use shellflow.Dsl.SshSpec.{SshSpec}
use shellflow.Dsl.Plan.{ExecutionPlan}
use shellflow.Dsl.Parser.Apply.{apply_directive}
use shellflow.Dsl.Parser.State.{State, new_state, flush}

-- The bytes in front of the first that fails the test, and the others.
unfoldable pub split_word : Text → Text × Text
split_word [] = ([], [])
split_word (c ∷ s) =
    let (word, rest) = split_word s in if is_word c then (c ∷ word, rest) else ([], c ∷ s)

-- The text in front of the first white space character.
unfoldable pub until_white : Text → Text
unfolding white_len
until_white [] = []
until_white (c ∷ s) = let rest = until_white s in if ltb 0 (white_len (c ∷ s)) then [] else c ∷ rest

-- The keyword and the payload behind `@`. A keyword that is no whole word is reported with the rest
-- of its token.
unfoldable pub keyword_of : Text × Text → Option (Text × Text)
unfolding white_len until_white trim
keyword_of ([], rest) = none
keyword_of (c ∷ word, []) = some (c ∷ word, [])
keyword_of (c ∷ word, d ∷ rest) =
    if ltb 0 (white_len (d ∷ rest))
    then some (c ∷ word, trim (d ∷ rest))
    else some ((c ∷ word) ++ until_white (d ∷ rest), [])

unfoldable pub directive : Text → Option (Text × Text)
unfolding trim_start strip_prefix keyword_of split_word
directive line = elim (strip_prefix (codes "#") (trim_start line)) [
  | none ↦ none
  | some after_hash ↦ elim (strip_prefix (codes "@") (trim_start after_hash)) [
    | none ↦ none
    | some after_at ↦ keyword_of (split_word after_at)
  ]
]

unfoldable pub push_line : Text → State → State
push_line line s = record s { pending = s.pending ++ line ∷ [] }

-- One line of the script, without its carriage return.
unfoldable pub scan_line : ℕ → Text → State → Result ParseError State
unfolding consume_body directive apply_directive open_in push_line
scan_line line_no line s =
    let (taken, heredocs) = consume_body s.heredocs line in
    let s' = record s { heredocs = heredocs } in
    elim taken [
      | true ↦ ok (push_line line s')
      | false ↦ elim (directive line) [
        | some (keyword, payload) ↦ apply_directive keyword payload line_no s'
        | none ↦ ok (push_line line (record s' { heredocs = open_in heredocs line line_no }))
      ]
    ]

-- The lines with their numbers.
unfoldable pub scan_all : ℕ → List Text → State → Result ParseError State
unfolding scan_line strip_last
scan_all line_no [] s = ok s
scan_all line_no (raw ∷ rest) s =
    scan_line line_no (strip_last b'\r' raw) s >>= λ s'. scan_all (suc line_no) rest s'

unfoldable pub check_heredocs : HeredocTracker → Result ParseError Unit
unfolding unterminated
check_heredocs heredocs = elim (unterminated heredocs) [
  | none ↦ ok tt
  | some (line, heredoc) ↦ err (unterminated_heredoc line heredoc.tag)
]

unfoldable pub check_members : List (Text × SshSpec) → ℕ → Text → List Text → Result ParseError Unit
unfolding contains_key
check_members servers line group [] = ok tt
check_members servers line group (member ∷ members) =
    ensure (contains_key member servers) (unknown_group_member line group member)
    >> check_members servers line group members

abbrev or_zero : Option ℕ → ℕ
or_zero none = 0
or_zero (some line) = line

-- The line of a group, `unwrap_or_default`.
unfoldable pub check_groups :
    List (Text × SshSpec) → List (Text × ℕ) → List (Text × List Text) → Result ParseError Unit
unfolding check_members lookup
check_groups servers group_lines [] = ok tt
check_groups servers group_lines ((group, members) ∷ groups) =
    check_members servers (or_zero (lookup group group_lines)) group members
    >> check_groups servers group_lines groups

-- A `BTreeMap` gives its entries in the order of their keys.
unfoldable pub insert_group : Text × List Text → List (Text × List Text) → List (Text × List Text)
unfolding lt_text
insert_group entry [] = entry ∷ []
insert_group entry (other ∷ entries) =
    let rest = other ∷ insert_group entry entries in
    if lt_text other.0 entry.0 then rest else entry ∷ other ∷ entries

unfoldable pub by_key : List (Text × List Text) → List (Text × List Text)
unfolding insert_group
by_key [] = []
by_key (entry ∷ entries) = insert_group entry (by_key entries)

-- What follows the loop over the lines.
unfoldable pub finish_script : State → Result ParseError ExecutionPlan
unfolding check_heredocs flush check_groups by_key
finish_script s = do
  check_heredocs s.heredocs
  check_groups (flush s).plan.servers (flush s).group_lines (by_key (flush s).plan.groups)
  ok (flush s).plan

unfoldable pub parse_script : Text → Result ParseError ExecutionPlan
unfolding lines scan_all finish_script
parse_script input = scan_all 1 (lines input) new_state >>= finish_script
