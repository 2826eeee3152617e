-- ===== src/Dsl/Parser/Members.antt =====
-- `@group`, written out and scanned.
use shellflow.Base.{
  ℕ, true, false, not, List, [], ◌∷◌, ◌++◌, some, Text, ◌≡◌, ◌≢◌, refl, sym, ap, ◌∙◌, arith,
  append_assoc, append-nil, All, all, keep, map, is_empty, inl, inr, Bool-cases,
}
use shellflow.Base.Text.{
  codes, contains, starts_with, eq_text, eq_text_iff, is_white, trim, trim_end,
}
use shellflow.Base.Text.Lines.{split_byte, split_byte-append}
use shellflow.Base.Dict.{insert, contains_key}
use shellflow.Base.Result.{ok, ◌>>=◌, ensure}
use shellflow.Shell.{shell_quote_single}
use shellflow.Shell.Strip.{Solid, trim_start-Solid, trim_end-Solid}
use shellflow.Dsl.Heredoc.Tracker.{tracking}
use shellflow.Dsl.Parser.Apply.{apply_directive}
use shellflow.Dsl.Parser.Declare.{read_pair, distinct_members, declare_group}
use shellflow.Dsl.Parser.Flags.{
  is_valid_alias_name, is_alias_byte, is_one_of, comma_list, join_spaces,
}
use shellflow.Dsl.Parser.Script.{scan_line}
use shellflow.Dsl.Parser.State.{State, flush}
use shellflow.Dsl.Parser.Spelling.{directive-keyword, trim-quoted, scan_line-directive}
use shellflow.Dsl.Parser.Words.Quoted.{split_words-shell_quote_single}

-- The texts with a comma between each two.
abbrev pub with_commas : List Text → Text
with_commas [] = []
with_commas (part ∷ []) = part
with_commas (part ∷ next ∷ parts) = part ++ b',' ∷ with_commas (next ∷ parts)

abbrev pub IsAlias : Text → Type 0
IsAlias name = is_valid_alias_name name ≡ true

-- No two of the texts are the same.
abbrev pub AreDifferent : List Text → Type 0
AreDifferent [] = Unit
AreDifferent (text ∷ texts) = All (λ other. other ≢ text) texts × AreDifferent texts

alias_byte-Solid : (c : ℕ) → is_alias_byte c ≡ true → Solid c
unfolding is_white
alias_byte-Solid c h = ground (arith, h)

split_byte-whole :
    (b : ℕ) (part : Text) → contains (b ∷ []) part ≡ false → split_byte b part ≡ part ∷ []
unfolding split_byte contains starts_with
split_byte-whole b [] h = refl
split_byte-whole b (c ∷ part) h = ground (arith, h, split_byte-whole b part)

no_comma : (s : Text) → all is_alias_byte s ≡ true → contains (b',' ∷ []) s ≡ false
unfolding contains starts_with
no_comma [] h = refl
no_comma (c ∷ s) h = ground (arith, h, no_comma s)

-- The last byte of a text of alias bytes.
last_byte :
    (c : ℕ) (s : Text)
    → all is_alias_byte (c ∷ s) ≡ true
    → (t : Text) × (z : ℕ) × (c ∷ s ≡ t ++ z ∷ []) × Solid z
last_byte c [] h = ([], c, refl, alias_byte-Solid c (ground (arith, h)))
last_byte c (d ∷ s) h =
    let (t, z, e, f) = last_byte d s (ground (arith, h)) in (c ∷ t, z, ap (◌∷◌ c) e, f)

trim-alias : (c : ℕ) (s : Text) → all is_alias_byte (c ∷ s) ≡ true → trim (c ∷ s) ≡ c ∷ s
unfolding trim
trim-alias c s h =
    let (t, z, e, f) = last_byte c s h in
    ap trim_end (trim_start-Solid c s (alias_byte-Solid c (ground (arith, h))))
    ∙ ap trim_end e
    ∙ trim_end-Solid z t f
    ∙ sym e

alias_bytes :
    (name : Text) → IsAlias name → (is_empty name ≡ false) × (all is_alias_byte name ≡ true)
unfolding is_valid_alias_name
alias_bytes name h = ground (arith, h)

trim-IsAlias : (name : Text) → IsAlias name → trim name ≡ name
trim-IsAlias [] h = absurd (cc (alias_bytes [] h).0)
trim-IsAlias (c ∷ s) h = trim-alias c s (alias_bytes (c ∷ s) h).1

split_byte-with_commas :
    (part : Text) (parts : List Text)
    → All IsAlias (part ∷ parts)
    → split_byte b',' (with_commas (part ∷ parts)) ≡ part ∷ parts
split_byte-with_commas part [] (h, _) =
    split_byte-whole b',' part (no_comma part (alias_bytes part h).1)
split_byte-with_commas part (next ∷ parts) (h, hs) =
    split_byte-append b',' part (with_commas (next ∷ parts)) (no_comma part (alias_bytes part h).1)
    ∙ ap (◌∷◌ part) (split_byte-with_commas next parts hs)

keep_trimmed :
    (parts : List Text)
    → All IsAlias parts
    → keep (λ part. not (is_empty part)) (map trim parts) ≡ parts
keep_trimmed [] h = refl
keep_trimmed ([] ∷ parts) (h, hs) = absurd (cc (alias_bytes [] h).0)
keep_trimmed ((c ∷ s) ∷ parts) (h, hs) =
    rw (trim-IsAlias (c ∷ s) h) (ap (◌∷◌ (c ∷ s)) (keep_trimmed parts hs))

comma_list-with_commas :
    (part : Text) (parts : List Text)
    → All IsAlias (part ∷ parts)
    → comma_list (with_commas (part ∷ parts)) ≡ part ∷ parts
unfolding comma_list
comma_list-with_commas part parts h =
    rw (split_byte-with_commas part parts h) (keep_trimmed (part ∷ parts) h)

different : (a b : Text) → a ≢ b → eq_text a b ≡ false
different a b h = elim (Bool-cases (eq_text a b)) [
  | inl e ↦ absurd (h ((eq_text_iff a b).0 e))
  | inr e ↦ e
]

is_one_of-All :
    (name : Text) (texts : List Text)
    → All (λ other. other ≢ name) texts
    → is_one_of name texts ≡ false
is_one_of-All name [] h = refl
is_one_of-All name (text ∷ texts) (h, hs) =
    rw (different name text (λ e. h (sym e)), is_one_of-All name texts hs) refl

-- None of the texts was seen.
abbrev AreNew : List Text → List Text → Type 0
AreNew seen = All (λ text. is_one_of text seen ≡ false)

seen_next :
    (seen : List Text) (text other : Text)
    → is_one_of other seen ≡ false
    → other ≢ text
    → is_one_of other (seen ++ text ∷ []) ≡ false
seen_next [] text other h n = rw (different other text n) refl
seen_next (first ∷ seen) text other h n = ground (arith, h, seen_next seen text other, n)

AreNew-next :
    (seen : List Text) (text : Text) (texts : List Text)
    → AreNew seen texts
    → All (λ other. other ≢ text) texts
    → AreNew (seen ++ text ∷ []) texts
AreNew-next seen text [] h n = tt
AreNew-next seen text (other ∷ texts) (h, hs) (n, ns) =
    (seen_next seen text other h n, AreNew-next seen text texts hs ns)

distinct_members-AreDifferent :
    (name : Text) (line_no : ℕ) (seen members : List Text)
    → All IsAlias members
    → AreNew seen members
    → AreDifferent members
    → distinct_members name line_no seen members ≡ ok (seen ++ members)
unfolding distinct_members ◌>>=◌ ensure
distinct_members-AreDifferent name line_no seen [] a n d = ap ok (sym (append-nil seen))
distinct_members-AreDifferent name line_no seen (member ∷ members) (a, rest) (n, ns) (d, ds) =
    rw (a, n, distinct_members)
      (distinct_members-AreDifferent name line_no (seen ++ member ∷ []) members rest
          (AreNew-next seen member members ns d) ds
        ∙ ap ok (append_assoc seen (member ∷ []) members))

-- A group as a line declares it, with its name and the list of its members quoted.
abbrev pub group_line : Text → List Text → Text
group_line name members =
    codes "# @"
    ++ (codes "group"
        ++ b' ' ∷ (shell_quote_single name ++ b' ' ∷ shell_quote_single (with_commas members)))

abbrev pub with_group : Text → List Text → ℕ → State → State
with_group name members line_no s = record s {
  plan = record s.plan { groups = insert name members s.plan.groups };
  group_lines = insert name line_no s.group_lines;
}

read_pair-group :
    (name members : Text) (line_no : ℕ)
    → IsAlias name
    → read_pair (codes "group") (codes "members") line_no (name ∷ members ∷ []) ≡ ok (name, members)
unfolding read_pair ◌>>=◌ ensure
read_pair-group name members line_no a = rw (a, read_pair) refl

AreNew-nil : (members : List Text) → AreNew [] members
AreNew-nil [] = tt
AreNew-nil (member ∷ members) = (refl, AreNew-nil members)

declare_group-quoted :
    (name first : Text) (members : List Text) (line_no : ℕ) (s : State)
    → IsAlias name
    → All IsAlias (first ∷ members)
    → AreDifferent (name ∷ first ∷ members)
    → contains_key name s.plan.servers ≡ false
    → contains_key name s.plan.groups ≡ false
    → declare_group
        (shell_quote_single name ++ b' ' ∷ shell_quote_single (with_commas (first ∷ members)))
        line_no
        s
      ≡ ok (with_group name (first ∷ members) line_no s)
unfolding declare_group ◌>>=◌ ensure join_spaces
declare_group-quoted name first members line_no s a as_members (d, ds) k g =
    rw
      (
        split_words-shell_quote_single (name ∷ with_commas (first ∷ members) ∷ []),
        declare_group,
        read_pair-group name (with_commas (first ∷ members)) line_no a,
        k,
        g,
        comma_list-with_commas first members as_members,
        is_one_of-All name (first ∷ members) d,
        distinct_members-AreDifferent name line_no [] (first ∷ members) as_members
            (AreNew-nil (first ∷ members)) ds,
      )
      refl

apply_directive-group :
    (payload : Text) (line_no : ℕ) (s : State)
    → apply_directive (codes "group") payload line_no s ≡ declare_group payload line_no (flush s)
unfolding apply_directive
apply_directive-group payload line_no s = refl

-- A line that declares a group, with its name and the list of its members quoted and commas between
-- the members, is scanned outside of the here-documents as that declaration, if name and members are
-- aliases, no two of them the same, and the name is neither a server nor a group: it flushes the
-- pending block, the plan has the group with exactly these members, in the order in which the line
-- lists them, and the number of the line is kept for the group.
pub scan_line-group_line :
    (name first : Text) (members : List Text) (line_no : ℕ) (s : State)
    → IsAlias name
    → All IsAlias (first ∷ members)
    → AreDifferent (name ∷ first ∷ members)
    → contains_key name (flush s).plan.servers ≡ false
    → contains_key name (flush s).plan.groups ≡ false
    → s.heredocs ≡ tracking []
    → scan_line line_no (group_line name (first ∷ members)) s
      ≡ ok (with_group name (first ∷ members) line_no (flush s))
scan_line-group_line name first members line_no s a as_members d k g t =
    let listed = with_commas (first ∷ members) in
    let payload = shell_quote_single name ++ b' ' ∷ shell_quote_single listed in
    scan_line-directive line_no (group_line name (first ∷ members)) (codes "group") payload s t (
      directive-keyword (codes "group") payload refl refl
      ∙ ap (λ p. some (codes "group", p)) (trim-quoted name listed))
    ∙ apply_directive-group payload line_no s
    ∙ declare_group-quoted name first members line_no (flush s) a as_members d k g
