-- ===== src/Core/Template.antt =====
-- crates/shellflow-core/src/template.rs: the `${NAME}` placeholders of a credential template.
pub mod Missing
use shellflow.Base.{
  ℕ, zero, suc, ◌+◌, Bool, true, false, not, ◌&&◌, ◌||◌, List, [], ◌∷◌, ◌++◌, Option, none, some,
  Text, ltb, ◌==◌, if◌then◌else◌, length, take, drop, is_empty, any,
}
use shellflow.Base.Text.{codes, eq_text, is_alpha, starts_with}
use shellflow.Base.Dict.{lookup, contains_key}
use shellflow.Base.Result.{Result, ok, err}
use shellflow.Shell.{is_word}
use shellflow.Core.Mask.{lt_text}
use shellflow.Core.Mask.Stream.{match_indices}

pub record Placeholder : Type 0 where
  pub key : Text
  pub start : ℕ
  pub end : ℕ

pub record MissingKey : Type 0 where
  pub name : Text
  pub offset : ℕ

-- `after.split_at(name_len)`
unfoldable pub split_name : Text → Text × Text
split_name [] = ([], [])
split_name (c ∷ s) =
    let (name, tail) = split_name s in if is_word c then (c ∷ name, tail) else ([], c ∷ s)

-- `!name.is_empty()` and the test on its first character.
abbrev pub is_name : Text → Bool
is_name [] = false
is_name (c ∷ name) = is_alpha c || c == b'_'

-- The name of a placeholder, from the text behind its `${`.
unfoldable pub placeholder_name : Text → Option Text
unfolding split_name starts_with
placeholder_name after =
    let (name, tail) = split_name after in
    if is_name name && starts_with (codes "}") tail then some name else none

-- The loop over the occurrences of `${`; `cursor` is the end of the last placeholder.
unfoldable pub placeholders_from : Text → ℕ → List ℕ → List Placeholder
unfolding placeholder_name
placeholders_from content cursor [] = []
placeholders_from content cursor (rel ∷ rels) =
    elim (if ltb rel cursor then none else placeholder_name (drop (rel + 2) content)) [
      | none ↦ placeholders_from content cursor rels
      | some name ↦
          record { key = name; start = rel; end = rel + 2 + length name + 1 }
          ∷ placeholders_from content (rel + 2 + length name + 1) rels
    ]

unfoldable pub placeholders : Text → List Placeholder
unfolding match_indices placeholders_from
placeholders content = placeholders_from content 0 (match_indices (codes "${") 0 0 content)

unfoldable pub has_key : Text → List Text → Bool
unfolding eq_text
has_key key keys = any (λ k. eq_text k key) keys

-- The keys so far, with those of the placeholders behind them.
unfoldable pub keys_from : List Text → List Placeholder → List Text
unfolding has_key
keys_from keys [] = keys
keys_from keys (p ∷ spans) =
    keys_from (if has_key p.key keys then keys else keys ++ p.key ∷ []) spans

unfoldable pub template_keys : Text → List Text
unfolding placeholders keys_from
template_keys content = keys_from [] (placeholders content)

unfoldable pub is_reported : Text → List MissingKey → Bool
unfolding eq_text
is_reported key missing = any (λ m. eq_text m.name key) missing

unfoldable pub missing_from :
    List (Text × Text) → List MissingKey → List Placeholder → List MissingKey
unfolding contains_key is_reported
missing_from values missing [] = missing
missing_from values missing (p ∷ spans) =
    missing_from values
      (if contains_key p.key values || is_reported p.key missing
        then missing
        else missing ++ record { name = p.key; offset = p.start } ∷ [])
      spans

-- `sort_by` on the keys, which are different.
unfoldable pub insert_missing : MissingKey → List MissingKey → List MissingKey
unfolding lt_text
insert_missing m [] = m ∷ []
insert_missing m (n ∷ missing) =
    let rest = n ∷ insert_missing m missing in
    if lt_text m.name n.name then m ∷ n ∷ missing else rest

unfoldable pub sort_missing : List MissingKey → List MissingKey
unfolding insert_missing
sort_missing [] = []
sort_missing (m ∷ missing) = insert_missing m (sort_missing missing)

-- `&content[from..to]`
abbrev slice : ℕ → ℕ → Text → Text
slice from to content = drop from (take to content)

abbrev or_empty : Option Text → Text
or_empty none = []
or_empty (some value) = value

unfoldable pub splice : Text → List (Text × Text) → ℕ → List Placeholder → Text
unfolding lookup
splice content values pos [] = drop pos content
splice content values pos (p ∷ spans) =
    slice pos p.start content
    ++ (or_empty (lookup p.key values) ++ splice content values p.end spans)

unfoldable pub render_template : Text → List (Text × Text) → Result (List MissingKey) Text
unfolding placeholders missing_from sort_missing splice
render_template content values =
    let spans = placeholders content in
    let missing = missing_from values [] spans in
    if is_empty missing then ok (splice content values 0 spans) else err (sort_missing missing)
