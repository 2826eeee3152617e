-- ===== src/Secrets/EnvFile.antt =====
-- crates/shellflow-secrets/src/env.rs: `parse_env_file`, the plaintext of an encrypted env file.
use shellflow.Base.{
  ℕ, suc, Bool, true, false, not, ◌||◌, List, [], ◌∷◌, ◌++◌, none, some, Text, if◌then◌else◌,
  is_empty, ◌≡◌, refl, sym, ◌∙◌, subst, arith, inl, inr, Bool-cases, Option-cases,
}
use shellflow.Base.Text.{codes, eq_text, eq_text_iff, starts_with, strip_prefix, split_once, trim}
use shellflow.Base.Text.Lines.{lines, strip_last}
use shellflow.Base.Dict.{lookup, insert, lookup-insert}
use shellflow.Base.Result.{Result, ok, err, Result-cases}
use shellflow.Shell.{is_valid_var_name, strip_surrounding_quotes}

-- `SecretsError::MalformedEnv`
pub data SecretsError : Type 0 where
  malformed_env : ℕ → Text → SecretsError

-- `strip_prefix(p).unwrap_or(s)`
unfoldable pub without_prefix : Text → Text → Text
unfolding strip_prefix
without_prefix p s = elim (strip_prefix p s) [ some rest ↦ rest | none ↦ s ]

-- The byte order mark U+FEFF in UTF-8.
abbrev pub byte_order_mark : Text
byte_order_mark = 0xEF ∷ 0xBB ∷ 0xBF ∷ []

-- One line that is neither blank nor a comment.
unfoldable pub parse_assignment : ℕ → Text → Result SecretsError (Text × Text)
unfolding split_once trim is_valid_var_name strip_surrounding_quotes
parse_assignment line_no assignment = elim (split_once (codes "=") assignment) [
  | none ↦ err (malformed_env line_no (codes "expected `KEY=VALUE`"))
  | some (key, value) ↦
      if not (is_valid_var_name (trim key))
      then err (malformed_env line_no (codes "invalid variable name `" ++ (trim key ++ codes "`")))
      else ok (trim key, strip_surrounding_quotes value)
]

unfoldable pub is_skipped : Text → Bool
unfolding starts_with
is_skipped line = is_empty line || starts_with (codes "#") line

-- The loop over the lines, from line `line_no` on.
unfoldable pub parse_lines :
    ℕ → List (Text × Text) → List Text → Result SecretsError (List (Text × Text))
unfolding strip_last trim is_skipped without_prefix parse_assignment insert
parse_lines line_no out [] = ok out
parse_lines line_no out (raw ∷ raws) = elim (is_skipped (trim (strip_last b'\r' raw))) [
  | true ↦ parse_lines (suc line_no) out raws
  | false ↦
      elim (parse_assignment line_no
        (trim (without_prefix (codes "export ") (trim (strip_last b'\r' raw))))) [
          | ok (key, value) ↦ parse_lines (suc line_no) (insert key value out) raws
          | err e ↦ err e
        ]
]

unfoldable pub parse_env_file : Text → Result SecretsError (List (Text × Text))
unfolding without_prefix lines parse_lines
parse_env_file content = parse_lines 1 [] (lines (without_prefix byte_order_mark content))

-- Every key is a shell identifier and occurs once.
abbrev pub IsEnv : List (Text × Text) → Type 0
IsEnv [] = Unit
IsEnv ((key, _) ∷ out) = (is_valid_var_name key ≡ true) × (lookup key out ≡ none) × IsEnv out

eq_text-sym : (a b : Text) → eq_text a b ≡ false → eq_text b a ≡ false
eq_text-sym a b h = elim (Bool-cases (eq_text b a)) [
  | inl e ↦ absurd (cc (h, (eq_text_iff a b).1 (sym ((eq_text_iff b a).0 e))))
  | inr e ↦ e
]

-- A key that is not there is not there behind the insertion of another one.
absent :
    (key k value : Text) (out : List (Text × Text))
    → eq_text k key ≡ false
    → lookup k out ≡ none
    → lookup k (insert key value out) ≡ none
absent key k value out h n = lookup-insert key k value out ∙ (rw (eq_text-sym k key h) n)

insert-IsEnv :
    (key value : Text) (out : List (Text × Text))
    → is_valid_var_name key ≡ true
    → IsEnv out
    → IsEnv (insert key value out)
unfolding insert lookup
insert-IsEnv key value [] v e = (v, refl, tt)
insert-IsEnv key value ((k, w) ∷ out) v (v', n, e) = elim (Bool-cases (eq_text k key)) [
  | inl h ↦ rw (h, insert) (v', n, e)
  | inr h ↦ rw (h, insert) (v', absent key k value out h n, insert-IsEnv key value out v e)
]

same_key :
    (k w key value : Text)
    → is_valid_var_name (trim k) ≡ true
    → ◌≡◌ {A = Result SecretsError (Text × Text)} (ok (trim k, w)) (ok (key, value))
    → is_valid_var_name key ≡ true
same_key k w key value v h = ground arith

ok_result :
    (a b : List (Text × Text))
    → ◌≡◌ {A = Result SecretsError (List (Text × Text))} (ok a) (ok b)
    → a ≡ b
ok_result a b h = ground arith

parse_assignment-is_valid_var_name :
    (line_no : ℕ) (s key value : Text)
    → parse_assignment line_no s ≡ ok (key, value)
    → is_valid_var_name key ≡ true
unfolding parse_assignment
parse_assignment-is_valid_var_name line_no s key value h =
    elim (Option-cases (split_once (codes "=") s)) [
      | inl e ↦ absurd (cc (rw (e, parse_assignment) at h))
      | inr ((k, w), e) ↦ elim (Bool-cases (is_valid_var_name (trim k))) [
        | inl e' ↦
            same_key k (strip_surrounding_quotes w) key value e' (rw (e, e', parse_assignment) at h)
        | inr e' ↦ absurd (cc (rw (e, e', parse_assignment) at h))
      ]
    ]

parse_lines-IsEnv :
    (line_no : ℕ) (out : List (Text × Text)) (raws : List Text) (result : List (Text × Text))
    → IsEnv out
    → parse_lines line_no out raws ≡ ok result
    → IsEnv result
unfolding parse_lines
parse_lines-IsEnv line_no out [] result e h = subst IsEnv (ok_result out result h) e
parse_lines-IsEnv line_no out (raw ∷ raws) result e h =
    let line = trim (strip_last b'\r' raw) in
    let assignment = trim (without_prefix (codes "export ") line) in
    elim (Bool-cases (is_skipped line)) [
      | inl s ↦ parse_lines-IsEnv (suc line_no) out raws result e (rw (s, parse_lines) at h)
      | inr s ↦ elim (Result-cases (parse_assignment line_no assignment)) [
        | inl ((key, value), a) ↦
            parse_lines-IsEnv (suc line_no) (insert key value out) raws result
              (insert-IsEnv key value out
                (parse_assignment-is_valid_var_name line_no assignment key value a) e)
              (rw (s, a, parse_lines) at h)
        | inr (x, a) ↦ absurd (cc (rw (s, a, parse_lines) at h))
      ]
    ]

-- Whatever an env file holds, the variables that it is read as have different names, all of them
-- shell identifiers.
pub parse_env_file-IsEnv :
    (content : Text) (vars : List (Text × Text)) → parse_env_file content ≡ ok vars → IsEnv vars
unfolding parse_env_file
parse_env_file-IsEnv content vars h =
    parse_lines-IsEnv 1 [] (lines (without_prefix byte_order_mark content)) vars tt h
