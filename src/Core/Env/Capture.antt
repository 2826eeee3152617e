-- ===== src/Core/Env/Capture.antt =====
-- What the capture parser accepts, and what it gives back of what a runner wrote.
use mathlib.Core.List.{append_assoc}
use shellflow.Base.{
  true, false, List, [], ◌∷◌, ◌++◌, Option, some, Text, ◌≡◌, refl, sym, arith, inl, inr, Bool-cases,
  Option-cases, is_empty, All, subst,
}
use shellflow.Base.Text.{eq_text_iff, contains, contains_byte-append, split_once, split_once_byte}
use shellflow.Base.Text.Utf8.{is_utf8}
use shellflow.Base.Text.Lines.{split_byte, split_byte-append}
use shellflow.Base.Dict.{insert, lookup, lookup-nil, lookup-insert}
use shellflow.Base.Result.{ok, Result-cases}
use shellflow.Shell.{is_valid_var_name}
use shellflow.Shell.Name.{is_utf8-is_valid_var_name, contains-is_valid_var_name, valid_ne_nil}
use shellflow.Core.Env.{
  Vars, is_allowed, check_record, parse_record, parse_records, parse_capture_records_checked,
  capture_separator,
}

is_empty_nil : (s : Text) → is_empty s ≡ true → s ≡ []
is_empty_nil [] h = refl
is_empty_nil (c ∷ s) h = cc

-- What is known of an entry that the parser accepted.
pub record IsTrusted (allowed : Option (List Text)) (name value : Text) : Type 0 where
  pub valid : is_valid_var_name name ≡ true
  pub listed : is_allowed allowed name ≡ true
  pub text : is_utf8 value ≡ true

check_record-IsTrusted :
    (allowed : Option (List Text)) (n v name value : Text)
    → check_record allowed n v ≡ ok (name, value)
    → IsTrusted allowed name value
unfolding check_record
check_record-IsTrusted allowed n v name value h = ground arith

parse_record-IsTrusted :
    (allowed : Option (List Text)) (bytes name value : Text)
    → parse_record allowed bytes ≡ ok (name, value)
    → IsTrusted allowed name value
unfolding parse_record
parse_record-IsTrusted allowed bytes name value h =
    elim (Option-cases (split_once (b'=' ∷ []) bytes)) [
      | inl e ↦ absurd (cc (rw (e, parse_record) at h))
      | inr ((n, v), e) ↦ check_record-IsTrusted allowed n v name value (rw (e, parse_record) at h)
    ]

-- Every entry of the map is trusted.
abbrev AllTrusted : Option (List Text) → Vars → Type 0
AllTrusted allowed vars =
    (name value : Text) → lookup name vars ≡ some value → IsTrusted allowed name value

insert-AllTrusted :
    (allowed : Option (List Text)) (vars : Vars) (name value : Text)
    → IsTrusted allowed name value
    → AllTrusted allowed vars
    → AllTrusted allowed (insert name value vars)
insert-AllTrusted allowed vars name value t all j w h =
    ground (arith, lookup-insert name j value vars, eq_text_iff name j, all j w)

parse_records-AllTrusted :
    (allowed : Option (List Text)) (records : List Text) (out vars : Vars)
    → AllTrusted allowed out
    → parse_records allowed out records ≡ ok vars
    → AllTrusted allowed vars
unfolding parse_records
parse_records-AllTrusted allowed [] out vars all h = subst (AllTrusted allowed) (ground arith) all
parse_records-AllTrusted allowed ([] ∷ records) out vars all h =
    parse_records-AllTrusted allowed records out vars all h
parse_records-AllTrusted allowed ((c ∷ s) ∷ records) out vars all h =
    elim (Result-cases (parse_record allowed (c ∷ s))) [
      | inl ((name, value), e) ↦
          parse_records-AllTrusted allowed records (insert name value out) vars
            (insert-AllTrusted allowed out name value
              (parse_record-IsTrusted allowed (c ∷ s) name value e) all)
            (rw (e, parse_records) at h)
      | inr (x, e) ↦ absurd (cc (rw (e, parse_records) at h))
    ]

-- Whatever bytes a block writes, an accepted capture holds only variables of the allow list, with
-- names that are shell identifiers and values that are UTF-8.
pub parse_capture_records_checked-IsTrusted :
    (bytes : Text) (allowed : List Text) (vars : Vars) (name value : Text)
    → parse_capture_records_checked bytes (some allowed) ≡ ok vars
    → lookup name vars ≡ some value
    → IsTrusted (some allowed) name value
unfolding parse_capture_records_checked
parse_capture_records_checked-IsTrusted bytes allowed vars name value h =
    parse_records-AllTrusted (some allowed) (split_byte capture_separator bytes) [] vars
      (λ n v e. absurd (cc (e, lookup-nil {0} {V = Text} n))) h name value

-- The records that the runner writes for exported variables.
abbrev pub encode_records : List (Text × Text) → Text
encode_records [] = []
encode_records ((name, value) ∷ entries) =
    name ++ (b'=' ∷ (value ++ (capture_separator ∷ encode_records entries)))

-- The map that a shell would hold after the assignments, in this order.
abbrev pub assign : Vars → List (Text × Text) → Vars
assign out [] = out
assign out ((name, value) ∷ entries) = assign (insert name value out) entries

-- An exported variable: a listed identifier, with a value of text that holds no NUL.
pub record IsExport (allowed : Option (List Text)) (entry : Text × Text) : Type 0 where
  pub valid : is_valid_var_name entry.0 ≡ true
  pub listed : is_allowed allowed entry.0 ≡ true
  pub text : is_utf8 entry.1 ≡ true
  pub no_nul : contains (capture_separator ∷ []) entry.1 ≡ false

module _ (allowed : Option (List Text)) where
  check_record_export :
      (name value : Text)
      → IsExport allowed (name, value)
      → check_record allowed name value ≡ ok (name, value)
  unfolding check_record
  check_record_export name value x =
      rw (is_utf8-is_valid_var_name name x.valid, x.text, x.valid, x.listed)
        (elim (Bool-cases (is_empty name)) [
          | inl e ↦ absurd (valid_ne_nil name x.valid (is_empty_nil name e))
          | inr e ↦ rw e refl
        ])

  parse_record_export :
      (name value : Text)
      → IsExport allowed (name, value)
      → parse_record allowed (name ++ (b'=' ∷ value)) ≡ ok (name, value)
  unfolding parse_record
  parse_record_export name value x =
      rw
        (
          split_once_byte b'=' name value (contains-is_valid_var_name b'=' name x.valid refl),
          parse_record,
        )
        (check_record_export name value x)

  -- One record more in front.
  parse_records_export :
      (name value : Text) (records : List Text) (out : Vars)
      → IsExport allowed (name, value)
      → parse_records allowed out ((name ++ (b'=' ∷ value)) ∷ records)
        ≡ parse_records allowed (insert name value out) records
  unfolding parse_records
  parse_records_export [] value records out x = absurd (valid_ne_nil [] x.valid refl)
  parse_records_export (c ∷ name) value records out x =
      rw (parse_record_export (c ∷ name) value x, parse_records) refl

  split_byte_export :
      (name value rest : Text)
      → IsExport allowed (name, value)
      → split_byte capture_separator (name ++ (b'=' ∷ (value ++ (capture_separator ∷ rest))))
        ≡ (name ++ (b'=' ∷ value)) ∷ split_byte capture_separator rest
  split_byte_export name value rest x =
      rw (sym (append_assoc name (b'=' ∷ value) (capture_separator ∷ rest))) (
        split_byte-append capture_separator (name ++ (b'=' ∷ value)) rest (
          rw
            (
              contains_byte-append capture_separator name (b'=' ∷ value),
              contains-is_valid_var_name capture_separator name x.valid refl,
            )
            (unfold contains in ground (arith, x.no_nul))))

  parse_records_encode :
      (entries : List (Text × Text)) (out : Vars)
      → All (IsExport allowed) entries
      → parse_records allowed out (split_byte capture_separator (encode_records entries))
        ≡ ok (assign out entries)
  parse_records_encode [] out x = unfold split_byte parse_records in refl
  parse_records_encode ((name, value) ∷ entries) out (x, xs) =
      rw
        (
          split_byte_export name value (encode_records entries) x,
          parse_records_export name value (split_byte capture_separator (encode_records entries))
              out x,
        )
        (parse_records_encode entries (insert name value out) xs)

-- Records of variables that are listed identifiers, with values of UTF-8 without NUL, are read back in
-- their order, the last value of a name winning; a value may hold line feeds and `=`.
pub parse_capture_records_checked-encode_records :
    (allowed : List Text) (entries : List (Text × Text))
    → All (IsExport (some allowed)) entries
    → parse_capture_records_checked (encode_records entries) (some allowed) ≡ ok (assign [] entries)
unfolding parse_capture_records_checked
parse_capture_records_checked-encode_records allowed entries x =
    parse_records_encode (some allowed) entries [] x
