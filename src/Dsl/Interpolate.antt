-- ===== src/Dsl/Interpolate.antt =====
-- crates/shellflow-dsl/src/plan.rs: `interpolate`, the `$NAME` and `${NAME}` references of a path.
pub mod Segments
use shellflow.Base.{
  ℕ, zero, suc, ◌+◌, Bool, true, false, not, ◌&&◌, List, [], ◌∷◌, ◌++◌, Option, none, some, Text,
  ◌==◌, if◌then◌else◌, length,
}
use shellflow.Base.Text.{codes}
use shellflow.Base.Dict.{lookup}
use shellflow.Base.Result.{Result, ok, err}
use shellflow.Shell.{is_valid_var_name, is_word}
use shellflow.Dsl.Error.{InterpolateError, unresolved}

pub record RunState : Type 0 where
  pub vars : List (Text × Text)

-- The characters up to a closing brace, and whether there is one.
unfoldable pub until_brace : Text → Text × Bool
until_brace [] = ([], false)
until_brace (c ∷ s) =
    let (name, closed) = until_brace s in if c == b'}' then ([], true) else (c ∷ name, closed)

-- The characters that can be part of an identifier.
unfoldable pub take_name : Text → Text
take_name [] = []
take_name (c ∷ s) = let name = take_name s in if is_word c then c ∷ name else []

unfoldable pub value_of_var : Text → RunState → Text → Result InterpolateError Text
unfolding lookup
value_of_var template state name = elim (lookup name state.vars) [
  | some value ↦ ok value
  | none ↦ err (unresolved name template)
]

-- What a reference is replaced by, and how many characters it has behind its `$`.
abbrev Piece : Type 0
Piece = Result InterpolateError Text × ℕ

unfoldable pub braced : Text → RunState → Text × Bool → Piece
unfolding value_of_var is_valid_var_name
braced template state (name, closed) = (
  if closed && is_valid_var_name name
      then value_of_var template state name
      else ok (b'$' ∷ b'{' ∷ (name ++ (if closed then b'}' ∷ [] else []))),
  1 + length name + (if closed then 1 else 0),
)

unfoldable pub bare : Text → RunState → Text → Piece
unfolding value_of_var is_valid_var_name
bare template state name = (
  if is_valid_var_name name then value_of_var template state name else ok (b'$' ∷ name),
  length name,
)

-- The reference that a `$` in front of this text begins.
unfoldable pub reference : Text → RunState → Text → Piece
unfolding until_brace take_name braced bare
reference template state [] = bare template state []
reference template state (c ∷ s) =
    if c == b'{'
    then braced template state (until_brace s)
    else bare template state (take_name (c ∷ s))

abbrev in_front :
    Result InterpolateError Text → Result InterpolateError Text → Result InterpolateError Text
in_front (err e) rest = err e
in_front (ok piece) (ok rest) = ok (piece ++ rest)
in_front (ok piece) (err e) = err e

-- The loop over the characters; the number counts those that a reference consumed already.
unfoldable pub interpolate_skip : Text → RunState → ℕ → Text → Result InterpolateError Text
unfolding reference
interpolate_skip template state k [] = ok []
interpolate_skip template state (suc k) (c ∷ s) = interpolate_skip template state k s
interpolate_skip template state zero (c ∷ s) = elim (c == b'$') [
  | false ↦ in_front (ok (c ∷ [])) (interpolate_skip template state 0 s)
  | true ↦
      in_front (reference template state s).0
        (interpolate_skip template state (reference template state s).1 s)
]

unfoldable pub interpolate : Text → RunState → Result InterpolateError Text
unfolding interpolate_skip
interpolate template state = interpolate_skip template state 0 template
