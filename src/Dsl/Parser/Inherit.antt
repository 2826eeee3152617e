-- ===== src/Dsl/Parser/Inherit.antt =====
-- crates/shellflow-dsl/src/parser.rs: targets that may be left out, and the loops over tokens of
-- which one may be a target.
use shellflow.Base.{ℕ, List, [], ◌∷◌, Option, none, some, Text, if◌then◌else◌, is_empty}
use shellflow.Base.Text.{codes, strip_prefix}
use shellflow.Base.Result.{Result, ok, err, ◌>>=◌, ok_or}
use shellflow.Dsl.Error.{ParseError, invalid_directive}
use shellflow.Dsl.Target.{normalized}
use shellflow.Dsl.Parser.Flags.{take_target}
use shellflow.Dsl.Parser.State.{State}

unfoldable pub resolve_assert_target : Option Text → Text → ℕ → State → Result ParseError Text
unfolding normalized
resolve_assert_target none directive line s =
    ok_or
      (invalid_directive line directive
        (codes "missing target (no previous step to inherit it from)"))
      s.last_target
resolve_assert_target (some target) directive line s =
    if is_empty (normalized target)
    then err (invalid_directive line directive (codes "missing target"))
    else ok (normalized target)

-- `positional.first()` and `positional.get(1)`, as the target of a directive that may inherit it.
unfoldable pub first_target : List Text → Option Text
unfolding normalized
first_target [] = none
first_target (word ∷ words) = some (normalized word)

-- A token behind `@` is the target; the others go to `word`.
unfoldable pub target_or :
    {A : Type 0}
    → Text
    → ℕ
    → (A → Text → Result ParseError A)
    → Option Text × A
    → Text
    → Result ParseError (Option Text × A)
unfolding strip_prefix take_target
target_or directive line word (target, a) token = elim (strip_prefix (codes "@") token) [
  | some alias ↦ take_target directive line target alias >>= λ target'. ok (target', a)
  | none ↦ word a token >>= λ a'. ok (target, a')
]
