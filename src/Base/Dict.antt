-- ===== src/Base/Dict.antt =====
-- A `BTreeMap` or `HashMap` with text keys, as a list of entries with different keys.
use Prim.Native.Nat.{ℕ}
use mathlib.Core.Path.{◌≡◌, refl}
use mathlib.Core.Bool.{Bool}
use mathlib.Core.List.{List, [], ◌∷◌}
use mathlib.Core.Option.{Option, none, some}
use native.Mathlib.Omega.{arith}
use shellflow.Base.Tests.{if◌then◌else◌, is_some}
use shellflow.Base.Text.{eq_text, eq_text_iff}

module _ {ℓ} {V : Type ℓ} where
  unfoldable pub lookup : List ℕ → List (List ℕ × V) → Option V
  unfolding eq_text
  lookup k [] = none
  lookup k ((j, v) ∷ m) = let rest = lookup k m in if eq_text j k then some v else rest

  unfoldable pub insert : List ℕ → V → List (List ℕ × V) → List (List ℕ × V)
  unfolding eq_text
  insert k v [] = (k, v) ∷ []
  insert k v ((j, w) ∷ m) =
      let rest = (j, w) ∷ insert k v m in if eq_text j k then (j, v) ∷ m else rest

  unfoldable pub contains_key : List ℕ → List (List ℕ × V) → Bool
  unfolding lookup
  contains_key k m = is_some (lookup k m)

  pub lookup-nil : (k : List ℕ) → ◌≡◌ {A = Option V} (lookup k []) none
  unfolding lookup
  lookup-nil k = refl

  pub lookup-insert :
      (k j : List ℕ) (v : V) (m : List (List ℕ × V))
      → lookup j (insert k v m) ≡ (if eq_text k j then some v else lookup j m)
  unfolding lookup insert
  lookup-insert k j v [] = refl
  lookup-insert k j v ((i, w) ∷ m) =
      ground (arith, eq_text_iff k j, eq_text_iff i k, eq_text_iff i j, lookup-insert k j v m)
