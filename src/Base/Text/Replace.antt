-- ===== src/Base/Text/Replace.antt =====
-- What `replace` does to the texts that occur in a text, for a replacement that the searched text
-- shares no byte with.
use mathlib.Core.List.{List, [], ◌∷◌}
use mathlib.Core.Bool.{true, false}
use mathlib.Core.Path.{◌≡◌, refl}
use mathlib.Core.Logic.{inl, inr, ◌≢◌}
use Prim.Native.Nat.{ℕ, zero, suc, ◌-◌}
use native.Mathlib.Omega.{arith}
use shellflow.Base.Tests.{Bool-cases}
use shellflow.Base.Lists.{All, length}
use shellflow.Base.Text.Search.{starts_with, contains, replace_skip, replace}

-- The byte `b` is not in the text.
abbrev pub Lacks : ℕ → List ℕ → Type 0
Lacks b t = All (λ c. c ≢ b) t

-- The shortest text that `replace` writes here: three times the same byte.
abbrev pub triple : ℕ → List ℕ
triple b = b ∷ b ∷ b ∷ []

module _ (p : List ℕ) (b : ℕ) where
  starts_with-replace_skip :
      (t s : List ℕ)
      → Lacks b t
      → starts_with t (replace_skip p (triple b) 0 s) ≡ true
      → starts_with t s ≡ true
  unfolding starts_with replace_skip
  starts_with-replace_skip [] s l h = ground arith
  starts_with-replace_skip (a ∷ t) [] l h = ground arith
  starts_with-replace_skip (a ∷ t) (c ∷ s) (l, ls) h = elim (Bool-cases (starts_with p (c ∷ s))) [
    | inl e ↦ ground arith
    | inr e ↦ ground (arith, starts_with-replace_skip t s ls)
  ]

  -- A text that lacks `b` occurs after the replacement only if it occurred before.
  contains-replace_skip :
      (t s : List ℕ) (k : ℕ)
      → t ≢ []
      → Lacks b t
      → contains t (replace_skip p (triple b) k s) ≡ true
      → contains t s ≡ true
  unfolding contains replace_skip starts_with
  contains-replace_skip [] s k ne l h = absurd (ne refl)
  contains-replace_skip (a ∷ t) [] k ne l h = ground arith
  contains-replace_skip (a ∷ t) (c ∷ s) (suc k) ne l h =
      ground (arith, contains-replace_skip (a ∷ t) s k ne l)
  contains-replace_skip (a ∷ t) (c ∷ s) zero ne l h = elim (Bool-cases (starts_with p (c ∷ s))) [
    | inl e ↦ ground (arith, contains-replace_skip (a ∷ t) s (length p - 1) ne l)
    | inr e ↦
        ground (arith, contains-replace_skip (a ∷ t) s 0 ne l, starts_with-replace_skip t s l.1)
  ]

-- The replaced text itself no longer occurs, if it lacks `b`.
module _ (b a : ℕ) (q : List ℕ) where
  contains-replace_skip_self :
      (s : List ℕ) (k : ℕ)
      → Lacks b (a ∷ q)
      → contains (a ∷ q) (replace_skip (a ∷ q) (triple b) k s) ≡ false
  unfolding contains replace_skip starts_with
  contains-replace_skip_self [] k l = refl
  contains-replace_skip_self (c ∷ s) (suc k) l = contains-replace_skip_self s k l
  contains-replace_skip_self (c ∷ s) zero l = elim (Bool-cases (starts_with (a ∷ q) (c ∷ s))) [
    | inl e ↦ ground (arith, contains-replace_skip_self s (length q) l)
    | inr e ↦
        ground (arith, contains-replace_skip_self s 0 l, starts_with-replace_skip (a ∷ q) b q s l.1)
  ]

module _ (b : ℕ) where
  pub contains-replace_self :
      (p s : List ℕ) → p ≢ [] → Lacks b p → contains p (replace p (triple b) s) ≡ false
  unfolding replace
  contains-replace_self [] s ne l = absurd (ne refl)
  contains-replace_self (a ∷ q) s ne l = contains-replace_skip_self b a q s 0 l

  pub contains-replace_other :
      (p t s : List ℕ)
      → t ≢ []
      → Lacks b t
      → contains t s ≡ false
      → contains t (replace p (triple b) s) ≡ false
  unfolding replace
  contains-replace_other p t s ne l h =
      elim (Bool-cases (contains t (replace_skip p (triple b) 0 s))) [
        | inl e ↦ cc (h, contains-replace_skip p b t s 0 ne l e)
        | inr e ↦ e
      ]
