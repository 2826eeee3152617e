-- ===== src/Base/Yields.antt =====
-- What a result holds where it is a value: the rules for the operations that compute results.
use mathlib.Core.Path.{◌≡◌, refl, subst}
use mathlib.Core.Bool.{Bool, true, false}
use mathlib.Core.List.{List, [], ◌∷◌}
use mathlib.Core.Option.{Option, none, some}
use shellflow.Base.Tests.{if◌then◌else◌}
use shellflow.Base.Result.{Result, ok, err, ◌>>=◌, ok_or, ensure, try_fold}

-- The value has the property, if there is one.
abbrev Holds : {E A : Type 0} → (A → Type 0) → Result E A → Type 0
Holds P (ok a) = P a
Holds P (err e) = Unit

-- As a type of its own, so that the property is inferred from it.
pub record Yields {E A : Type 0} (P : A → Type 0) (m : Result E A) : Type 0 where
  pub holds : Holds P m

module _ {E : Type 0} {A : Type 0} {P : A → Type 0} where
  pub Yields-ok : (a : A) → P a → Yields {E = E} P (ok a)
  Yields-ok a p = record { holds = p }

  pub Yields-err : (e : E) → Yields {E = E} P (err e)
  Yields-err e = record { holds = tt }

  pub Yields-value : (m : Result E A) (a : A) → Yields P m → m ≡ ok a → P a
  Yields-value m a h e = (subst (Yields P) e h).holds

  pub Yields-ok_or : (e : E) (o : Option A) → ((a : A) → o ≡ some a → P a) → Yields P (ok_or e o)
  unfolding ok_or
  Yields-ok_or e none h = record { holds = tt }
  Yields-ok_or e (some a) h = record { holds = h a refl }

  pub Yields-if :
      (b : Bool) (m n : Result E A)
      → (b ≡ true → Yields P m)
      → (b ≡ false → Yields P n)
      → Yields P (if b then m else n)
  Yields-if true m n hm hn = hm refl
  Yields-if false m n hm hn = hn refl

  pub Yields-either :
      (b : Bool) {m n : Result E A} → Yields P m → Yields P n → Yields P (if b then m else n)
  Yields-either true hm hn = hm
  Yields-either false hm hn = hn

  pub Yields-map :
      {Q : A → Type 0} (m : Result E A) → Yields P m → ((a : A) → P a → Q a) → Yields Q m
  Yields-map (ok a) h f = record { holds = f a h.holds }
  Yields-map (err e) h f = record { holds = tt }

pub Yields-any : {E A : Type 0} (m : Result E A) → Yields (λ _. Unit) m
Yields-any (ok a) = record { holds = tt }
Yields-any (err e) = record { holds = tt }

pub Yields-ensure : {E : Type 0} (b : Bool) (e : E) → Yields (λ _. b ≡ true) (ensure b e)
unfolding ensure
Yields-ensure true e = record { holds = refl }
Yields-ensure false e = record { holds = tt }

-- Behind a first computation of which nothing is asked.
pub Yields-then :
    {E A B : Type 0} {Q : B → Type 0} (m : Result E A) {f : A → Result E B}
    → ((a : A) → Yields Q (f a))
    → Yields Q (m >>= f)
unfolding ◌>>=◌
Yields-then (ok a) k = k a
Yields-then (err e) k = record { holds = tt }

pub Yields-bind :
    {E A B : Type 0} {P : A → Type 0} {Q : B → Type 0} {m : Result E A} {f : A → Result E B}
    → Yields P m
    → ((a : A) → P a → Yields Q (f a))
    → Yields Q (m >>= f)
unfolding ◌>>=◌
Yields-bind {m = ok a} h k = k a h.holds
Yields-bind {m = err e} h k = record { holds = tt }

-- An invariant of a loop.
pub Yields-try_fold :
    {E A B : Type 0} {P : B → Type 0} (step : B → A → Result E B) (b : B) (xs : List A)
    → ((b : B) (x : A) → P b → Yields P (step b x))
    → P b
    → Yields P (try_fold step b xs)
unfolding try_fold
Yields-try_fold step b [] h p = Yields-ok b p
Yields-try_fold step b (x ∷ xs) h p =
    Yields-bind (h b x p) (λ b' p'. Yields-try_fold step b' xs h p')
