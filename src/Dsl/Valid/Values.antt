-- ===== src/Dsl/Valid/Values.antt =====
-- The readers of single arguments: numbers, modes, unit names and lists of words.
use shellflow.Base.{
  ℕ, zero, suc, ◌≤◌, true, not, List, Option, none, some, Text, ◌≡◌, refl, arith, leb, all, between,
  ◌||◌, Option-cases, inl, inr, is_empty,
}
use shellflow.Base.Text.{codes, strip_prefix, trim}
use shellflow.Base.Text.Number.{parse_uint, parse_uint_bound, max_u64, max_u32, octal_value}
use shellflow.Base.Result.{Result, try_fold}
use shellflow.Base.Yields.{
  Yields, Yields-ok, Yields-err, Yields-if, Yields-then, Yields-bind, Yields-try_fold,
}
use shellflow.Shell.{is_valid_unit_name, normalize_unit}
use shellflow.Dsl.Error.{ParseError}
use shellflow.Dsl.Parser.Flags.{Flag, positive, parse_secs, parse_mode, mode_digits}
use shellflow.Dsl.Parser.Units.{safe_unit, timeout_value, unit_and_target}
use shellflow.Dsl.Parser.Store.{service_name}
use shellflow.Dsl.Parser.Inherit.{target_or}
use shellflow.Dsl.Valid.{IsPositive, IsUnit, IsFilled}

pub not_empty : {A : Type 0} (xs : List A) → not (is_empty xs) ≡ true → IsFilled xs
not_empty xs h = ground arith

pub positive-IsPositive :
    (limit : ℕ) (e e' : ParseError) (o : Option ℕ)
    → ((n : ℕ) → o ≡ some n → n ≤ limit)
    → Yields (IsPositive limit) (positive e e' o)
unfolding positive
positive-IsPositive limit e e' none h = Yields-err e
positive-IsPositive limit e e' (some zero) h = Yields-err e'
positive-IsPositive limit e e' (some (suc n)) h = Yields-ok (suc n) (omega arith, h (suc n) refl)

-- Seconds are a number from 1 to the largest of 64 bits.
parse_secs-IsPositive :
    (raw directive : Text) (line : ℕ) → Yields (IsPositive max_u64) (parse_secs raw directive line)
unfolding parse_secs
parse_secs-IsPositive raw directive line =
    positive-IsPositive max_u64 _ _ (parse_uint max_u64 raw) (parse_uint_bound max_u64 raw)

leb_le : (a b : ℕ) → leb a b ≡ true → a ≤ b
leb_le a b h = ground arith

pub parse_mode_bound :
    (raw directive : Text) (line : ℕ)
    → Yields (λ mode. mode ≤ max_u32) (parse_mode raw directive line)
unfolding parse_mode
parse_mode_bound raw directive line =
    let digits = mode_digits (trim raw) in
    Yields-if (is_empty digits || not (all (between b'0' b'7') digits)) _ _ (λ _. Yields-err _)
      (λ _.
        Yields-if (leb (octal_value 0 digits) max_u32) _ _
          (λ e. Yields-ok (octal_value 0 digits) (leb_le (octal_value 0 digits) max_u32 e))
          (λ _. Yields-err _))

pub safe_unit-IsUnit :
    (directive : Text) (line : ℕ) (raw : Text) → Yields IsUnit (safe_unit directive line raw)
unfolding safe_unit
safe_unit-IsUnit directive line raw =
    Yields-if (is_valid_unit_name (normalize_unit raw)) _ _ (λ e. Yields-ok (normalize_unit raw) e)
      (λ _. Yields-err _)

pub service_name-IsUnit :
    (directive : Text) (line : ℕ) (raw : Text) → Yields IsUnit (service_name directive line raw)
unfolding service_name
service_name-IsUnit directive line raw =
    Yields-if (is_valid_unit_name raw) _ _ (λ e. Yields-ok raw e) (λ _. Yields-err _)

pub timeout_value-IsPositive :
    (directive : Text) (line : ℕ) (flag : Flag)
    → Yields (IsPositive max_u64) (timeout_value directive line flag)
unfolding timeout_value
timeout_value-IsPositive directive line (flag, value) =
    Yields-then _ (λ raw. parse_secs-IsPositive raw directive line)

pub unit_and_target-IsUnit :
    (directive usage : Text) (line : ℕ) (positional : List Text)
    → Yields (λ pair. IsUnit pair.0) (unit_and_target directive usage line positional)
unfolding unit_and_target
unit_and_target-IsUnit directive usage line positional = Yields-then _ (λ (raw_unit, raw_target).
    Yields-bind (safe_unit-IsUnit directive line raw_unit)
      (λ unit h. Yields-then _ (λ target. Yields-ok _ h)))

target_or_case :
    {A : Type 0} {P : A → Type 0} (directive : Text) (line : ℕ)
    (word : A → Text → Result ParseError A) (a : A) (target : Option Text) (token : Text)
    → Yields P (word a token)
    → P a
    → Yields (λ found. P found.1) (target_or directive line word (target, a) token)
unfolding target_or
target_or_case directive line word a target token h p =
    elim (Option-cases (strip_prefix (codes "@") token)) [
      | inl e ↦ rw e (Yields-bind h (λ a' q. Yields-ok _ q))
      | inr (alias, e) ↦ rw e (Yields-then _ (λ target'. Yields-ok _ p))
    ]

-- The loop over tokens keeps what each of its words keeps.
pub target_or_keeps :
    {A : Type 0} {P : A → Type 0} (directive : Text) (line : ℕ)
    (word : A → Text → Result ParseError A) (tokens : List Text)
    → ((a : A) (token : Text) → P a → Yields P (word a token))
    → (start : Option Text × A) → P start.1
    → Yields (λ found. P found.1) (try_fold (target_or directive line word) start tokens)
target_or_keeps directive line word tokens h start p =
    Yields-try_fold _ _ tokens
      (λ (target, a) token q. target_or_case directive line word a target token (h a token q) q) p
