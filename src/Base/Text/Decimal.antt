-- ===== src/Base/Text/Decimal.antt =====
-- `u16::to_string` and its relatives, and `str::parse::<u16>`.
use Prim.Native.Nat.{ℕ, zero, suc, ◌+◌, ◌-◌, ◌*◌, ◌/◌, ◌%◌, ◌≤◌, ◌<◌}
use mathlib.Core.Path.{◌≡◌, refl, ap, ◌∙◌}
use mathlib.Core.Bool.{true, false}
use mathlib.Core.List.{List, [], ◌∷◌}
use mathlib.Core.Option.{Option, none, some}
use native.Mathlib.Omega.{arith}
use mathlib.Core.Logic.{◌↔◌, inl, inr}
use shellflow.Base.Lists.{all, is_empty}
use shellflow.Base.Tests.{
  Bool-cases, Option-cases, ◌==◌, ltb, leb, if◌then◌else◌, between, if_intro,
}

-- The digits in front of `rest`, on fuel.
unfoldable pub digits : ℕ → ℕ → List ℕ → List ℕ
digits zero n rest = rest
digits (suc fuel) n rest =
    let more = digits fuel (n / 10) ((b'0' + n % 10) ∷ rest) in
    if ltb n 10 then (b'0' + n) ∷ rest else more

-- A number below 2 ^ 64 has at most 20 digits.
unfoldable pub decimal : ℕ → List ℕ
unfolding digits
decimal n = digits 20 n []

-- The value of the digits, from a value that was read already; none for any other byte.
unfoldable pub value_of : ℕ → List ℕ → Option ℕ
value_of n [] = some n
value_of n (c ∷ s) =
    let rest = value_of (n * 10 + (c - b'0')) s in if between b'0' b'9' c then rest else none

abbrev unsigned : List ℕ → Option ℕ
unsigned [] = none
unsigned (c ∷ s) = elim (value_of 0 (c ∷ s)) [
  | none ↦ none
  | some n ↦ if leb n 65535 then some n else none
]

-- An optional `+`, then digits of a number that fits.
unfoldable pub parse_u16 : List ℕ → Option ℕ
unfolding value_of
parse_u16 [] = none
parse_u16 (c ∷ s) = if c == b'+' then unsigned s else unsigned (c ∷ s)

abbrev pow10 : ℕ → ℕ
pow10 zero = 1
pow10 (suc fuel) = 10 * pow10 fuel

leb_iff : (a b : ℕ) → (leb a b ≡ true) ↔ (a ≤ b)
leb_iff a b = ground arith

digit_test : (n : ℕ) → between b'0' b'9' (b'0' + n % 10) ≡ true
digit_test n = ground arith

value_of-digit :
    (n : ℕ) (rest : List ℕ) → value_of (n / 10) ((b'0' + n % 10) ∷ rest) ≡ value_of n rest
unfolding value_of
value_of-digit n rest = rw (digit_test n) (ap (λ m. value_of m rest) (omega arith))

small : (n : ℕ) (rest : List ℕ) → ltb n 10 ≡ true → value_of 0 ((b'0' + n) ∷ rest) ≡ value_of n rest
unfolding value_of
small n rest e = ground arith

-- Reading goes on where the digits end.
value_of-digits :
    (fuel n : ℕ) (rest : List ℕ)
    → n < pow10 fuel
    → value_of 0 (digits fuel n rest) ≡ value_of n rest
unfolding digits
value_of-digits zero n rest h = ap (λ m. value_of m rest) (omega arith)
value_of-digits (suc fuel) n rest h =
    if_intro (λ s. value_of 0 s ≡ value_of n rest) (ltb n 10) _ _ (λ e. small n rest e)
      (λ e.
        value_of-digits fuel (n / 10) ((b'0' + n % 10) ∷ rest) (omega arith)
        ∙ value_of-digit n rest)

value_of-decimal : (n : ℕ) → n ≤ 65535 → value_of 0 (decimal n) ≡ some n
unfolding decimal value_of
value_of-decimal n h = value_of-digits 20 n [] (omega arith)

is_digit_ones : (n : ℕ) → ltb n 10 ≡ true → between b'0' b'9' (b'0' + n) ≡ true
is_digit_ones n h = ground arith

all-digits :
    (fuel n : ℕ) (rest : List ℕ)
    → all (between b'0' b'9') rest ≡ true
    → all (between b'0' b'9') (digits fuel n rest) ≡ true
unfolding digits
all-digits zero n rest h = h
all-digits (suc fuel) n rest h =
    if_intro (λ s. all (between b'0' b'9') s ≡ true) (ltb n 10) _ _ (λ e. rw (is_digit_ones n e) h)
      (λ e. all-digits fuel (n / 10) ((b'0' + n % 10) ∷ rest) (rw (digit_test n) h))

pub all-decimal : (n : ℕ) → all (between b'0' b'9') (decimal n) ≡ true
unfolding decimal
all-decimal n = all-digits 20 n [] refl

digits-is_empty : (fuel n c : ℕ) (rest : List ℕ) → is_empty (digits fuel n (c ∷ rest)) ≡ false
unfolding digits
digits-is_empty zero n c rest = refl
digits-is_empty (suc fuel) n c rest =
    if_intro (λ (s : List ℕ). is_empty s ≡ false) (ltb n 10) _ _ (λ e. refl)
      (λ e. digits-is_empty fuel (n / 10) (b'0' + n % 10) (c ∷ rest))

decimal-is_empty : (n : ℕ) → is_empty (decimal n) ≡ false
unfolding decimal digits
decimal-is_empty n =
    if_intro (λ (s : List ℕ). is_empty s ≡ false) (ltb n 10) _ _ (λ e. refl)
      (λ e. digits-is_empty 19 (n / 10) (b'0' + n % 10) [])

unsigned_digits :
    (c : ℕ) (s : List ℕ) (n : ℕ)
    → value_of 0 (c ∷ s) ≡ some n
    → n ≤ 65535
    → unsigned (c ∷ s) ≡ some n
unsigned_digits c s n v h = rw (v, unsigned) (rw ((leb_iff n 65535).1 h) refl)

parse_u16_digits :
    (s : List ℕ) (n : ℕ)
    → is_empty s ≡ false
    → all (between b'0' b'9') s ≡ true
    → value_of 0 s ≡ some n
    → n ≤ 65535
    → parse_u16 s ≡ some n
unfolding parse_u16
parse_u16_digits [] n e a v h = absurd (cc e)
parse_u16_digits (c ∷ s) n e a v h = elim (Bool-cases (c == b'+')) [
  | inl k ↦ absurd (ground (arith, a, k))
  | inr k ↦ rw k (unsigned_digits c s n v h)
]

-- A port is read back.
pub parse_u16-decimal : (n : ℕ) → n ≤ 65535 → parse_u16 (decimal n) ≡ some n
parse_u16-decimal n h =
    parse_u16_digits (decimal n) n (decimal-is_empty n) (all-decimal n) (value_of-decimal n h) h

fitting : (m n : ℕ) → (if leb m 65535 then some m else none) ≡ some n → n ≤ 65535
fitting m n h = ground arith

unsigned_bound : (s : List ℕ) (n : ℕ) → unsigned s ≡ some n → n ≤ 65535
unsigned_bound [] n h = cc h
unsigned_bound (c ∷ s) n h = elim (Option-cases (value_of 0 (c ∷ s))) [
  | inl e ↦ absurd (cc (rw (e, unsigned) at h))
  | inr (m, e) ↦ fitting m n (rw (e, unsigned) at h)
]

-- What is read fits into 16 bits.
pub parse_u16_bound : (s : List ℕ) (n : ℕ) → parse_u16 s ≡ some n → n ≤ 65535
unfolding parse_u16
parse_u16_bound [] n h = cc h
parse_u16_bound (c ∷ s) n h = elim (Bool-cases (c == b'+')) [
  | inl e ↦ unsigned_bound s n (rw (e, parse_u16) at h)
  | inr e ↦ unsigned_bound (c ∷ s) n (rw (e, parse_u16) at h)
]
