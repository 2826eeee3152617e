-- ===== src/Base/Text/Number.antt =====
-- `str::parse` into an unsigned integer of any width, and `from_str_radix` for octal digits that
-- were tested before.
use shellflow.Base.{
  ℕ, ◌+◌, ◌-◌, ◌*◌, ◌≤◌, List, [], ◌∷◌, Option, none, some, ◌==◌, leb, if◌then◌else◌, ◌≡◌, inl, inr,
  arith, Bool-cases,
}
use shellflow.Base.Text.Decimal.{value_of}

abbrev fits : ℕ → Option ℕ → Option ℕ
fits limit none = none
fits limit (some n) = if leb n limit then some n else none

abbrev unsigned_to : ℕ → List ℕ → Option ℕ
unsigned_to limit [] = none
unsigned_to limit (c ∷ s) = fits limit (value_of 0 (c ∷ s))

-- An optional `+`, then digits of a number that is at most `limit`.
unfoldable pub parse_uint : ℕ → List ℕ → Option ℕ
unfolding value_of
parse_uint limit [] = none
parse_uint limit (c ∷ s) = if c == b'+' then unsigned_to limit s else unsigned_to limit (c ∷ s)

-- `u64::MAX` and `u32::MAX`
abbrev pub max_u64 : ℕ
max_u64 = 18446744073709551615

abbrev pub max_u32 : ℕ
max_u32 = 4294967295

-- The value of octal digits, from a value that was read already.
unfoldable pub octal_value : ℕ → List ℕ → ℕ
octal_value n [] = n
octal_value n (c ∷ s) = octal_value (n * 8 + (c - b'0')) s

fits_bound : (limit : ℕ) (o : Option ℕ) (n : ℕ) → fits limit o ≡ some n → n ≤ limit
fits_bound limit none n h = cc h
fits_bound limit (some m) n h = ground arith

unsigned_to_bound : (limit : ℕ) (s : List ℕ) (n : ℕ) → unsigned_to limit s ≡ some n → n ≤ limit
unsigned_to_bound limit [] n h = cc h
unsigned_to_bound limit (c ∷ s) n h = fits_bound limit (value_of 0 (c ∷ s)) n h

-- What is read fits.
pub parse_uint_bound : (limit : ℕ) (s : List ℕ) (n : ℕ) → parse_uint limit s ≡ some n → n ≤ limit
unfolding parse_uint
parse_uint_bound limit [] n h = cc h
parse_uint_bound limit (c ∷ s) n h = elim (Bool-cases (c == b'+')) [
  | inl e ↦ unsigned_to_bound limit s n (rw (e, parse_uint) at h)
  | inr e ↦ unsigned_to_bound limit (c ∷ s) n (rw (e, parse_uint) at h)
]
