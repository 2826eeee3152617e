-- ===== src/Base/Text/Utf8.antt =====
-- `std::str::from_utf8`: whether bytes are well-formed UTF-8 (Unicode's table 3-7).
use Prim.Native.Nat.{ℕ, zero, suc}
use mathlib.Core.Path.{◌≡◌, refl}
use mathlib.Core.Bool.{Bool, true, false, ◌&&◌}
use mathlib.Core.List.{List, [], ◌∷◌}
use mathlib.Core.Option.{Option, none, some}
use shellflow.Base.Tests.{◌==◌, ltb, if◌then◌else◌, between}

-- What a first byte announces: the bytes that follow, and the range of the first of them.
abbrev lead : ℕ → Option (ℕ × ℕ × ℕ)
lead c =
    if ltb c 0x80
    then some (0, 0x80, 0xBF)
    else if between 0xC2 0xDF c
    then some (1, 0x80, 0xBF)
    else if c == 0xE0
    then some (2, 0xA0, 0xBF)
    else if c == 0xED
    then some (2, 0x80, 0x9F)
    else if between 0xE1 0xEF c
    then some (2, 0x80, 0xBF)
    else if c == 0xF0
    then some (3, 0x90, 0xBF)
    else if between 0xF1 0xF3 c
    then some (3, 0x80, 0xBF)
    else if c == 0xF4
    then some (3, 0x80, 0x8F)
    else none

unfoldable pub is_utf8_from : ℕ → ℕ → ℕ → List ℕ → Bool
is_utf8_from zero lo hi [] = true
is_utf8_from (suc k) lo hi [] = false
is_utf8_from (suc k) lo hi (c ∷ s) = between lo hi c && is_utf8_from k 0x80 0xBF s
is_utf8_from zero lo hi (c ∷ s) = elim (lead c) [
  | none ↦ false
  | some (k, lo', hi') ↦ is_utf8_from k lo' hi' s
]

unfoldable pub is_utf8 : List ℕ → Bool
unfolding is_utf8_from
is_utf8 s = is_utf8_from 0 0 0 s

lead_ascii : (c : ℕ) → ltb c 0x80 ≡ true → lead c ≡ some (0, 0x80, 0xBF)
lead_ascii c h = rw h refl

-- A byte below 0x80 is a character by itself.
pub is_utf8_from_ascii :
    (lo hi c : ℕ) (s : List ℕ)
    → ltb c 0x80 ≡ true
    → is_utf8_from 0 lo hi (c ∷ s) ≡ is_utf8_from 0 0x80 0xBF s
unfolding is_utf8_from
is_utf8_from_ascii lo hi c s h = rw (lead_ascii c h, is_utf8_from) refl
