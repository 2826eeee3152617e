-- ===== src/Base/Text/White.antt =====
-- `str::trim`, which strips the characters with Unicode's `White_Space` property, here in UTF-8.
use Prim.Native.Nat.{ℕ, zero, suc}
use mathlib.Core.Bool.{Bool, ◌&&◌, ◌||◌}
use mathlib.Core.List.{List, [], ◌∷◌, reverse}
use shellflow.Base.Tests.{◌==◌, if◌then◌else◌, between}

-- The one-byte white space: tab to carriage return, and the space.
unfoldable pub is_white : ℕ → Bool
is_white c = between 9 13 c || c == b' '

-- U+0085 and U+00A0
abbrev white2 : ℕ → ℕ → Bool
white2 a b = a == 0xC2 && (b == 0x85 || b == 0xA0)

-- U+1680, U+2000 to U+200A, U+2028, U+2029, U+202F, U+205F, U+3000
abbrev white3 : ℕ → ℕ → ℕ → Bool
white3 a b c =
    a == 0xE1 && b == 0x9A && c == 0x80
    || a == 0xE2
      && (b == 0x80 && (between 0x80 0x8A c || c == 0xA8 || c == 0xA9 || c == 0xAF)
          || b == 0x81 && c == 0x9F)
    || a == 0xE3 && b == 0x80 && c == 0x80

-- The bytes of the white space character at the head, or 0.
unfoldable pub white_len : List ℕ → ℕ
unfolding is_white
white_len [] = 0
white_len (a ∷ []) = if is_white a then 1 else 0
white_len (a ∷ b ∷ []) = if is_white a then 1 else if white2 a b then 2 else 0
white_len (a ∷ b ∷ c ∷ _) =
    if is_white a then 1 else if white2 a b then 2 else if white3 a b c then 3 else 0

-- The number counts the bytes of a white space character that are still to be skipped.
unfoldable pub trim_skip : ℕ → List ℕ → List ℕ
unfolding white_len
trim_skip k [] = []
trim_skip (suc k) (c ∷ s) = trim_skip k s
trim_skip zero (c ∷ s) = elim (white_len (c ∷ s)) [ zero ↦ c ∷ s | suc k ↦ trim_skip k s ]

unfoldable pub trim_start : List ℕ → List ℕ
unfolding trim_skip
trim_start s = trim_skip 0 s

-- The same from the end, on the reversed text.
unfoldable pub white_len_rev : List ℕ → ℕ
unfolding is_white
white_len_rev [] = 0
white_len_rev (a ∷ []) = if is_white a then 1 else 0
white_len_rev (b ∷ a ∷ []) = if is_white b then 1 else if white2 a b then 2 else 0
white_len_rev (c ∷ b ∷ a ∷ _) =
    if is_white c then 1 else if white2 b c then 2 else if white3 a b c then 3 else 0

unfoldable pub trim_skip_rev : ℕ → List ℕ → List ℕ
unfolding white_len_rev
trim_skip_rev k [] = []
trim_skip_rev (suc k) (c ∷ s) = trim_skip_rev k s
trim_skip_rev zero (c ∷ s) = elim (white_len_rev (c ∷ s)) [
  | zero ↦ c ∷ s
  | suc k ↦ trim_skip_rev k s
]

unfoldable pub trim_end : List ℕ → List ℕ
unfolding trim_skip_rev
trim_end s = reverse (trim_skip_rev 0 (reverse s))

unfoldable pub trim : List ℕ → List ℕ
unfolding trim_start trim_end
trim s = trim_end (trim_start s)
