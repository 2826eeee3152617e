-- ===== src/Base/Text/Lines.antt =====
-- `<[u8]>::split` on one byte, and `str::lines`.
use Prim.Native.Nat.{ℕ}
use mathlib.Core.Path.{◌≡◌}
use mathlib.Core.Bool.{false}
use mathlib.Core.List.{List, [], ◌∷◌, ◌++◌}
use native.Mathlib.Omega.{arith}
use shellflow.Base.Tests.{◌==◌, if◌then◌else◌}
use shellflow.Base.Text.Search.{contains}

-- The byte stands in front of the first part.
abbrev pub put_first : ℕ → List (List ℕ) → List (List ℕ)
put_first c [] = (c ∷ []) ∷ []
put_first c (part ∷ parts) = (c ∷ part) ∷ parts

unfoldable pub split_byte : ℕ → List ℕ → List (List ℕ)
split_byte b [] = [] ∷ []
split_byte b (c ∷ s) =
    let parts = split_byte b s in if c == b then [] ∷ parts else put_first c parts

-- `strip_suffix` of one byte, or the text itself.
unfoldable pub strip_last : ℕ → List ℕ → List ℕ
strip_last b [] = []
strip_last b (c ∷ []) = if c == b then [] else c ∷ []
strip_last b (c ∷ d ∷ s) = c ∷ strip_last b (d ∷ s)

-- A line feed ends a line, with a carriage return in front of it; what follows the last one is a
-- line if it is not empty.
unfoldable pub lines_of : List (List ℕ) → List (List ℕ)
unfolding strip_last
lines_of [] = []
lines_of ([] ∷ []) = []
lines_of ((c ∷ s) ∷ []) = (c ∷ s) ∷ []
lines_of (part ∷ part' ∷ parts) = strip_last b'\r' part ∷ lines_of (part' ∷ parts)

-- `str::lines`
unfoldable pub lines : List ℕ → List (List ℕ)
unfolding split_byte lines_of
lines s = lines_of (split_byte b'\n' s)

pub split_byte-append :
    (b : ℕ) (part rest : List ℕ)
    → contains (b ∷ []) part ≡ false
    → split_byte b (part ++ (b ∷ rest)) ≡ part ∷ split_byte b rest
unfolding split_byte contains
split_byte-append b [] rest h = ground arith
split_byte-append b (c ∷ part) rest h = ground (arith, split_byte-append b part rest)
