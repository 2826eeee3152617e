-- ===== src/Host/Diff/Shared.antt =====
-- The lines that `diff_ops` leaves unchanged against every common subsequence of the two texts.
use Prim.Native.Nat.{max}
use shellflow.Base.{
  ℕ, ◌+◌, ◌*◌, ◌≤◌, true, false, List, [], ◌∷◌, Text, ◌≡◌, ◌⊎◌, inl, inr, sym, ◌∙◌, arith, length,
  Bool-cases,
}
use shellflow.Base.Text.{eq_text, eq_text_iff}
use shellflow.Host.Diff.{max_cells, diff_ops}
use shellflow.Host.Diff.Longest.{unchanged, unchanged-diff_ops}
use shellflow.Host.Diff.Table.{lcs, lcs_equal, lcs_other}

-- A list is a subsequence of another.
abbrev pub Among : List Text → List Text → Type 0
Among [] xs = Unit
Among (a ∷ c) [] = false ≡ true
Among (a ∷ c) (x ∷ xs) = ((a ≡ x) × Among c xs) ⊎ Among (a ∷ c) xs

Among-skip : (c : List Text) (x : Text) (xs : List Text) → Among c xs → Among c (x ∷ xs)
Among-skip [] x xs h = tt
Among-skip (a ∷ c) x xs h = inr h

Among-tail : (a : Text) (c xs : List Text) → Among (a ∷ c) xs → Among c xs
Among-tail a c [] h = absurd (cc h)
Among-tail a c (x ∷ xs) (inl (e, h)) = Among-skip c x xs h
Among-tail a c (x ∷ xs) (inr h) = Among-skip c x xs (Among-tail a c xs h)

Among-behind :
    (a : Text) (c : List Text) (x : Text) (xs : List Text) → Among (a ∷ c) (x ∷ xs) → Among c xs
Among-behind a c x xs (inl (e, h)) = h
Among-behind a c x xs (inr h) = Among-tail a c xs h

bound_left : (n a b : ℕ) → n ≤ a → n ≤ max a b
bound_left n a b h = omega arith

bound_right : (n a b : ℕ) → n ≤ b → n ≤ max a b
bound_right n a b h = omega arith

length-Among : (c xs ys : List Text) → Among c xs → Among c ys → length c ≤ lcs xs ys
length-Among [] xs ys p q = omega arith
length-Among (a ∷ c) [] ys p q = absurd (cc p)
length-Among (a ∷ c) (x ∷ xs) [] p q = absurd (cc q)
length-Among (a ∷ c) (x ∷ xs) (y ∷ ys) p q = elim (Bool-cases (eq_text x y)) [
  | inl e ↦
      let h = length-Among c xs ys (Among-behind a c x xs p) (Among-behind a c y ys q) in
      rw (lcs_equal x y xs ys e) (omega (arith, h))
  | inr e ↦ rw (lcs_other x y xs ys e) (elim p [
    | inr p' ↦
        bound_left (length (a ∷ c)) (lcs xs (y ∷ ys)) (lcs (x ∷ xs) ys)
          (length-Among (a ∷ c) xs (y ∷ ys) p' q)
    | inl (ax, p') ↦ elim q [
      | inr q' ↦
          bound_right (length (a ∷ c)) (lcs xs (y ∷ ys)) (lcs (x ∷ xs) ys)
            (length-Among (a ∷ c) (x ∷ xs) ys (inl (ax, p')) q')
      | inl (ay, q') ↦ absurd (cc (e, (eq_text_iff x y).1 (sym ax ∙ ay)))
    ]
  ])
]

-- Where the table of the two texts is not larger than `max_cells`, no list of lines that is a subsequence of both
-- has more lines than `diff_ops` leaves unchanged.
pub diff_ops-Among :
    (old new c : List Text)
    → length old * (length new + 1) ≤ max_cells
    → Among c old
    → Among c new
    → length c ≤ unchanged (diff_ops old new)
diff_ops-Among old new c h p q = rw (unchanged-diff_ops old new h) (length-Among c old new p q)
