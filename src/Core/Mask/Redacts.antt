-- ===== src/Core/Mask/Redacts.antt =====
-- What a redaction may do to a text: keep bytes in their order, and write the mask in place of a run
-- of bytes.
use shellflow.Base.{
  ℕ, suc, ◌+◌, ◌≤◌, ◌<◌, true, false, [], ◌∷◌, ◌++◌, ◌≡◌, ◌≢◌, refl, arith, Text, length, All, inl,
  inr, Bool-cases, subst, ◌∙◌,
}
use shellflow.Base.Text.{starts_with, contains}
use shellflow.Core.Mask.{mask}

-- `Redacts P i s t`: `t` is a redaction of `s`, which stands at offset `i`, and the bytes that are
-- kept stand at offsets where `P` holds. The end of a text may be cut off.
pub data Redacts (P : ℕ → Type 0) : ℕ → Text → Text → Type 0 where
  cut : {i : ℕ} {s : Text} → Redacts P i s []
  same : {i : ℕ} {s t : Text} (c : ℕ) → P i → Redacts P (suc i) s t → Redacts P i (c ∷ s) (c ∷ t)
  hide :
      {i j : ℕ} {r s u : Text} (h t : Text)
      → r ≡ h ++ s
      → j ≡ i + length h
      → u ≡ mask ++ t
      → Redacts P j s t
      → Redacts P i r u

-- No byte of the text is a `*`.
abbrev pub IsPlain : Text → Type 0
IsPlain = All (λ c. c ≢ b'*')

-- `t` stands at the head of `s`, at offset `i`, and `P` holds at each of its offsets.
pub data Stands (P : ℕ → Type 0) : ℕ → Text → Text → Type 0 where
  end : {i : ℕ} {s : Text} → Stands P i [] s
  byte :
      {i : ℕ} {t s : Text} (a c : ℕ)
      → a ≡ c
      → P i
      → Stands P (suc i) t s
      → Stands P i (a ∷ t) (c ∷ s)

-- `t` stands somewhere in `s`.
pub data Occurs (P : ℕ → Type 0) : ℕ → Text → Text → Type 0 where
  here : {i : ℕ} {t s : Text} → Stands P i t s → Occurs P i t s
  there : {i : ℕ} {t s : Text} (c : ℕ) → Occurs P (suc i) t s → Occurs P i t (c ∷ s)

contains-mask :
    (a : ℕ) (q u : Text) → IsPlain (a ∷ q) → contains (a ∷ q) u ≡ contains (a ∷ q) (mask ++ u)
unfolding contains starts_with
contains-mask a q u l = ground (arith, l.0)

module _ {P : ℕ → Type 0} where
  Stands-Redacts :
      {i : ℕ} {s u : Text} (t : Text)
      → Redacts P i s u
      → IsPlain t
      → starts_with t u ≡ true
      → Stands P i t s
  Stands-Redacts [] r l h = end
  Stands-Redacts (a ∷ t) cut l h = unfold starts_with in cc h
  Stands-Redacts (a ∷ t) (same {t = u} c p r) l h =
      byte a c (unfold starts_with in ground arith) p
        (Stands-Redacts t r l.1 (unfold starts_with in ground arith))
  Stands-Redacts (a ∷ t) (hide k u e₁ e₂ e₃ r) l h =
      absurd (unfold starts_with in ground (arith, l.0))

  Occurs-append :
      {i j : ℕ} {t s : Text} (h : Text) → j ≡ i + length h → Occurs P j t s → Occurs P i t (h ++ s)
  Occurs-append {i} {j} {t} {s} [] e o = subst (λ n. Occurs P n t s) (omega arith) o
  Occurs-append (c ∷ h) e o = there c (Occurs-append h (omega arith) o)

  -- The bytes of a plain text that occurs in a redaction were kept.
  pub Occurs-Redacts :
      {i : ℕ} {s u : Text} (a : ℕ) (q : Text)
      → Redacts P i s u
      → IsPlain (a ∷ q)
      → contains (a ∷ q) u ≡ true
      → Occurs P i (a ∷ q) s
  Occurs-Redacts a q cut l h = unfold contains starts_with in cc h
  Occurs-Redacts a q (same {t = u} c p r) l h = elim (Bool-cases (starts_with (a ∷ q) (c ∷ u))) [
    | inl e ↦ here (Stands-Redacts (a ∷ q) (same c p r) l e)
    | inr e ↦ there c (Occurs-Redacts a q r l (unfold contains in ground arith))
  ]
  Occurs-Redacts a q (hide {s = s} k u e₁ e₂ e₃ r) l h =
      rw e₁ (Occurs-append k e₂ (Occurs-Redacts a q r l (contains-mask a q u l ∙ rw e₃ at h)))

  pub Redacts-refl : (s : Text) (i : ℕ) → ((j : ℕ) → P j) → Redacts P i s s
  Redacts-refl [] i p = cut
  Redacts-refl (c ∷ s) i p = same c (p i) (Redacts-refl s (suc i) p)

  -- A run of bytes that are all kept, in front of a redaction.
  pub Redacts-append :
      {j : ℕ} {s t : Text} (h : Text) (i : ℕ)
      → j ≡ i + length h
      → ((k : ℕ) → i ≤ k → k < j → P k)
      → Redacts P j s t
      → Redacts P i (h ++ s) (h ++ t)
  Redacts-append {j} {s} {t} [] i e p r = subst (λ n. Redacts P n s t) (omega arith) r
  Redacts-append (c ∷ h) i e p r =
      same c (p i (omega arith) (omega arith))
        (Redacts-append h (suc i) (omega arith) (λ k a b. p k (omega arith) b) r)

  -- Nothing but the offsets of the kept bytes matters.
  pub Redacts-mono :
      {Q : ℕ → Type 0} {i : ℕ} {s t : Text}
      → ((k : ℕ) → i ≤ k → P k → Q k)
      → Redacts P i s t
      → Redacts Q i s t
  Redacts-mono f cut = cut
  Redacts-mono {i} f (same c p r) =
      same c (f i (omega arith) p) (Redacts-mono (λ k h. f k (omega arith)) r)
  Redacts-mono f (hide h t e₁ e₂ e₃ r) =
      hide h t e₁ e₂ e₃ (Redacts-mono (λ k g. f k (omega arith)) r)

-- Every byte may be kept.
abbrev pub Anywhere : ℕ → Type 0
Anywhere i = Unit

module _ {P : ℕ → Type 0} where
  pub starts_with-Stands : {i : ℕ} {t s : Text} → Stands P i t s → starts_with t s ≡ true
  unfolding starts_with
  starts_with-Stands end = refl
  starts_with-Stands (byte a c e p r) = ground (arith, starts_with-Stands r)

  pub contains-Occurs :
      {i : ℕ} (a : ℕ) {q s : Text} → Occurs P i (a ∷ q) s → contains (a ∷ q) s ≡ true
  unfolding contains
  contains-Occurs a (here {s = []} st) = starts_with-Stands st
  contains-Occurs a (here {s = c ∷ s} st) = ground (arith, starts_with-Stands st)
  contains-Occurs a (there c o) = ground (arith, contains-Occurs a o)

-- A plain text that does not occur in a text occurs in no redaction of it.
pub contains-Redacts :
    {i : ℕ} {s u : Text} (t : Text)
    → t ≢ []
    → IsPlain t
    → Redacts Anywhere i s u
    → contains t s ≡ false
    → contains t u ≡ false
contains-Redacts [] ne l r h = absurd (ne refl)
contains-Redacts {u = u} (a ∷ q) ne l r h = elim (Bool-cases (contains (a ∷ q) u)) [
  | inl e ↦ cc (h, contains-Occurs a (Occurs-Redacts a q r l e))
  | inr e ↦ e
]
