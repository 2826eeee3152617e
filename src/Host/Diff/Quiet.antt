-- ===== src/Host/Diff/Quiet.antt =====
-- Where a list of diff operations changes nothing.
use shellflow.Base.{
  ℕ, zero, suc, ◌+◌, ◌≤◌, ◌<◌, Bool, true, false, List, [], ◌∷◌, leb, length, drop, ◌≡◌, Bool-cases,
  inl, inr, refl, sym, ap, ◌∙◌, arith, length-drop,
}
use shellflow.Host.Diff.{Op, equal, delete, insert}
use shellflow.Host.Diff.Table.{drop_add}

-- Whether the first operation changes nothing.
abbrev pub quiet : List Op → Bool
quiet [] = true
quiet (equal line ∷ ops) = true
quiet (delete line ∷ ops) = false
quiet (insert line ∷ ops) = false

-- No operation from one position to another changes something.
pub record Quiet (ops : List Op) (a b : ℕ) : Type 0 where
  pub quiet_at : (k : ℕ) → a ≤ k → k < b → quiet (drop k ops) ≡ true

pub Quiet-tail : (op : Op) (ops : List Op) (b : ℕ) → Quiet (op ∷ ops) 0 (suc b) → Quiet ops 0 b
Quiet-tail op ops b q = record {
  quiet_at = λ k h l. q.quiet_at (suc k) (omega arith) (omega (arith, l));
}

pub Quiet-shift : (ops : List Op) (a n : ℕ) → Quiet ops a (a + n) → Quiet (drop a ops) 0 n
Quiet-shift ops a n q = record {
  quiet_at = λ k h l.
      ap quiet (sym (drop_add a k ops)) ∙ q.quiet_at (a + k) (omega arith) (omega (arith, l));
}

-- Behind the last operation nothing changes.
pub quiet_end : (ops : List Op) (k : ℕ) → length ops ≤ k → quiet (drop k ops) ≡ true
quiet_end [] zero h = refl
quiet_end [] (suc k) h = refl
quiet_end (op ∷ ops) zero h = absurd (omega arith)
quiet_end (op ∷ ops) (suc k) h = quiet_end ops k (omega arith)

pub Quiet-more : (ops : List Op) (a : ℕ) → Quiet ops a (length ops) → (b : ℕ) → Quiet ops a b
Quiet-more ops a q b = record {
  quiet_at = λ k h l. elim (Bool-cases (leb (length ops) k)) [
    | inl e ↦ quiet_end ops k (ground arith)
    | inr e ↦ q.quiet_at k h (ground arith)
  ];
}

pub Quiet-empty : (ops : List Op) (a b : ℕ) → b ≤ a → Quiet ops a b
Quiet-empty ops a b h = record { quiet_at = λ k l m. absurd (omega (arith, h, l, m)) }

pub Quiet-part : (ops : List Op) (a b n : ℕ) → n ≤ b → Quiet ops a b → Quiet ops a n
Quiet-part ops a b n h q = record { quiet_at = λ k l m. q.quiet_at k l (omega (arith, h, m)) }

pub same : (k b : ℕ) → b ≤ k → k < b + 1 → k ≡ b
same k b h l = omega arith

pub drop_nil_length : (ops : List Op) (i : ℕ) → drop i ops ≡ [] → length ops ≤ i
drop_nil_length ops i d = let l = ap (λ rest. length rest) d in omega (arith, l, length-drop i ops)

pub Quiet-length :
    (ops : List Op) (a i : ℕ) → drop i ops ≡ [] → Quiet ops a i → Quiet ops a (length ops)
Quiet-length ops a i d q = Quiet-part ops a i (length ops) (drop_nil_length ops i d) q

-- One position further on.
pub Quiet-next :
    (ops : List Op) (a b : ℕ) → Quiet ops a b → quiet (drop b ops) ≡ true → Quiet ops a (b + 1)
Quiet-next ops a b q e = record {
  quiet_at = λ k l m. elim (Bool-cases (leb b k)) [
    | inl h ↦ ap (λ n. quiet (drop n ops)) (same k b (ground arith) (ground arith)) ∙ e
    | inr h ↦ q.quiet_at k l (ground arith)
  ];
}
