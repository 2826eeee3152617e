-- ===== src/Core/Mask/Shorts.antt =====
-- The narrow rules for short values, `mask_token` and `mask_keyed`, as redactions.
use mathlib.Core.List.{get_last?, head?}
use shellflow.Base.{
  ℕ, zero, suc, ◌+◌, Bool, true, false, ◌&&◌, List, [], ◌∷◌, ◌++◌, ◌≡◌, ◌≢◌, refl, Text, length,
  inl, inr, Option-cases, if◌then◌else◌,
}
use shellflow.Base.Text.{contains, split_once, split_once-eq_some}
use shellflow.Core.Mask.{
  mask, token_loop, mask_token, no_word, keyed_loop, replace_keyed, eq_ignore_case, last_ident,
  mask_keyed, mask_shorts,
}
use shellflow.Core.Mask.Redacts.{
  Redacts, same, hide, Redacts-append, Redacts-refl, IsPlain, Anywhere, contains-Redacts,
}

-- A run of bytes that the rule copies.
copy_bytes :
    (h : Text) {s t : Text}
    → ((i : ℕ) → Redacts Anywhere i s t)
    → (i : ℕ) → Redacts Anywhere i (h ++ s) (h ++ t)
copy_bytes h r i = Redacts-append h i refl (λ _ _ _. tt) (r (i + length h))

-- A run of bytes that the rule copies or hides.
mask_or_copy :
    (b : Bool) (h : Text) {s t : Text}
    → ((i : ℕ) → Redacts Anywhere i s t)
    → (i : ℕ) → Redacts Anywhere i (h ++ s) ((if b then mask else h) ++ t)
mask_or_copy true h {t = t} r i = hide h t refl refl refl (r (i + length h))
mask_or_copy false h r i = copy_bytes h r i

-- The same behind a `=` that stays.
mask_or_copy_value :
    (b : Bool) (value : Text) {s t : Text}
    → ((i : ℕ) → Redacts Anywhere i s t)
    → (i : ℕ)
    → Redacts Anywhere i ((b'=' ∷ value) ++ s) ((if b then b'=' ∷ mask else b'=' ∷ value) ++ t)
mask_or_copy_value true value {t = t} r i =
    same b'=' tt (hide value t refl refl refl (r (suc i + length value)))
mask_or_copy_value false value r i = copy_bytes (b'=' ∷ value) r i

token_loop-Redacts :
    (n : ℕ) (secret rest : Text) (i : ℕ) → Redacts Anywhere i rest (token_loop n secret rest)
unfolding token_loop
token_loop-Redacts zero secret rest i = Redacts-refl rest i (λ _. tt)
token_loop-Redacts (suc n) secret rest i = elim (Option-cases (split_once secret rest)) [
  | inl e ↦ rw (e, token_loop) (Redacts-refl rest i (λ _. tt))
  | inr ((before, tail), e) ↦
      rw (e, token_loop, split_once-eq_some secret rest before tail e)
        (copy_bytes before
          (mask_or_copy (no_word (get_last? before) && no_word (head? tail)) secret
            (token_loop-Redacts n secret tail))
          i)
]

keyed_loop-Redacts :
    (n : ℕ) (key value rest : Text) (i : ℕ)
    → Redacts Anywhere i rest (keyed_loop n key (b'=' ∷ value) rest)
unfolding keyed_loop
keyed_loop-Redacts zero key value rest i = Redacts-refl rest i (λ _. tt)
keyed_loop-Redacts (suc n) key value rest i = elim (Option-cases (split_once (b'=' ∷ value) rest)) [
  | inl e ↦ rw (e, keyed_loop) (Redacts-refl rest i (λ _. tt))
  | inr ((before, after), e) ↦
      rw (e, keyed_loop, split_once-eq_some (b'=' ∷ value) rest before after e)
        (copy_bytes before
          (mask_or_copy_value (eq_ignore_case (last_ident before) key) value
            (keyed_loop-Redacts n key value after))
          i)
]

module _ (t : Text) (ne : t ≢ []) (plain : IsPlain t) where
  contains-mask_token :
      (line secret : Text) → contains t line ≡ false → contains t (mask_token line secret) ≡ false
  unfolding mask_token
  contains-mask_token line [] h = h
  contains-mask_token line (c ∷ s) h =
      contains-Redacts t ne plain (token_loop-Redacts (length line + 1) (c ∷ s) line 0) h

  contains-replace_keyed :
      (line key value : Text)
      → contains t line ≡ false
      → contains t (replace_keyed line key (b'=' ∷ value)) ≡ false
  unfolding replace_keyed
  contains-replace_keyed line key value h =
      contains-Redacts t ne plain (keyed_loop-Redacts (length line + 1) key value line 0) h

  contains-mask_keyed :
      (line key value : Text)
      → contains t line ≡ false
      → contains t (mask_keyed line key value) ≡ false
  unfolding mask_keyed
  contains-mask_keyed line [] value h = h
  contains-mask_keyed line (k ∷ key) [] h = h
  contains-mask_keyed line (k ∷ key) (v ∷ value) h =
      contains-replace_keyed _ (k ∷ key) _
        (contains-replace_keyed _ (k ∷ key) _ (contains-replace_keyed line (k ∷ key) _ h))

  -- The rules for short values bring no plain text into a line.
  pub contains-mask_shorts :
      (shorts : List (Text × Text)) (out : Text)
      → contains t out ≡ false
      → contains t (mask_shorts out shorts) ≡ false
  unfolding mask_shorts
  contains-mask_shorts [] out h = h
  contains-mask_shorts ((key, value) ∷ shorts) out h =
      contains-mask_shorts shorts (mask_keyed (mask_token out value) key value)
        (contains-mask_keyed (mask_token out value) key value (contains-mask_token out value h))
