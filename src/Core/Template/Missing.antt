-- ===== src/Core/Template/Missing.antt =====
-- `render_template` and the keys that have no value.
use shellflow.Base.{
  true, false, ◌||◌, List, [], ◌∷◌, ◌++◌, Text, is_empty, ◌≡◌, ◌↔◌, refl, All, Bool-cases, inl, inr,
  if_intro,
}
use shellflow.Base.Dict.{contains_key}
use shellflow.Base.Result.{ok}
use shellflow.Core.Template.{
  Placeholder, MissingKey, placeholders, is_reported, missing_from, splice, render_template,
}

-- Every placeholder has a value.
abbrev pub IsProvided : List (Text × Text) → List Placeholder → Type 0
IsProvided values = All (λ p. contains_key p.key values ≡ true)

not_empty : (m : List MissingKey) → is_empty m ≡ false → is_empty m ≡ true → ⊥
not_empty m h k = cc

append_ne : (m : List MissingKey) (k : MissingKey) → is_empty (m ++ k ∷ []) ≡ false
append_ne [] k = refl
append_ne (x ∷ m) k = refl

module _ (values : List (Text × Text)) where
  -- What is reported stays reported.
  missing_from-grows :
      (spans : List Placeholder) (missing : List MissingKey)
      → is_empty missing ≡ false
      → is_empty (missing_from values missing spans) ≡ false
  unfolding missing_from
  missing_from-grows [] missing h = h
  missing_from-grows (p ∷ spans) missing h = missing_from-grows spans _ (
      if_intro (λ (m : List MissingKey). is_empty m ≡ false)
        (contains_key p.key values || is_reported p.key missing) _ _ (λ _. h)
        (λ _. append_ne missing _))

  missing_from-IsProvided :
      (spans : List Placeholder) → IsProvided values spans → missing_from values [] spans ≡ []
  unfolding missing_from is_reported
  missing_from-IsProvided [] h = refl
  missing_from-IsProvided (p ∷ spans) (h, hs) = rw h (missing_from-IsProvided spans hs)

  IsProvided-missing_from :
      (spans : List Placeholder)
      → is_empty (missing_from values [] spans) ≡ true
      → IsProvided values spans
  unfolding missing_from is_reported
  IsProvided-missing_from [] h = tt
  IsProvided-missing_from (p ∷ spans) h = elim (Bool-cases (contains_key p.key values)) [
    | inl e ↦ (e, IsProvided-missing_from spans (rw (e, missing_from) at h))
    | inr e ↦ absurd (
        not_empty _ (missing_from-grows spans (record { name = p.key; offset = p.start } ∷ []) refl)
          (rw (e, missing_from) at h))
  ]

-- A template is rendered to a text exactly if every placeholder in it has a value.
pub render_template_iff :
    (content : Text) (values : List (Text × Text))
    → ((out : Text) × (render_template content values ≡ ok out))
      ↔ IsProvided values (placeholders content)
unfolding render_template
render_template_iff content values = (
  λ (out, h). elim (Bool-cases (is_empty (missing_from values [] (placeholders content)))) [
    | inl e ↦ IsProvided-missing_from values (placeholders content) e
    | inr e ↦ absurd (cc (rw (e, render_template) at h))
  ],
  λ h. (
    splice content values 0 (placeholders content),
    rw (missing_from-IsProvided values (placeholders content) h, render_template) refl,
  ),
)
