-- ===== src/Dsl/Interpolate/Segments.antt =====
-- `interpolate` on a template that is written as literals and references.
use shellflow.Base.{
  ℕ, suc, ◌+◌, true, false, List, [], ◌∷◌, ◌++◌, some, Text, ◌==◌, length, ◌≡◌, refl, ap, ◌∙◌, All,
  arith,
}
use shellflow.Base.Text.{contains}
use shellflow.Base.Dict.{lookup}
use shellflow.Base.Result.{ok}
use shellflow.Shell.{is_valid_var_name}
use shellflow.Shell.Name.{contains-is_valid_var_name}
use shellflow.Dsl.Interpolate.{
  RunState, until_brace, value_of_var, braced, reference, interpolate_skip, interpolate, in_front,
}

-- A text without `$`, or a variable and the value that the state has for it.
pub data Segment : Type 0 where
  literal : Text → Segment
  variable : Text → Text → Segment

abbrev pub template_of : List Segment → Text
template_of [] = []
template_of (literal s ∷ segments) = s ++ template_of segments
template_of (variable name _ ∷ segments) = b'$' ∷ b'{' ∷ (name ++ (b'}' ∷ template_of segments))

abbrev pub rendered : List Segment → Text
rendered [] = []
rendered (literal s ∷ segments) = s ++ rendered segments
rendered (variable _ value ∷ segments) = value ++ rendered segments

abbrev pub IsSegment : RunState → Segment → Type 0
IsSegment state (literal s) = contains (b'$' ∷ []) s ≡ false
IsSegment state (variable name value) =
    (is_valid_var_name name ≡ true) × (lookup name state.vars ≡ some value)

until_brace-append :
    (name rest : Text)
    → contains (b'}' ∷ []) name ≡ false
    → until_brace (name ++ (b'}' ∷ rest)) ≡ (name, true)
unfolding until_brace contains
until_brace-append [] rest h = refl
until_brace-append (c ∷ name) rest h = ground (arith, until_brace-append name rest)

no_dollar :
    (c : ℕ) (s : Text)
    → contains (b'$' ∷ []) (c ∷ s) ≡ false
    → ((c == b'$') ≡ false) × (contains (b'$' ∷ []) s ≡ false)
unfolding contains
no_dollar c s h = ground arith

module _ (template : Text) (state : RunState) where
  -- Skipping is by the number of characters, however it is written.
  skip-suc :
      (n k c : ℕ) (s : Text)
      → n ≡ suc k
      → interpolate_skip template state n (c ∷ s) ≡ interpolate_skip template state k s
  unfolding interpolate_skip
  skip-suc n k c s e = ap (λ m. interpolate_skip template state m (c ∷ s)) e

  skip-append :
      (k : ℕ) (s rest : Text)
      → interpolate_skip template state (length s + k) (s ++ rest)
        ≡ interpolate_skip template state k rest
  skip-append k [] rest = ap (λ n. interpolate_skip template state n rest) (omega arith)
  skip-append k (c ∷ s) rest =
      skip-suc (suc (length s) + k) (length s + k) c (s ++ rest) (omega arith)
      ∙ skip-append k s rest

  skip_braced :
      (name rest : Text)
      → interpolate_skip template state (1 + length name + 1) (b'{' ∷ (name ++ (b'}' ∷ rest)))
        ≡ interpolate_skip template state 0 rest
  skip_braced name rest =
      skip-suc (1 + length name + 1) (length name + 1) b'{' (name ++ (b'}' ∷ rest)) (omega arith)
      ∙ (skip-append 1 name (b'}' ∷ rest) ∙ skip-suc 1 0 b'}' rest refl)

  literal-interpolate :
      (s rest out : Text)
      → contains (b'$' ∷ []) s ≡ false
      → interpolate_skip template state 0 rest ≡ ok out
      → interpolate_skip template state 0 (s ++ rest) ≡ ok (s ++ out)
  unfolding interpolate_skip contains
  literal-interpolate [] rest out h e = e
  literal-interpolate (c ∷ s) rest out h e =
      rw
        (
          (no_dollar c s h).0,
          literal-interpolate s rest out (no_dollar c s h).1 e,
          interpolate_skip,
        )
        refl

  known_value :
      (name value : Text)
      → lookup name state.vars ≡ some value
      → value_of_var template state name ≡ ok value
  unfolding value_of_var
  known_value name value l = rw (l, value_of_var) refl

  braced_name :
      (name value : Text)
      → is_valid_var_name name ≡ true
      → lookup name state.vars ≡ some value
      → braced template state (name, true) ≡ (ok value, 1 + length name + 1)
  unfolding braced
  braced_name name value v l =
      rw v (ap (λ piece. (piece, 1 + length name + 1)) (known_value name value l))

  braced-reference :
      (name value rest : Text)
      → is_valid_var_name name ≡ true
      → lookup name state.vars ≡ some value
      → reference template state (b'{' ∷ (name ++ (b'}' ∷ rest))) ≡ (ok value, 1 + length name + 1)
  unfolding reference
  braced-reference name value rest v l =
      ap (braced template state)
        (until_brace-append name rest (contains-is_valid_var_name b'}' name v refl))
      ∙ braced_name name value v l

  variable-interpolate :
      (name value rest out : Text)
      → is_valid_var_name name ≡ true
      → lookup name state.vars ≡ some value
      → interpolate_skip template state 0 rest ≡ ok out
      → interpolate_skip template state 0 (b'$' ∷ b'{' ∷ (name ++ (b'}' ∷ rest)))
        ≡ ok (value ++ out)
  unfolding interpolate_skip
  variable-interpolate name value rest out v l e =
      ap (λ p. in_front p.0 (interpolate_skip template state p.1 (b'{' ∷ (name ++ (b'}' ∷ rest)))))
        (braced-reference name value rest v l)
      ∙ ap (in_front (ok value)) (skip_braced name rest ∙ e)

  segments-interpolate :
      (segments : List Segment)
      → All (IsSegment state) segments
      → interpolate_skip template state 0 (template_of segments) ≡ ok (rendered segments)
  segments-interpolate [] h = unfold interpolate_skip in refl
  segments-interpolate (literal s ∷ segments) (h, hs) =
      literal-interpolate s (template_of segments) (rendered segments) h
        (segments-interpolate segments hs)
  segments-interpolate (variable name value ∷ segments) ((v, l), hs) =
      variable-interpolate name value (template_of segments) (rendered segments) v l
        (segments-interpolate segments hs)

-- A template of literals without `$` and of `${NAME}` references renders to the literals and the
-- values in their order; a value is copied as it is, references that it spells included.
pub interpolate-template_of :
    (state : RunState) (segments : List Segment)
    → All (IsSegment state) segments
    → interpolate (template_of segments) state ≡ ok (rendered segments)
unfolding interpolate
interpolate-template_of state segments h =
    segments-interpolate (template_of segments) state segments h
