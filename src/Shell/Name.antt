-- ===== src/Shell/Name.antt =====
-- What a valid identifier is made of.
use shellflow.Base.{
  ℕ, Bool, true, false, ◌&&◌, [], ◌∷◌, inl, inr, ◌≡◌, ◌≢◌, refl, ap, ◌∙◌, ltb, arith, Text, ◌==◌,
  ==_iff, Bool-cases, all,
}
use shellflow.Base.Text.{contains, starts_with}
use shellflow.Base.Text.Utf8.{is_utf8, is_utf8_from, is_utf8_from_ascii}
use shellflow.Shell.{is_valid_var_name, is_word}

and_left : (a b : Bool) → (a && b) ≡ true → a ≡ true
and_left a b h = ground arith

and_right : (a b : Bool) → (a && b) ≡ true → b ≡ true
and_right a b h = ground arith

-- A byte that fails the test of every byte of a text does not occur in it.
pub contains-all :
    (p : ℕ → Bool) (b : ℕ) (s : Text) → all p s ≡ true → p b ≡ false → contains (b ∷ []) s ≡ false
unfolding contains starts_with
contains-all p b [] h k = refl
contains-all p b (c ∷ s) h k = elim (Bool-cases (b == c)) [
  | inl e ↦ absurd (ground (arith, ap p ((==_iff b c).0 e)))
  | inr e ↦ ground (arith, contains-all p b s)
]

pub all-is_word : (name : Text) → is_valid_var_name name ≡ true → all is_word name ≡ true
unfolding is_valid_var_name
all-is_word [] h = refl
all-is_word (c ∷ s) h = ground arith

is_word_ascii : (c : ℕ) → is_word c ≡ true → ltb c 0x80 ≡ true
is_word_ascii c h = ground arith

is_utf8_from_word : (lo hi : ℕ) (s : Text) → all is_word s ≡ true → is_utf8_from 0 lo hi s ≡ true
is_utf8_from_word lo hi [] h = unfold is_utf8_from in refl
is_utf8_from_word lo hi (c ∷ s) h =
    is_utf8_from_ascii lo hi c s (is_word_ascii c (and_left (is_word c) (all is_word s) h))
    ∙ is_utf8_from_word 0x80 0xBF s (and_right (is_word c) (all is_word s) h)

-- An identifier is text, and holds no byte that is no word byte.
pub is_utf8-is_valid_var_name : (name : Text) → is_valid_var_name name ≡ true → is_utf8 name ≡ true
unfolding is_utf8
is_utf8-is_valid_var_name name h = is_utf8_from_word 0 0 name (all-is_word name h)

pub contains-is_valid_var_name :
    (b : ℕ) (name : Text)
    → is_valid_var_name name ≡ true
    → is_word b ≡ false
    → contains (b ∷ []) name ≡ false
contains-is_valid_var_name b name h k = contains-all is_word b name (all-is_word name h) k

pub valid_ne_nil : (name : Text) → is_valid_var_name name ≡ true → name ≢ []
unfolding is_valid_var_name
valid_ne_nil name h e = ground (arith, ap is_valid_var_name e)
