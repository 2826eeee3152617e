-- ===== src/Dsl/Parser/Keys.antt =====
-- The tests that decide whether two steps are alike are equalities.
use shellflow.Base.{ℕ, Bool, true, List, [], ◌∷◌, Option, Text, ◌≡◌, refl, arith}
use shellflow.Base.Text.{eq_text_iff}
use shellflow.Dsl.Target.{EnvEntry, literal, passthrough}
use shellflow.Dsl.Parser.Files.{eq_texts, eq_entry, eq_env, eq_bool, eq_timeout}

pub eq_timeout_lem : (m n : Option ℕ) → eq_timeout m n ≡ true → m ≡ n
eq_timeout_lem m n h = ground arith

pub eq_bool_lem : (a b : Bool) → eq_bool a b ≡ true → a ≡ b
eq_bool_lem a b h = ground arith

pub eq_texts_lem : (xs ys : List Text) → eq_texts xs ys ≡ true → xs ≡ ys
unfolding eq_texts
eq_texts_lem [] [] h = refl
eq_texts_lem (x ∷ xs) (y ∷ ys) h = ground (arith, eq_text_iff x y, eq_texts_lem xs ys)
eq_texts_lem [] (y ∷ ys) h = absurd (cc h)
eq_texts_lem (x ∷ xs) [] h = absurd (cc h)

pub eq_entry_lem : (x y : EnvEntry) → eq_entry x y ≡ true → x ≡ y
eq_entry_lem (literal k v) (literal k' v') h = ground (arith, eq_text_iff k k', eq_text_iff v v')
eq_entry_lem (passthrough k) (passthrough k') h = ground (arith, eq_text_iff k k')
eq_entry_lem (literal k v) (passthrough k') h = absurd (cc h)
eq_entry_lem (passthrough k) (literal k' v') h = absurd (cc h)

pub eq_env_lem : (xs ys : List EnvEntry) → eq_env xs ys ≡ true → xs ≡ ys
unfolding eq_env
eq_env_lem [] [] h = refl
eq_env_lem (x ∷ xs) (y ∷ ys) h = ground (arith, eq_entry_lem x y, eq_env_lem xs ys)
eq_env_lem [] (y ∷ ys) h = absurd (cc h)
eq_env_lem (x ∷ xs) [] h = absurd (cc h)
