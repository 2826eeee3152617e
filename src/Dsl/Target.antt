-- ===== src/Dsl/Target.antt =====
-- crates/shellflow-dsl/src/plan.rs: targets, and the entries that a plan and its steps carry.
use shellflow.Base.{ℕ, [], ◌∷◌, Option, Text, ◌==◌, if◌then◌else◌}
use shellflow.Base.Text.{trim}

pub record Target : Type 0 where
  pub text : Text
  pub line : ℕ

-- `trim_start_matches('@')`
unfoldable pub trim_ats : Text → Text
trim_ats [] = []
trim_ats (c ∷ s) = let rest = trim_ats s in if c == b'@' then rest else c ∷ s

unfoldable pub normalized : Text → Text
unfolding trim_ats trim
normalized text = trim (trim_ats text)

-- `Target::at`
unfoldable pub target_at : Text → ℕ → Target
unfolding normalized
target_at raw line = record { text = normalized raw; line = line }

-- `Target::new`
unfoldable pub target_new : Text → Target
unfolding target_at
target_new text = target_at text 0

pub record Workdir : Type 0 where
  pub prefix : Text

pub data EnvEntry : Type 0 where
  literal : Text → Text → EnvEntry
  passthrough : Text → EnvEntry

pub record SecretEntry : Type 0 where
  pub file : Text
  pub identity : Option Text
