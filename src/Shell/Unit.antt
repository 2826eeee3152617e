-- ===== src/Shell/Unit.antt =====
-- Unit names and unit files.
use mathlib.Core.List.{reverse, reverse-append}
use shellflow.Base.{true, ◌++◌, inl, inr, ◌≡◌, Text, Bool-cases, if◌then◌else◌}
use shellflow.Base.Text.{codes, ends_with, trim, starts_with-append}
use shellflow.Shell.{normalize_unit, is_unit_file}

ends_with-append : (p s : Text) → ends_with p (s ++ p) ≡ true
unfolding ends_with
ends_with-append p s = rw (reverse-append s p) (starts_with-append (reverse p) (reverse s))

ends_with_completed : (p s : Text) → ends_with p (if ends_with p s then s else s ++ p) ≡ true
ends_with_completed p s = elim (Bool-cases (ends_with p s)) [
  | inl e ↦ rw e e
  | inr e ↦ rw e (ends_with-append p s)
]

ends_with-normalize_unit : (unit : Text) → ends_with (codes ".service") (normalize_unit unit) ≡ true
unfolding normalize_unit
ends_with-normalize_unit unit = ends_with_completed (codes ".service") (trim unit)

-- Whatever the name, `normalize_unit` returns the name of a unit file.
pub is_unit_file-normalize_unit : (unit : Text) → is_unit_file (normalize_unit unit) ≡ true
unfolding is_unit_file
is_unit_file-normalize_unit unit = rw (ends_with-normalize_unit unit)
