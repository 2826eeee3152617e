-- ===== src/Shell.antt =====
-- crates/shellflow-text/src/lib.rs: the shell-text rules that every other part shares.
pub mod Name
pub mod Quote
pub mod Strip
pub mod Unit
use mathlib.Core.List.{drop_last}
use shellflow.Base.{
  ℕ, Bool, true, false, not, ◌&&◌, ◌||◌, List, [], ◌∷◌, ◌++◌, Option, none, some, Text, ◌==◌,
  if◌then◌else◌, any, all, is_empty, last?,
}
use shellflow.Base.Text.{codes, is_alpha, is_alnum, trim, starts_with, ends_with, contains}

-- What one round of the loop pushes.
unfoldable pub quote_byte : ℕ → Text
quote_byte c = if c == b'\'' then codes "'\\''" else c ∷ []

unfoldable pub quote_body : Text → Text
unfolding quote_byte
quote_body [] = b'\'' ∷ []
quote_body (c ∷ s) = quote_byte c ++ quote_body s

unfoldable pub shell_quote_single : Text → Text
unfolding quote_body
shell_quote_single value = b'\'' ∷ quote_body value

-- The slice `trimmed[1..trimmed.len() - 1]` where the first and the last byte are the same quote.
unfoldable pub strip_layer : Text → Text
strip_layer [] = []
strip_layer (a ∷ []) = a ∷ []
strip_layer (a ∷ b ∷ s) =
    if (elim (last? (b ∷ s)) [ none ↦ false | some z ↦ a == z ]) && (a == b'"' || a == b'\'')
    then drop_last (b ∷ s)
    else a ∷ b ∷ s

unfoldable pub strip_surrounding_quotes : Text → Text
unfolding trim strip_layer
strip_surrounding_quotes raw = strip_layer (trim raw)

-- The test on every character of an identifier but the first.
abbrev pub is_word : ℕ → Bool
is_word c = is_alnum c || c == b'_'

abbrev is_first : ℕ → Bool
is_first c = is_alpha c || c == b'_'

unfoldable pub is_valid_var_name : Text → Bool
is_valid_var_name [] = false
is_valid_var_name (c ∷ s) = is_first c && all is_word s

abbrev is_unit_byte : ℕ → Bool
is_unit_byte c = is_alnum c || c == b'-' || c == b'_' || c == b'.' || c == b'@' || c == b':'

unfoldable pub is_valid_unit_name : Text → Bool
unfolding starts_with contains
is_valid_unit_name unit =
    not (is_empty unit)
    && not (starts_with (codes ".") unit)
    && not (contains (codes "..") unit)
    && all is_unit_byte unit

unfoldable pub normalize_unit : Text → Text
unfolding trim ends_with
normalize_unit raw =
    let unit = trim raw in
    if ends_with (codes ".service") unit then unit else unit ++ codes ".service"

abbrev unit_suffixes : List Text
unit_suffixes =
    codes ".service"
    ∷ codes ".socket"
    ∷ codes ".target"
    ∷ codes ".device"
    ∷ codes ".mount"
    ∷ codes ".automount"
    ∷ codes ".swap"
    ∷ codes ".path"
    ∷ codes ".timer"
    ∷ codes ".slice"
    ∷ codes ".scope"
    ∷ codes ".container"
    ∷ codes ".volume"
    ∷ codes ".network"
    ∷ codes ".kube"
    ∷ codes ".image"
    ∷ codes ".build"
    ∷ codes ".pod"
    ∷ []

unfoldable pub is_unit_file : Text → Bool
unfolding ends_with
is_unit_file name = any (λ suffix. ends_with suffix name) unit_suffixes
