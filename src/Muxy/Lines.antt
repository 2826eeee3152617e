-- ===== src/Muxy/Lines.antt =====
-- crates/shellflow-muxy/src/lines.rs: `LineAssembler`, which turns screens into lines.
pub mod Shift
pub mod Silent
pub mod Stream
use shellflow.Base.{
  ℕ, zero, suc, ◌+◌, ◌-◌, Bool, true, false, not, ◌&&◌, List, [], ◌∷◌, Option, none, some, Text,
  ltb, if◌then◌else◌, length, is_empty, take, drop, keep, map,
}
use mathlib.Core.List.{reverse}
use shellflow.Base.Text.{eq_text, contains, rsplit_once, trim}

pub record Screen : Type 0 where
  pub rows : List Text
  pub reset : Bool
  pub history : ℕ

pub record Push : Type 0 where
  pub lines : List Text
  pub missing : ℕ
  pub tui_redraw : Bool

pub record LineAssembler : Type 0 where
  pub prev : List Text
  pub armed : Bool
  pub marker : Text
  pub history_total : ℕ
  pub initialized : Bool

-- `Push::default()`
abbrev pub no_push : Push
no_push = record { lines = []; missing = 0; tui_redraw = false }

unfoldable pub new : Text → LineAssembler
new marker = record {
  prev = [];
  armed = false;
  marker = marker;
  history_total = 0;
  initialized = false;
}

unfoldable pub eq_rows : List Text → List Text → Bool
unfolding eq_text
eq_rows [] [] = true
eq_rows (r ∷ rows) (q ∷ rows') = eq_text r q && eq_rows rows rows'
eq_rows _ _ = false

-- The largest overlap of at most so many rows, or 0.
unfoldable pub find_overlap : List Text → List Text → ℕ → ℕ
unfolding eq_rows
find_overlap prev cur zero = 0
find_overlap prev cur (suc k) =
    let rest = find_overlap prev cur k in
    if eq_rows (drop (length prev - suc k) prev) (take (suc k) cur) then suc k else rest

abbrev pub min : ℕ → ℕ → ℕ
min a b = if ltb a b then a else b

unfoldable pub departure_shift : List Text → List Text → ℕ
unfolding find_overlap
departure_shift prev cur = length prev - find_overlap prev cur (min (length prev) (length cur))

unfoldable pub collapse_cr : Text → Text
unfolding rsplit_once
collapse_cr line = elim (rsplit_once b'\r' line) [ some (_, tail) ↦ tail | none ↦ line ]

-- `position` of the first row with the marker, and `split_off` behind it.
unfoldable pub behind_marker : Text → List Text → Option (List Text)
unfolding contains
behind_marker marker [] = none
behind_marker marker (line ∷ lines) =
    let rest = behind_marker marker lines in if contains marker line then some lines else rest

-- What `push` does with the departed lines; the assembler holds the new screen already.
unfoldable pub arm : LineAssembler → List Text → ℕ → List Text → Push × LineAssembler
unfolding behind_marker
arm a cur missing departed =
    if a.armed
    then (record { lines = departed; missing = missing; tui_redraw = false }, a)
    else elim (behind_marker a.marker departed) [
      | some behind ↦ (
        record { lines = behind; missing = missing; tui_redraw = false },
        record a { armed = true },
      )
      | none ↦ elim (behind_marker a.marker cur) [
        | some behind ↦ (
          record { lines = []; missing = missing; tui_redraw = false },
          record a { armed = true; prev = behind },
        )
        | none ↦ (record { lines = []; missing = missing; tui_redraw = false }, a)
      ]
    ]

-- The new screen is the one that the next frame is compared with.
abbrev rebase : LineAssembler → Screen → LineAssembler
rebase a screen = record a { prev = screen.rows; history_total = screen.history }

unfoldable pub push : LineAssembler → Screen → Push × LineAssembler
unfolding departure_shift collapse_cr arm
push a screen =
    let shift = departure_shift a.prev screen.rows in
    let delta = screen.history - a.history_total in
    if not a.initialized
    then (no_push, record (rebase a screen) { initialized = true })
    else if screen.reset
    then (if not (ltb 0 delta) && ltb 0 shift
        then (record { lines = []; missing = 0; tui_redraw = true }, rebase a screen)
        else (no_push, rebase a screen))
    else arm (rebase a screen) screen.rows (delta - shift) (map collapse_cr (take shift a.prev))

unfoldable pub feed_gap : LineAssembler → List Text → List Text × LineAssembler
unfolding behind_marker collapse_cr
feed_gap a rows =
    if not a.armed
    then elim (behind_marker a.marker rows) [
      | some behind ↦ (map collapse_cr behind, record a { armed = true })
      | none ↦ ([], a)
    ]
    else (map collapse_cr rows, a)

-- `line.trim().is_empty()`
unfoldable pub is_blank : Text → Bool
unfolding trim
is_blank line = is_empty (trim line)

-- The blank lines at the head; of the reversed list, those that `pop` removes.
unfoldable pub drop_blank : List Text → List Text
unfolding is_blank
drop_blank [] = []
drop_blank (line ∷ lines) =
    let rest = drop_blank lines in if is_blank line then rest else line ∷ lines

-- The `while` that pops, and the filter behind it.
unfoldable pub flush_tail : List Text → List Text
unfolding drop_blank is_blank
flush_tail tail = keep (λ line. not (is_blank line)) (reverse (drop_blank (reverse tail)))

unfoldable pub finish : LineAssembler → List Text × LineAssembler
unfolding behind_marker collapse_cr flush_tail
finish a =
    if not a.armed
    then elim (behind_marker a.marker (map collapse_cr a.prev)) [
      | some behind ↦ (flush_tail behind, record a { armed = true })
      | none ↦ ([], a)
    ]
    else (flush_tail (map collapse_cr a.prev), a)
