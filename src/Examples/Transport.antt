-- ===== src/Examples/Transport.antt =====
-- Runs of crates/shellflow-muxy.
use shellflow.Base.{
  ℕ, zero, suc, ◌-◌, ◌≤◌, true, false, List, [], ◌∷◌, ◌++◌, Text, ◌≡◌, ◌↔◌, refl, arith, length,
  map,
}
use shellflow.Base.Text.{codes}
use shellflow.Muxy.Lines.{
  feed_gap, Screen, LineAssembler, new, push, finish, departure_shift, collapse_cr,
}
use shellflow.Muxy.Lines.Shift.{Shifts, departure_shift_smallest}
use shellflow.Muxy.Lines.Silent.{IsSilent, calls-IsSilent}
use shellflow.Muxy.Lines.Stream.{
  Frame, Distinct, Scrolls, running, screens, gained, push_all, push_all-Scrolls,
}
use shellflow.Muxy.Policy.{
  exited, pos, skipped, succeeded, guard_skip_exit, map_exit_reason, map_exit_reason_iff,
}

abbrev rows : List Text
rows = codes "a" ∷ codes "b" ∷ codes "c" ∷ []

abbrev later : List Text
later = codes "c" ∷ codes "d" ∷ []

departure_shift_smallest_example :
    Shifts rows later (departure_shift rows later)
    × ((n : ℕ)
        → length rows - n ≤ length later
        → Shifts rows later n
        → departure_shift rows later ≤ n)
departure_shift_smallest_example = departure_shift_smallest rows later

abbrev frames : List Frame
frames = (1, [] ∷ [], 1) ∷ []

abbrev two_rows : List Text
two_rows = codes "a" ∷ codes "aa" ∷ []

log-Distinct : Distinct (codes "a" ∷ codes "aa" ∷ [] ∷ [])
log-Distinct zero zero r h k = refl
log-Distinct (suc zero) (suc zero) r h k = refl
log-Distinct (suc (suc zero)) (suc (suc zero)) r h k = refl
log-Distinct zero (suc zero) r h k = absurd (cc (h, k))
log-Distinct zero (suc (suc zero)) r h k = absurd (cc (h, k))
log-Distinct (suc zero) zero r h k = absurd (cc (h, k))
log-Distinct (suc zero) (suc (suc zero)) r h k = absurd (cc (h, k))
log-Distinct (suc (suc zero)) zero r h k = absurd (cc (h, k))
log-Distinct (suc (suc zero)) (suc zero) r h k = absurd (cc (h, k))
log-Distinct (suc (suc (suc i))) j r h k = absurd (cc h)
log-Distinct i (suc (suc (suc j))) r h k = absurd (cc k)

frames-Scrolls : Scrolls two_rows frames
frames-Scrolls = (omega arith, log-Distinct, tt)

push_all-Scrolls_example :
    (push_all (running (codes "@@") two_rows 0) (screens two_rows frames)).0
      ++ map collapse_cr
          (push_all (running (codes "@@") two_rows 0) (screens two_rows frames)).1.prev
    ≡ map collapse_cr (two_rows ++ gained frames)
push_all-Scrolls_example = push_all-Scrolls (codes "@@") two_rows 0 frames frames-Scrolls

map_exit_reason_iff_example :
    ((map_exit_reason (exited (pos 42)) true ≡ skipped)
      ↔ ((exited (pos 42) ≡ exited (pos guard_skip_exit)) × (true ≡ true)))
    × ((map_exit_reason (exited (pos 42)) true ≡ succeeded) ↔ (exited (pos 42) ≡ exited (pos 0)))
map_exit_reason_iff_example = map_exit_reason_iff (exited (pos 42)) true

abbrev quiet : Screen
quiet = record { rows = rows; reset = false; history = 0 }

calls-IsSilent_example :
    IsSilent
      (new (codes "@@"))
      ((push (new (codes "@@")) quiet).0.lines, (push (new (codes "@@")) quiet).1)
    × IsSilent (new (codes "@@")) (feed_gap (new (codes "@@")) rows)
    × IsSilent (new (codes "@@")) (finish (new (codes "@@")))
calls-IsSilent_example = calls-IsSilent (new (codes "@@")) quiet rows

-- A marker that is still on the screen when it arms the assembler comes out at the end, with the
-- row above it, if the same screen is sent once more.
abbrev prompt : Screen
prompt = record { rows = codes "$ run" ∷ codes "@@" ∷ codes "x" ∷ []; reset = false; history = 0 }

abbrev armed : LineAssembler
armed = (push (push (new (codes "@@")) prompt).1 prompt).1

marker_run : (finish (push armed prompt).1).0 ≡ codes "$ run" ∷ codes "@@" ∷ codes "x" ∷ []
unfolding finish push new
marker_run = refl
