-- ===== src/Muxy/Lines/Stream.antt =====
-- A log that scrolls over the screen, frame by frame.
use mathlib.Core.List.{map-append}
use shellflow.Base.{
  ℕ, zero, suc, ◌+◌, ◌-◌, ◌≤◌, ◌<◌, true, false, List, [], ◌∷◌, ◌++◌, some, Text, inl, inr, length,
  length-append, length-drop, take, drop, get_elem?, map, ◌≡◌, refl, sym, ◌∙◌, ap, subst, arith,
  take-length-append, take-append-drop, append_assoc, append-nil, ltb, Bool-cases,
}
use shellflow.Muxy.Lines.{Screen, Push, LineAssembler, departure_shift, collapse_cr, push, arm}
use shellflow.Muxy.Lines.Shift.{Shifts, departure_shift_smallest}

add_suc : (n i : ℕ) → suc n + i ≡ suc (n + i)
add_suc n i = omega arith

-- No row of the list occurs twice.
abbrev pub Distinct : List Text → Type 0
Distinct rows = (i j : ℕ) (r : Text) → get_elem? rows i ≡ some r → get_elem? rows j ≡ some r → i ≡ j

get_elem?-drop : (n i : ℕ) (rows : List Text) → get_elem? (drop n rows) i ≡ get_elem? rows (n + i)
get_elem?-drop zero i rows = ap (get_elem? rows) (omega arith)
get_elem?-drop (suc n) i [] = refl
get_elem?-drop (suc n) i (r ∷ rows) = rw (add_suc n i) (get_elem?-drop n i rows)

get_elem?-append : (i : ℕ) (a b : List Text) → i < length a → get_elem? (a ++ b) i ≡ get_elem? a i
get_elem?-append i [] b h = absurd (omega arith)
get_elem?-append zero (r ∷ a) b h = refl
get_elem?-append (suc i) (r ∷ a) b h = get_elem?-append i a b (omega arith)

drop-append : (n : ℕ) (a b : List Text) → n ≤ length a → drop n (a ++ b) ≡ drop n a ++ b
drop-append zero a b h = refl
drop-append (suc n) [] b h = absurd (omega arith)
drop-append (suc n) (r ∷ a) b h = drop-append n a b (omega arith)

get_elem?-head :
    (i : ℕ) (rows : List Text) → i < length rows → (r : Text) × (get_elem? rows i ≡ some r)
get_elem?-head i [] h = absurd (omega arith)
get_elem?-head zero (r ∷ rows) h = (r, refl)
get_elem?-head (suc i) (r ∷ rows) h = get_elem?-head i rows (omega arith)

get_elem?-take : (k : ℕ) (rows : List Text) → 0 < k → get_elem? (take k rows) 0 ≡ get_elem? rows 0
get_elem?-take zero rows h = absurd (omega arith)
get_elem?-take (suc k) [] h = refl
get_elem?-take (suc k) (r ∷ rows) h = refl

module _ (prev fresh : List Text) where
  scroll-Shifts : (n : ℕ) → n ≤ length prev → Shifts prev (drop n prev ++ fresh) n
  scroll-Shifts n h = (
    h,
    sym (
        subst (λ k. take k (drop n prev ++ fresh) ≡ drop n prev) (length-drop n prev)
          (take-length-append (drop n prev) fresh)),
  )

  scroll_le : (n : ℕ) → n ≤ length prev → departure_shift prev (drop n prev ++ fresh) ≤ n
  scroll_le n h =
      (departure_shift_smallest prev (drop n prev ++ fresh)).1 n
        (omega (arith, length-append (drop n prev) fresh, length-drop n prev)) (scroll-Shifts n h)

  -- A shift that is too small shows a row at two places.
  too_small :
      (n s : ℕ)
      → n ≤ length prev
      → Distinct (prev ++ fresh)
      → Shifts prev (drop n prev ++ fresh) s
      → s < n
      → n ≡ s
  too_small n s h d (s_le, e) s_lt =
      let (r, e₁) = get_elem?-head s prev (omega arith) in
      let at_s : get_elem? (prev ++ fresh) s ≡ some r =
        get_elem?-append s prev fresh (omega arith) ∙ e₁ in
      let top : get_elem? (drop n prev ++ fresh) 0 ≡ some r =
        sym (get_elem?-take (length prev - s) (drop n prev ++ fresh) (omega arith))
        ∙ (ap (λ rows. get_elem? rows 0) (sym e)
            ∙ (get_elem?-drop s 0 prev ∙ (ap (get_elem? prev) (omega arith) ∙ e₁))) in
      let at_n : get_elem? (prev ++ fresh) n ≡ some r =
        ap (get_elem? (prev ++ fresh)) (omega arith)
        ∙ (sym (get_elem?-drop n 0 (prev ++ fresh))
            ∙ (ap (λ rows. get_elem? rows 0) (drop-append n prev fresh h) ∙ top)) in
      d n s r at_n at_s

  -- The screen scrolled by `n` rows, and none of the rows looks like another: `n` rows left.
  pub departure_shift-scroll :
      (n : ℕ)
      → n ≤ length prev
      → Distinct (prev ++ fresh)
      → departure_shift prev (drop n prev ++ fresh) ≡ n
  departure_shift-scroll n h d =
      elim (Bool-cases (ltb (departure_shift prev (drop n prev ++ fresh)) n)) [
        | inl e ↦ sym (
            too_small n (departure_shift prev (drop n prev ++ fresh)) h d
              (departure_shift_smallest prev (drop n prev ++ fresh)).0 (ground arith))
        | inr e ↦ ground (arith, scroll_le n h)
      ]

-- The assembler between two frames, after the marker.
abbrev pub running : Text → List Text → ℕ → LineAssembler
running marker prev history = record {
  prev = prev;
  armed = true;
  marker = marker;
  history_total = history;
  initialized = true;
}

-- One frame of the log: how many rows left the screen, the rows that came, and the scrollback.
abbrev pub Frame : Type 0
Frame = ℕ × List Text × ℕ

abbrev pub after : List Text → Frame → List Text
after prev (n, fresh, _) = drop n prev ++ fresh

abbrev pub screens : List Text → List Frame → List Screen
screens prev [] = []
screens prev (frame ∷ frames) =
    record { rows = after prev frame; reset = false; history = frame.2 }
    ∷ screens (after prev frame) frames

-- The rows that the log gained.
abbrev pub gained : List Frame → List Text
gained [] = []
gained ((_, fresh, _) ∷ frames) = fresh ++ gained frames

abbrev pub Scrolls : List Text → List Frame → Type 0
Scrolls prev [] = Unit
Scrolls prev (frame ∷ frames) =
    (frame.0 ≤ length prev) × Distinct (prev ++ frame.1) × Scrolls (after prev frame) frames

-- The lines of several frames in a row.
pub push_all : LineAssembler → List Screen → List Text × LineAssembler
push_all a [] = ([], a)
push_all a (screen ∷ screens) =
    let (out, a') = push a screen in
    let (lines, a'') = push_all a' screens in (out.lines ++ lines, a'')

push-running :
    (marker : Text) (prev : List Text) (h : ℕ) (screen : Screen)
    → screen.reset ≡ false
    → push (running marker prev h) screen ≡ (
      record {
        lines = map collapse_cr (take (departure_shift prev screen.rows) prev);
        missing = (screen.history - h) - departure_shift prev screen.rows;
        tui_redraw = false;
      },
      running marker screen.rows screen.history,
    )
unfolding push arm
push-running marker prev h screen e = rw e refl

-- One frame of a scrolling log: the rows that left are the first of the old screen.
push-scroll :
    (marker : Text) (prev : List Text) (h : ℕ) (frame : Frame)
    → frame.0 ≤ length prev
    → Distinct (prev ++ frame.1)
    → push
        (running marker prev h)
        (record { rows = after prev frame; reset = false; history = frame.2 })
      ≡ (
        record {
          lines = map collapse_cr (take frame.0 prev);
          missing = (frame.2 - h) - frame.0;
          tui_redraw = false;
        },
        running marker (after prev frame) frame.2,
      )
push-scroll marker prev h (n, fresh, h') n_le d =
    subst
      (λ k.
        push (running marker prev h)
          (record { rows = drop n prev ++ fresh; reset = false; history = h' })
        ≡ (
          record {
            lines = map collapse_cr (take k prev);
            missing = (h' - h) - k;
            tui_redraw = false;
          },
          running marker (drop n prev ++ fresh) h',
        ))
      (departure_shift-scroll prev fresh n n_le d) (push-running marker prev h _ refl)

map_split :
    (n : ℕ) (prev fresh rest : List Text)
    → map collapse_cr (take n prev) ++ map collapse_cr ((drop n prev ++ fresh) ++ rest)
      ≡ map collapse_cr (prev ++ (fresh ++ rest))
map_split n prev fresh rest =
    sym (map-append collapse_cr (take n prev) ((drop n prev ++ fresh) ++ rest))
    ∙ ap (map collapse_cr) (
        ap (◌++◌ (take n prev)) (append_assoc (drop n prev) fresh rest)
        ∙ (sym (append_assoc (take n prev) (drop n prev) (fresh ++ rest))
            ∙ ap (λ rows. rows ++ (fresh ++ rest)) (take-append-drop n prev)))

-- The lines of the first frame stand in front.
push_all-total :
    (a : LineAssembler) (screen : Screen) (screens : List Screen) (out : Push) (a' : LineAssembler)
    → push a screen ≡ (out, a')
    → (push_all a (screen ∷ screens)).0 ++ map collapse_cr (push_all a (screen ∷ screens)).1.prev
      ≡ out.lines ++ ((push_all a' screens).0 ++ map collapse_cr (push_all a' screens).1.prev)
unfolding push_all
push_all-total a screen screens out a' e =
    ap
      (λ p.
        (p.0.lines ++ (push_all p.1 screens).0) ++ map collapse_cr (push_all p.1 screens).1.prev)
      e
    ∙ append_assoc out.lines (push_all a' screens).0 (map collapse_cr (push_all a' screens).1.prev)

-- For an armed assembler and frames without a reset, each of which moves the rows of the screen up by
-- some of them and adds rows below, all of them different: the lines that the assembler emits and the
-- rows that it keeps for the end are the whole log, so no row is lost, repeated or out of order.
pub push_all-Scrolls :
    (marker : Text) (prev : List Text) (h : ℕ) (frames : List Frame)
    → Scrolls prev frames
    → (push_all (running marker prev h) (screens prev frames)).0
        ++ map collapse_cr (push_all (running marker prev h) (screens prev frames)).1.prev
      ≡ map collapse_cr (prev ++ gained frames)
unfolding push_all
push_all-Scrolls marker prev h [] s = ap (map collapse_cr) (sym (append-nil prev))
push_all-Scrolls marker prev h ((n, fresh, h') ∷ frames) (n_le, d, s) =
    push_all-total (running marker prev h) _ (screens (drop n prev ++ fresh) frames) _ _
      (push-scroll marker prev h (n, fresh, h') n_le d)
    ∙ (ap (◌++◌ (map collapse_cr (take n prev)))
          (push_all-Scrolls marker (drop n prev ++ fresh) h' frames s)
        ∙ map_split n prev fresh (gained frames))
