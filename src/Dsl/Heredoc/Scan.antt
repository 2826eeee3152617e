-- ===== src/Dsl/Heredoc/Scan.antt =====
-- The bound on the rounds of the scan itself.
use shellflow.Base.{
  ℕ, zero, suc, ◌+◌, ◌≤◌, ◌<◌, Bool, true, ◌&&◌, ◌||◌, List, [], ◌∷◌, Option, none, some, Text,
  ◌==◌, ◌≡◌, refl, arith, if_intro, length, drop,
}
use shellflow.Dsl.Heredoc.Bound.{
  length-drop_one, length-quote_end, quote_end_fuel, read_heredoc_fuel, read_heredoc-Shorter,
  HeredocShorter,
}
use shellflow.Dsl.Heredoc.{
  Heredoc, begins, read_heredoc, Round, stop, go, scan_angle, scan_round, scan_next, scan_loop,
  scan_openers,
}

scan_angle_fuel :
    (n m : ℕ) (s : Text) → length s < n → length s < m → scan_angle n s ≡ scan_angle m s
unfolding scan_angle
scan_angle_fuel n m s h k = rw (read_heredoc_fuel n m s h k, scan_angle)

abbrev RoundShorter : ℕ → Round → Type 0
RoundShorter n stop = Unit
RoundShorter n (go openers word_start s) = length s ≤ n

scan_angle-Shorter : (n : ℕ) (s : Text) → RoundShorter (length s) (scan_angle n s)
unfolding scan_angle
scan_angle-Shorter n s =
    if_intro (RoundShorter (length s)) (begins b'<' s) _ _ (λ _. length-drop_one s)
      (λ _. heredoc (read_heredoc n s) (read_heredoc-Shorter n s))
  where
    heredoc :
        (o : Option (Heredoc × Text))
        → HeredocShorter (length s) o
        → RoundShorter
            (length s)
            (elim o [ none ↦ go [] true s | some (h, next) ↦ go (h ∷ []) true next ])
    heredoc none w = omega arith
    heredoc (some (h, next)) w = w

RoundShorter-le : (m n : ℕ) (r : Round) → m ≤ n → RoundShorter m r → RoundShorter n r
RoundShorter-le m n stop h r = tt
RoundShorter-le m n (go openers w s) h r = omega arith

scan_next_congr :
    (f g : Bool → Text → List Heredoc) (n : ℕ) (r : Round)
    → RoundShorter n r
    → ((w : Bool) (s : Text) → length s ≤ n → f w s ≡ g w s)
    → scan_next f r ≡ scan_next g r
unfolding scan_next
scan_next_congr f g n stop h e = refl
scan_next_congr f g n (go openers w s) h e = rw (e w s h)

scan_round_fuel :
    (n m : ℕ) (w : Bool) (c : ℕ) (s : Text)
    → length s < n
    → length s < m
    → scan_round n w c s ≡ scan_round m w c s
unfolding scan_round
scan_round_fuel n m w c s h k =
    let d = length-drop_one s in
    rw (
      quote_end_fuel n m c (c == b'"') s h k,
      scan_angle_fuel n m (drop 1 s) (omega arith) (omega arith),
    )

-- Every round leaves less than it was given.
scan_round-Shorter :
    (n : ℕ) (w : Bool) (c : ℕ) (s : Text) → RoundShorter (length s) (scan_round n w c s)
unfolding scan_round
scan_round-Shorter n w c s =
    let d = length-drop_one s in
    let P = RoundShorter (length s) in
    if_intro P (c == b'\\') _ _ (λ _. d)
      (λ _.
        if_intro P (c == b'\'' || c == b'"') _ _ (λ _. length-quote_end n c (c == b'"') s)
          (λ _.
            if_intro P (c == b'#' && w) _ _ (λ _. tt)
              (λ _.
                if_intro P (c == b'<' && begins b'<' s) _ _
                  (λ _.
                    RoundShorter-le (length (drop 1 s)) (length s) (scan_angle n (drop 1 s)) d
                      (scan_angle-Shorter n (drop 1 s)))
                  (λ _. omega arith))))

scan_loop_fuel :
    (r r' n m : ℕ) (w : Bool) (s : Text)
    → length s < n
    → length s < m
    → length s < r
    → length s < r'
    → scan_loop r n w s ≡ scan_loop r' m w s
unfolding scan_loop
scan_loop_fuel r r' zero m w s h k j i = elim h [ ]
scan_loop_fuel r r' (suc n) zero w s h k j i = elim k [ ]
scan_loop_fuel r r' (suc n) (suc m) w [] h k j i = refl
scan_loop_fuel r r' (suc n) (suc m) w (c ∷ s) h k j i =
    rw (scan_round_fuel r r' w c s (omega arith) (omega arith)) (
      scan_next_congr (scan_loop r n) (scan_loop r' m) (length s) (scan_round r' w c s)
        (scan_round-Shorter r' w c s)
        (λ w' t l.
          scan_loop_fuel r r' n m w' t (omega arith) (omega arith) (omega arith) (omega arith)))

-- With any bounds on its rounds and its inner loops above the length of the line, the scan finds the
-- same openers.
pub scan_openers_bound :
    (line : Text) (rounds fuel : ℕ)
    → length line < rounds
    → length line < fuel
    → scan_loop rounds fuel true line ≡ scan_openers line
unfolding scan_openers
scan_openers_bound line rounds fuel h k =
    scan_loop_fuel rounds (length line + 1) fuel (length line + 1) true line k (omega arith) h
      (omega arith)
