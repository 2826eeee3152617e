-- ===== src/Muxy/Lines/Silent.antt =====
-- What the marker does to the assembler.
use shellflow.Base.{
  ℕ, ◌-◌, true, false, not, ◌&&◌, List, [], Text, ltb, take, map, ◌≡◌, refl, Bool-cases,
  Option-cases, inl, inr, if_intro,
}
use shellflow.Muxy.Lines.{
  Screen, Push, LineAssembler, departure_shift, collapse_cr, behind_marker, arm, push, feed_gap,
  finish,
}

-- An assembler that is unarmed after the call gave no line, and an armed one stays armed.
abbrev pub IsSilent : LineAssembler → List Text × LineAssembler → Type 0
IsSilent a (lines, a') = (a'.armed ≡ false → lines ≡ []) × (a.armed ≡ true → a'.armed ≡ true)

abbrev Silently : LineAssembler → Push × LineAssembler → Type 0
Silently a (out, a') = IsSilent a (out.lines, a')

arm-IsSilent :
    (a : LineAssembler) (cur : List Text) (missing : ℕ) (departed : List Text)
    → IsSilent a ((arm a cur missing departed).0.lines, (arm a cur missing departed).1)
unfolding arm
arm-IsSilent a cur missing departed = elim (Bool-cases a.armed) [
  | inl e ↦ rw (e, arm) (λ h. absurd (cc h), λ h. refl)
  | inr e ↦ elim (Option-cases (behind_marker a.marker departed)) [
    | inr (behind, k) ↦ rw (e, k, arm) (λ h. absurd (cc h), λ h. refl)
    | inl k ↦ elim (Option-cases (behind_marker a.marker cur)) [
      | inr (behind, l) ↦ rw (e, k, l, arm) (λ h. refl, λ h. refl)
      | inl l ↦ rw (e, k, l, arm) (λ h. refl, λ h. absurd (cc h))
    ]
  ]
]

push-IsSilent :
    (a : LineAssembler) (screen : Screen) → IsSilent a ((push a screen).0.lines, (push a screen).1)
unfolding push
push-IsSilent a screen =
    if_intro (Silently a) (not a.initialized) _ _ (λ e. (λ h. refl, λ h. h))
      (λ e.
        if_intro (Silently a) screen.reset _ _
          (λ r.
            if_intro (Silently a)
              (not (ltb 0 (screen.history - a.history_total))
                && ltb 0 (departure_shift a.prev screen.rows))
              _ _ (λ d. (λ h. refl, λ h. h)) (λ d. (λ h. refl, λ h. h)))
          (λ r.
            arm-IsSilent (record a { prev = screen.rows; history_total = screen.history })
              screen.rows ((screen.history - a.history_total) - departure_shift a.prev screen.rows)
              (map collapse_cr (take (departure_shift a.prev screen.rows) a.prev))))

feed_gap-IsSilent : (a : LineAssembler) (rows : List Text) → IsSilent a (feed_gap a rows)
unfolding feed_gap
feed_gap-IsSilent a rows = elim (Bool-cases a.armed) [
  | inl e ↦ rw (e, feed_gap) (λ h. absurd (cc h), λ h. refl)
  | inr e ↦ elim (Option-cases (behind_marker a.marker rows)) [
    | inl k ↦ rw (e, k, feed_gap) (λ h. refl, λ h. absurd (cc h))
    | inr (behind, k) ↦ rw (e, k, feed_gap) (λ h. absurd (cc h), λ h. refl)
  ]
]

finish-IsSilent : (a : LineAssembler) → IsSilent a (finish a)
unfolding finish
finish-IsSilent a = elim (Bool-cases a.armed) [
  | inl e ↦ rw (e, finish) (λ h. absurd (cc h), λ h. refl)
  | inr e ↦ elim (Option-cases (behind_marker a.marker (map collapse_cr a.prev))) [
    | inl k ↦ rw (e, k, finish) (λ h. refl, λ h. absurd (cc h))
    | inr (behind, k) ↦ rw (e, k, finish) (λ h. absurd (cc h), λ h. refl)
  ]
]

-- Whatever frame, gap or end comes, an assembler that is still unarmed afterwards has passed on no
-- line, and an assembler that the marker armed stays armed.
pub calls-IsSilent :
    (a : LineAssembler) (screen : Screen) (rows : List Text)
    → IsSilent a ((push a screen).0.lines, (push a screen).1)
      × IsSilent a (feed_gap a rows)
      × IsSilent a (finish a)
calls-IsSilent a screen rows = (push-IsSilent a screen, feed_gap-IsSilent a rows, finish-IsSilent a)
