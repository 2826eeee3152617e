-- ===== src/Dsl/States.antt =====
-- crates/shellflow-dsl/src/plan.rs: `ActiveState` and `EnabledState`, which an assertion requires.
use shellflow.Base.{
  Option, none, some, Text, if◌then◌else◌, ◌≡◌, ◌↔◌, refl, Bool-cases, inl, inr, sym, ap, ◌∙◌,
}
use shellflow.Base.Text.{codes, eq_text, eq_text_iff}

pub data ActiveState : Type 0 where
  active : ActiveState
  reloading : ActiveState
  inactive : ActiveState
  failed : ActiveState
  activating : ActiveState
  deactivating : ActiveState

pub data EnabledState : Type 0 where
  enabled : EnabledState
  disabled : EnabledState
  static : EnabledState
  masked : EnabledState

-- `ActiveState::legal` and `EnabledState::legal`
abbrev pub active_legal : Text
active_legal = codes "active, reloading, inactive, failed, activating, or deactivating"

abbrev pub enabled_legal : Text
enabled_legal = codes "enabled, disabled, static, or masked"

unfoldable pub active_text : ActiveState → Text
active_text active = codes "active"
active_text reloading = codes "reloading"
active_text inactive = codes "inactive"
active_text failed = codes "failed"
active_text activating = codes "activating"
active_text deactivating = codes "deactivating"

unfoldable pub parse_active : Text → Option ActiveState
unfolding eq_text
parse_active raw =
    if eq_text raw (codes "active")
    then some active
    else if eq_text raw (codes "reloading")
    then some reloading
    else if eq_text raw (codes "inactive")
    then some inactive
    else if eq_text raw (codes "failed")
    then some failed
    else if eq_text raw (codes "activating")
    then some activating
    else if eq_text raw (codes "deactivating")
    then some deactivating
    else none

unfoldable pub enabled_text : EnabledState → Text
enabled_text enabled = codes "enabled"
enabled_text disabled = codes "disabled"
enabled_text static = codes "static"
enabled_text masked = codes "masked"

unfoldable pub parse_enabled : Text → Option EnabledState
unfolding eq_text
parse_enabled raw =
    if eq_text raw (codes "enabled")
    then some enabled
    else if eq_text raw (codes "disabled")
    then some disabled
    else if eq_text raw (codes "static")
    then some static
    else if eq_text raw (codes "masked")
    then some masked
    else none

some_inj {ℓ} : {A : Type ℓ} (x y : A) → some x ≡ some y → x ≡ y
some_inj x y h = cc h

-- One arm of a `match` on a text: what it gives is spelled like it.
match_arm {ℓ} :
    {A : Type ℓ} (spelled : A → Text) (raw s : Text) (x state : A) (rest : Option A)
    → spelled x ≡ s
    → (rest ≡ some state → raw ≡ spelled state)
    → (if eq_text raw s then some x else rest) ≡ some state
    → raw ≡ spelled state
match_arm spelled raw s x state rest e k h = elim (Bool-cases (eq_text raw s)) [
  | inl t ↦ (eq_text_iff raw s).0 t ∙ (sym e ∙ ap spelled (some_inj x state (rw t at h)))
  | inr t ↦ k (rw t at h)
]

parse_active-active_text : (state : ActiveState) → parse_active (active_text state) ≡ some state
unfolding parse_active active_text
parse_active-active_text active = refl
parse_active-active_text reloading = refl
parse_active-active_text inactive = refl
parse_active-active_text failed = refl
parse_active-active_text activating = refl
parse_active-active_text deactivating = refl

active_text-parse_active :
    (raw : Text) (state : ActiveState) → parse_active raw ≡ some state → raw ≡ active_text state
unfolding parse_active active_text
active_text-parse_active raw state =
    match_arm active_text raw (codes "active") active state _ refl (
      match_arm active_text raw (codes "reloading") reloading state _ refl (
        match_arm active_text raw (codes "inactive") inactive state _ refl (
          match_arm active_text raw (codes "failed") failed state _ refl (
            match_arm active_text raw (codes "activating") activating state _ refl (
              match_arm active_text raw (codes "deactivating") deactivating state none refl
                (λ h. cc h))))))

parse_enabled-enabled_text :
    (state : EnabledState) → parse_enabled (enabled_text state) ≡ some state
unfolding parse_enabled enabled_text
parse_enabled-enabled_text enabled = refl
parse_enabled-enabled_text disabled = refl
parse_enabled-enabled_text static = refl
parse_enabled-enabled_text masked = refl

enabled_text-parse_enabled :
    (raw : Text) (state : EnabledState) → parse_enabled raw ≡ some state → raw ≡ enabled_text state
unfolding parse_enabled enabled_text
enabled_text-parse_enabled raw state =
    match_arm enabled_text raw (codes "enabled") enabled state _ refl (
      match_arm enabled_text raw (codes "disabled") disabled state _ refl (
        match_arm enabled_text raw (codes "static") static state _ refl
          (match_arm enabled_text raw (codes "masked") masked state none refl (λ h. cc h))))

-- A text is accepted as a state of `systemctl is-active` or of `systemctl is-enabled` exactly if it
-- is the spelling of that state.
pub parse_states_iff :
    (raw : Text)
    → ((state : ActiveState) → (parse_active raw ≡ some state) ↔ (raw ≡ active_text state))
      × ((state : EnabledState) → (parse_enabled raw ≡ some state) ↔ (raw ≡ enabled_text state))
parse_states_iff raw = (
  λ state.
      (active_text-parse_active raw state, λ e. ap parse_active e ∙ parse_active-active_text state),
  λ state. (
    enabled_text-parse_enabled raw state,
    λ e. ap parse_enabled e ∙ parse_enabled-enabled_text state,
  ),
)
