-- ===== src/Dsl/Valid/Units.antt =====
-- The steps of `@wait_active`, `@reload` and `@service`.
use shellflow.Base.{ℕ, true, not, ◌&&◌, Option, Text, ◌≡◌, all, is_empty, arith}
use shellflow.Base.Text.{codes, eq_text}
use shellflow.Base.Yields.{
  Yields, Yields-ok, Yields-err, Yields-if, Yields-either, Yields-then, Yields-bind,
  Yields-try_fold,
}
use shellflow.Shell.{is_word}
use shellflow.Dsl.Step.Access.{step_timeout}
use shellflow.Dsl.Parser.Flags.{Flag}
use shellflow.Dsl.Parser.State.{State}
use shellflow.Dsl.Parser.Units.{
  ReloadFlags, ServiceFlags, wait_flag, read_wait, signal_name, reload_flag, read_reload,
  service_flag, read_service,
}
use shellflow.Dsl.Valid.{IsTimeout, Optionally, ReadsStep}
use shellflow.Dsl.Valid.Values.{timeout_value-IsPositive, unit_and_target-IsUnit}

wait_flag-IsTimeout :
    (line : ℕ) (timeout : Option ℕ) (flag : Flag)
    → IsTimeout timeout
    → Yields IsTimeout (wait_flag line timeout flag)
unfolding wait_flag
wait_flag-IsTimeout line timeout (flag, value) h =
    Yields-either (eq_text flag (codes "--timeout"))
      (Yields-bind (timeout_value-IsPositive _ line _) (λ secs p. Yields-ok _ p)) (Yields-err _)

pub read_wait-IsStep :
    (payload : Text) (line : ℕ) (s : State)
    → IsTimeout s.pending_timeout
    → ReadsStep (read_wait payload line s)
unfolding read_wait step_timeout
read_wait-IsStep payload line s h = Yields-then _ (λ (positional, flags).
    Yields-bind (Yields-try_fold _ _ flags (wait_flag-IsTimeout line) h) (λ timeout t.
      Yields-bind (unit_and_target-IsUnit _ _ line positional)
        (λ (unit, target) u. Yields-ok _ (t, u))))

abbrev IsReload : ReloadFlags → Type 0
IsReload opts = Optionally (λ sig. all is_word sig ≡ true) opts.signal × IsTimeout opts.timeout

not_empty_all :
    (sig : Text) → (not (is_empty sig) && all is_word sig) ≡ true → all is_word sig ≡ true
not_empty_all sig h = ground arith

signal_name-all :
    (line : ℕ) (sig : Text) → Yields (λ sig. all is_word sig ≡ true) (signal_name line sig)
unfolding signal_name
signal_name-all line sig =
    Yields-if (not (is_empty sig) && all is_word sig) _ _ (λ e. Yields-ok sig (not_empty_all sig e))
      (λ _. Yields-err _)

reload_flag-IsReload :
    (line : ℕ) (opts : ReloadFlags) (flag : Flag)
    → IsReload opts
    → Yields IsReload (reload_flag line opts flag)
unfolding reload_flag
reload_flag-IsReload line opts (flag, value) (h, t) =
    Yields-either (eq_text flag (codes "--wait")) (Yields-ok _ (h, t)) (
      Yields-either (eq_text flag (codes "--timeout"))
        (Yields-bind (timeout_value-IsPositive _ line _) (λ secs p. Yields-ok _ (h, p)))
        (Yields-either (eq_text flag (codes "--signal"))
          (Yields-then _
            (λ raw. Yields-bind (signal_name-all line raw) (λ sig w. Yields-ok _ (w, t))))
          (Yields-err _)))

pub read_reload-IsStep :
    (payload : Text) (line : ℕ) (s : State)
    → IsTimeout s.pending_timeout
    → ReadsStep (read_reload payload line s)
unfolding read_reload step_timeout
read_reload-IsStep payload line s h = Yields-then _ (λ (positional, flags).
    Yields-bind (Yields-try_fold _ _ flags (reload_flag-IsReload line) (tt, h)) (λ opts (w, t).
      Yields-bind (unit_and_target-IsUnit _ _ line positional)
        (λ (unit, target) u. Yields-ok _ (t, (u, w)))))

service_flag-IsTimeout :
    (line : ℕ) (opts : ServiceFlags) (flag : Flag)
    → IsTimeout opts.timeout
    → Yields (λ opts. IsTimeout opts.timeout) (service_flag line opts flag)
unfolding service_flag
service_flag-IsTimeout line opts (flag, value) h =
    Yields-either (eq_text flag (codes "--enable")) (Yields-ok _ h) (
      Yields-either (eq_text flag (codes "--restart")) (Yields-ok _ h) (
        Yields-either (eq_text flag (codes "--reload")) (Yields-ok _ h) (
          Yields-either (eq_text flag (codes "--wait")) (Yields-ok _ h) (
            Yields-either (eq_text flag (codes "--verify")) (Yields-ok _ h) (
              Yields-either (eq_text flag (codes "--force-start")) (Yields-ok _ h) (
                Yields-either (eq_text flag (codes "--timeout"))
                  (Yields-bind (timeout_value-IsPositive _ line _) (λ secs p. Yields-ok _ p))
                  (Yields-err _)))))))

pub read_service-IsStep :
    (payload : Text) (line : ℕ) (s : State)
    → IsTimeout s.pending_timeout
    → ReadsStep (read_service payload line s)
unfolding read_service step_timeout
read_service-IsStep payload line s h = Yields-then _ (λ (positional, flags).
    Yields-bind (Yields-try_fold _ _ flags (service_flag-IsTimeout line) h) (λ opts t.
      Yields-bind (unit_and_target-IsUnit _ _ line positional)
        (λ (unit, target) u. Yields-ok _ (t, u))))
