-- ===== src/Muxy/Policy.antt =====
-- crates/shellflow-muxy/src/policy.rs and outcome.rs: which steps use the transport, and what the
-- end of a session means for a step.
use shellflow.Base.{
  ℕ, ◌+◌, Bool, true, false, ◌&&◌, ◌∷◌, ◌++◌, Option, none, some, Text, ◌==◌, if◌then◌else◌, ◌≡◌,
  ◌↔◌, arith,
}
use shellflow.Base.Text.{codes, eq_text}
use shellflow.Base.Text.Decimal.{decimal}

pub data TransportPolicy : Type 0 where
  auto : TransportPolicy
  muxy : TransportPolicy
  ssh : TransportPolicy

pub data StepClass : Type 0 where
  remote : StepClass
  service : StepClass
  wait : StepClass
  reload : StepClass
  long_helper : StepClass
  short_helper : StepClass
  check : StepClass

unfoldable pub eligible_auto : StepClass → Bool
eligible_auto remote = true
eligible_auto service = true
eligible_auto wait = true
eligible_auto reload = true
eligible_auto long_helper = true
eligible_auto check = true
eligible_auto short_helper = false

unfoldable pub should_use_muxy : TransportPolicy → StepClass → Bool
unfolding eligible_auto
should_use_muxy ssh class = false
should_use_muxy muxy class = true
should_use_muxy auto class = eligible_auto class

-- The spelling of a policy, in the flag and in the variable.
unfoldable pub spelled_policy : Text → TransportPolicy
unfolding eq_text
spelled_policy text =
    if eq_text text (codes "muxy") then muxy else if eq_text text (codes "ssh") then ssh else auto

unfoldable pub parse_policy : Option Text → Option Text → TransportPolicy
unfolding spelled_policy
parse_policy (some flag) env = spelled_policy flag
parse_policy none (some env) = spelled_policy env
parse_policy none none = auto

-- An `i32`: a code that is not negative, or one less than the negative of a number.
pub data ℤ : Type 0 where
  pos : ℕ → ℤ
  negsuc : ℕ → ℤ

-- `muxy_protocol::ExitReason`, with the payloads that the code reads.
pub data ExitReason : Type 0 where
  exited : ℤ → ExitReason
  signaled : ℤ → ExitReason
  ended : ExitReason
  server_stopped : ExitReason
  unrecognized : ℤ → ExitReason

pub data MuxyOutcome : Type 0 where
  succeeded : MuxyOutcome
  skipped : MuxyOutcome
  failed_script : Text → Option ℤ → MuxyOutcome
  failed_transport : Text → MuxyOutcome
  timed_out : MuxyOutcome
  cancelled : MuxyOutcome

abbrev pub guard_skip_exit : ℕ
guard_skip_exit = 42

-- `{}` of a number.
unfoldable pub shown : ℤ → Text
unfolding decimal
shown (pos n) = decimal n
shown (negsuc n) = b'-' ∷ decimal (n + 1)

unfoldable pub map_exited : ℤ → Bool → MuxyOutcome
unfolding shown
map_exited (pos n) has_guard =
    if n == 0
    then succeeded
    else if n == guard_skip_exit && has_guard
    then skipped
    else failed_script (codes "the block failed (exit " ++ (shown (pos n) ++ codes ")"))
        (some (pos n))
map_exited (negsuc n) has_guard =
    failed_script (codes "the block failed (exit " ++ (shown (negsuc n) ++ codes ")"))
      (some (negsuc n))

unfoldable pub map_exit_reason : ExitReason → Bool → MuxyOutcome
unfolding map_exited shown
map_exit_reason (exited code) has_guard = map_exited code has_guard
map_exit_reason (signaled signum) has_guard =
    failed_script (codes "the block was signalled (" ++ (shown signum ++ codes ")")) none
map_exit_reason ended has_guard = cancelled
map_exit_reason server_stopped has_guard =
    failed_transport (codes "the muxy server stopped mid-step")
map_exit_reason (unrecognized n) has_guard =
    failed_transport
      (codes "the session ended with an unrecognized reason (" ++ (shown n ++ codes ")"))

-- A step counts as skipped exactly if its block exited with the code of the guard and the payload
-- had a guard, and as successful exactly if it exited with 0.
pub map_exit_reason_iff :
    (reason : ExitReason) (has_guard : Bool)
    → ((map_exit_reason reason has_guard ≡ skipped)
        ↔ ((reason ≡ exited (pos guard_skip_exit)) × (has_guard ≡ true)))
      × ((map_exit_reason reason has_guard ≡ succeeded) ↔ (reason ≡ exited (pos 0)))
unfolding map_exit_reason map_exited
map_exit_reason_iff (exited (pos n)) has_guard = ground arith
map_exit_reason_iff (exited (negsuc n)) has_guard = ground arith
map_exit_reason_iff (signaled n) has_guard = ground arith
map_exit_reason_iff ended has_guard = ground arith
map_exit_reason_iff server_stopped has_guard = ground arith
map_exit_reason_iff (unrecognized n) has_guard = ground arith
