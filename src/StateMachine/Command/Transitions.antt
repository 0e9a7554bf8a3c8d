-- ===== src/StateMachine/Command/Transitions.antt =====
-- The table of valid transitions in the comment of umaa/CommandStateMachine.h, beside the code.
use umaa_cpp.Base.{◌≡◌, ◌↔◌, ◌⊎◌, refl, ap, subst, true, false, arith}
use umaa_cpp.StateMachine.Command.{
  CommandStatus, issued, commanded, executing, completed, failed, Reason, succeeded, updated,
  service_failed, interrupted, timeout, resource_failed, validation_failed, resource_rejected,
  objective_failed, CommandStateMachine, Event, advances, updates, cancels, fails, step,
}

pub data IsActive : CommandStatus → Type 0 where
  in_issued : IsActive issued
  in_commanded : IsActive commanded
  in_executing : IsActive executing

-- `Transition s t r` is the row "s -> t : r".
pub data Transition : CommandStatus → CommandStatus → Reason → Type 0 where
  re_issue : {s : CommandStatus} → IsActive s → Transition s issued updated
  accept : Transition issued commanded succeeded
  start : Transition commanded executing succeeded
  finish : Transition executing completed succeeded
  revoke : {s : CommandStatus} → IsActive s → Transition s CommandStatus.canceled Reason.canceled
  break_down : {s : CommandStatus} → IsActive s → Transition s failed service_failed
  interrupt : {s : CommandStatus} → IsActive s → Transition s failed interrupted
  time_out : {s : CommandStatus} → IsActive s → Transition s failed timeout
  invalid : Transition issued failed validation_failed
  lack_issued : Transition issued failed resource_failed
  lack_executing : Transition executing failed resource_failed
  refuse : Transition commanded failed resource_rejected
  miss : Transition executing failed objective_failed

ruleset active = (in_issued, in_commanded, in_executing)

ruleset rows = (
  re_issue, accept, start, finish, revoke, break_down, interrupt, time_out, invalid, lack_issued,
  lack_executing, refuse, miss,
)

pub step-Transition :
    (s : CommandStatus) (q : Reason) (e : Event)
    → let m : CommandStateMachine = record { current_state = s; current_reason = q } in
      (step m e).1 ≡ true → Transition s (step m e).0.current_state (step m e).0.current_reason
unfolding step
step-Transition s q e h = grind (arith, rows, active)

-- The event that takes a row.
abbrev pub event_of : CommandStatus → Reason → Event
event_of failed r = fails r
event_of s updated = updates
event_of CommandStatus.canceled r = cancels
event_of s r = advances

Transition-step_lem :
    {s t : CommandStatus} {r : Reason}
    → Transition s t r
    → (q : Reason)
    → step (record { current_state = s; current_reason = q }) (event_of t r)
      ≡ (record { current_state = t; current_reason = r }, true)
unfolding step
Transition-step_lem (re_issue in_issued) q = refl
Transition-step_lem (re_issue in_commanded) q = refl
Transition-step_lem (re_issue in_executing) q = refl
Transition-step_lem accept q = refl
Transition-step_lem start q = refl
Transition-step_lem finish q = refl
Transition-step_lem (revoke in_issued) q = refl
Transition-step_lem (revoke in_commanded) q = refl
Transition-step_lem (revoke in_executing) q = refl
Transition-step_lem (break_down in_issued) q = refl
Transition-step_lem (break_down in_commanded) q = refl
Transition-step_lem (break_down in_executing) q = refl
Transition-step_lem (interrupt in_issued) q = refl
Transition-step_lem (interrupt in_commanded) q = refl
Transition-step_lem (interrupt in_executing) q = refl
Transition-step_lem (time_out in_issued) q = refl
Transition-step_lem (time_out in_commanded) q = refl
Transition-step_lem (time_out in_executing) q = refl
Transition-step_lem invalid q = refl
Transition-step_lem lack_issued q = refl
Transition-step_lem lack_executing q = refl
Transition-step_lem refuse q = refl
Transition-step_lem miss q = refl

abbrev pub at : CommandStatus → Reason → CommandStateMachine
at s q = record { current_state = s; current_reason = q }

taken-Transition :
    (s t : CommandStatus) (q r : Reason) (e : Event)
    → step (at s q) e ≡ (at t r, true)
    → Transition s t r
taken-Transition s t q r e taken =
    let row = step-Transition s q e (ap (λ p. p.1) taken) in
    subst (λ m. Transition s m.current_state m.current_reason) (ap (λ p. p.0) taken) row

true_or_refused :
    (m : CommandStateMachine) (e : Event) → ((step m e).1 ≡ true) ⊎ (step m e ≡ (m, false))
unfolding step
true_or_refused m e = ground arith

-- A row of the documented table leads from one state to another with a reason exactly when some
-- call with a Boolean result returns true there and leaves the machine in that state with that
-- reason, whatever its earlier reason was; and every such call returns true or leaves the machine
-- as it was and returns false.
pub step_is_documented :
    (s t : CommandStatus) (q r : Reason) (call : Event)
    → (Transition s t r ↔ ((e : Event) × (step (at s q) e ≡ (at t r, true))))
      × (((step (at s q) call).1 ≡ true) ⊎ (step (at s q) call ≡ (at s q, false)))
step_is_documented s t q r call = (
  (
    λ row. (event_of t r, Transition-step_lem row q),
    λ (e, taken). taken-Transition s t q r e taken,
  ),
  true_or_refused (at s q) call,
)
