-- ===== src/StateMachine/Objective/Transitions.antt =====
-- The table of valid transitions in the comment of
-- umaa/objective-executors/core/ObjectiveStateMachine.h, beside the code.
use umaa_cpp.Base.{◌≡◌, true}
use umaa_cpp.StateMachine.Objective.{
  ObjectiveState, canceled, canceling, completed, executing, failed, modifying, paused, pausing,
  queued, resuming, Reason, succeeded, bus_msg_update, commanded, bus_msg_dispose, is_valid,
  ObjectiveStateMachine, Event, advances, updates, pauses, resumes, cancels, fails,
}

-- The states from which the table lists a cancellation and the failures.
pub data IsLive : ObjectiveState → Type 0 where
  in_queued : IsLive queued
  in_executing : IsLive executing
  in_modifying : IsLive modifying
  in_pausing : IsLive pausing
  in_paused : IsLive paused
  in_resuming : IsLive resuming

-- `Transition s t r` is the row "s -> t : r". The first row carries the code's reason.
pub data Transition : ObjectiveState → ObjectiveState → Reason → Type 0 where
  start : Transition queued executing succeeded
  finish : Transition executing completed succeeded
  modify : Transition executing modifying bus_msg_update
  modified : Transition modifying executing succeeded
  hold : Transition executing pausing commanded
  held : Transition pausing paused succeeded
  carry_on : Transition paused resuming commanded
  carried_on : Transition resuming executing succeeded
  revoke : {s : ObjectiveState} → IsLive s → Transition s canceling bus_msg_dispose
  revoked : Transition canceling canceled succeeded
  break_down :
      {s : ObjectiveState} {r : Reason} → IsLive s → is_valid r ≡ true → Transition s failed r

ruleset live = (in_queued, in_executing, in_modifying, in_pausing, in_paused, in_resuming)

ruleset rows =
    (start, finish, modify, modified, hold, held, carry_on, carried_on, revoke, revoked, break_down)

abbrev pub at : ObjectiveState → Reason → ObjectiveStateMachine
at s q = record { current_state = s; current_reason = q }

-- The event that takes a row.
abbrev event_of : ObjectiveState → Reason → Event
event_of failed r = fails r
event_of canceling r = cancels
event_of modifying r = updates
event_of pausing r = pauses
event_of resuming r = resumes
event_of s r = advances
