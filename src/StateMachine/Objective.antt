-- ===== src/StateMachine/Objective.antt =====
-- umaa/objective-executors/core/ObjectiveStateMachine.cpp and .h: the life of an executed
-- objective. `Reason.other` stands for the enumerators of the generated reason type that the
-- source does not name.
pub mod Transitions
pub mod Traces
use umaa_cpp.Base.{ℕ, Bool, true, false, Option, none, some, not, ◌&&◌, if◌then◌else◌}

pub data ObjectiveState : Type 0 where
  canceled canceling completed executing failed : ObjectiveState
  modifying paused pausing queued resuming : ObjectiveState

pub data Reason : Type 0 where
  succeeded bus_msg_update commanded bus_msg_dispose : Reason
  cannot_perform_under_constraints internal_failure lower_service_failed : Reason
  lower_service_timeout lower_service_rejected lower_service_interrupted : Reason
  objective_replaced command_validation_failed : Reason
  other : ℕ → Reason

pub record ObjectiveStateMachine : Type 0 where
  pub current_state : ObjectiveState
  pub current_reason : Reason

abbrev pub success_state_map : ObjectiveState → Option ObjectiveState
success_state_map queued = some executing
success_state_map executing = some completed
success_state_map modifying = some executing
success_state_map pausing = some paused
success_state_map resuming = some executing
success_state_map canceling = some canceled
success_state_map _ = none

abbrev pub is_state_final : ObjectiveState → Bool
is_state_final canceled = true
is_state_final completed = true
is_state_final failed = true
is_state_final _ = false

abbrev is_canceling : ObjectiveState → Bool
is_canceling canceling = true
is_canceling _ = false

abbrev pub initial : ObjectiveStateMachine
initial = record { current_state = queued; current_reason = succeeded }

abbrev moved : ObjectiveState → Reason → ObjectiveStateMachine × Bool
moved s r = (record { current_state = s; current_reason = r }, true)

unfoldable pub advance_state : ObjectiveStateMachine → ObjectiveStateMachine × Bool
advance_state m = elim (success_state_map m.current_state) [
  | none ↦ (m, false)
  | some next ↦ moved next succeeded
]

unfoldable pub update : ObjectiveStateMachine → ObjectiveStateMachine × Bool
update m = elim m.current_state [ executing ↦ moved modifying bus_msg_update | _ ↦ (m, false) ]

unfoldable pub pause : ObjectiveStateMachine → ObjectiveStateMachine × Bool
pause m = elim m.current_state [ executing ↦ moved pausing commanded | _ ↦ (m, false) ]

unfoldable pub resume : ObjectiveStateMachine → ObjectiveStateMachine × Bool
resume m = elim m.current_state [ paused ↦ moved resuming commanded | _ ↦ (m, false) ]

unfoldable pub cancel : ObjectiveStateMachine → ObjectiveStateMachine × Bool
cancel m =
    if not (is_state_final m.current_state) && not (is_canceling m.current_state)
    then moved canceling bus_msg_dispose
    else (m, false)

-- The `switch` of `fail`: whether the reason is one of failure.
abbrev pub is_valid : Reason → Bool
is_valid cannot_perform_under_constraints = true
is_valid internal_failure = true
is_valid lower_service_failed = true
is_valid lower_service_timeout = true
is_valid lower_service_rejected = true
is_valid lower_service_interrupted = true
is_valid objective_replaced = true
is_valid command_validation_failed = true
is_valid _ = false

unfoldable pub fail : ObjectiveStateMachine → Reason → ObjectiveStateMachine × Bool
fail m reason =
    if not (is_state_final m.current_state) && not (is_canceling m.current_state)
    then (if is_valid reason then moved failed reason else (m, false))
    else (m, false)

unfoldable pub reset : ObjectiveStateMachine → ObjectiveStateMachine
reset m = initial

-- The public methods that change the object and return a Boolean.
pub data Event : Type 0 where
  advances updates pauses resumes cancels : Event
  fails : Reason → Event

unfoldable pub step : ObjectiveStateMachine → Event → ObjectiveStateMachine × Bool
unfolding advance_state update pause resume cancel fail
step m advances = advance_state m
step m updates = update m
step m pauses = pause m
step m resumes = resume m
step m cancels = cancel m
step m (fails reason) = fail m reason

-- The public methods that change the object: those, and `reset`, which returns nothing.
pub data Call : Type 0 where
  answers : Event → Call
  resets : Call

unfoldable pub call : ObjectiveStateMachine → Call → ObjectiveStateMachine × Option Bool
unfolding step reset
call m (answers e) = let (m', accepted) = step m e in (m', some accepted)
call m resets = (reset m, none)
