-- ===== src/StateMachine/Task.antt =====
-- umaa/TaskStateMachine.cpp and .h: the life of a task, mission plan or objective execution. The
-- header's comment lists the 17 states; the machine's whole object is its current state.
pub mod Transitions
pub mod Traces
use umaa_cpp.Base.{Bool, true, false, Option, none, some, is_some, not, ◌&&◌, if◌then◌else◌}

pub data TaskState : Type 0 where
  awaiting_execution_approval canceled canceling completed executing : TaskState
  execution_approved failed not_planned not_queued paused pausing : TaskState
  planned planning queued queuing restarting resuming : TaskState

abbrev pub success_state_map : TaskState → Option TaskState
success_state_map not_planned = some planning
success_state_map planning = some planned
success_state_map planned = some awaiting_execution_approval
success_state_map awaiting_execution_approval = some execution_approved
success_state_map execution_approved = some not_queued
success_state_map not_queued = some queuing
success_state_map queuing = some queued
success_state_map queued = some executing
success_state_map executing = some completed
success_state_map pausing = some paused
success_state_map resuming = some not_planned
success_state_map canceling = some canceled
success_state_map restarting = some not_planned
success_state_map _ = none

abbrev pub is_state_final : TaskState → Bool
is_state_final paused = false
is_state_final s = not (is_some (success_state_map s))

abbrev pub initial : TaskState
initial = not_planned

abbrev is_canceling : TaskState → Bool
is_canceling canceling = true
is_canceling _ = false

unfoldable pub advance_state : TaskState → TaskState × Bool
advance_state s = elim (success_state_map s) [ none ↦ (s, false) | some next ↦ (next, true) ]

unfoldable pub update : TaskState → TaskState × Bool
update planning = (not_planned, true)
update planned = (not_planned, true)
update awaiting_execution_approval = (not_planned, true)
update execution_approved = (not_planned, true)
update not_queued = (not_planned, true)
update queuing = (not_planned, true)
update queued = (not_planned, true)
update executing = (not_planned, true)
update s = (s, false)

unfoldable pub pause : TaskState → TaskState × Bool
pause not_planned = (pausing, true)
pause planning = (pausing, true)
pause planned = (pausing, true)
pause awaiting_execution_approval = (pausing, true)
pause execution_approved = (pausing, true)
pause not_queued = (pausing, true)
pause queuing = (pausing, true)
pause queued = (pausing, true)
pause executing = (pausing, true)
pause s = (s, false)

unfoldable pub resume : TaskState → TaskState × Bool
resume paused = (resuming, true)
resume s = (s, false)

unfoldable pub cancel : TaskState → TaskState × Bool
cancel s = if not (is_state_final s) && not (is_canceling s) then (canceling, true) else (s, false)

unfoldable pub fail : TaskState → TaskState × Bool
fail s = if not (is_state_final s) && not (is_canceling s) then (failed, true) else (s, false)

unfoldable pub restart : TaskState → TaskState × Bool
restart not_planned = (not_planned, false)
restart s = (restarting, true)

unfoldable pub reset : TaskState → TaskState
reset s = not_planned

-- The public methods that change the object and return a Boolean.
pub data Event : Type 0 where
  advances updates pauses resumes cancels fails restarts : Event

unfoldable pub step : TaskState → Event → TaskState × Bool
unfolding advance_state update pause resume cancel fail restart
step s advances = advance_state s
step s updates = update s
step s pauses = pause s
step s resumes = resume s
step s cancels = cancel s
step s fails = fail s
step s restarts = restart s

-- The public methods that change the object: those, and `reset`, which returns nothing.
pub data Call : Type 0 where
  answers : Event → Call
  resets : Call

unfoldable pub call : TaskState → Call → TaskState × Option Bool
unfolding step reset
call s (answers e) = let (s', accepted) = step s e in (s', some accepted)
call s resets = (reset s, none)
