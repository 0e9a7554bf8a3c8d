-- ===== src/StateMachine/Task/Transitions.antt =====
-- The table of valid transitions in the comment of umaa/TaskStateMachine.h, beside the code.
use umaa_cpp.Base.{◌↔◌, ◌&&◌, ◌||◌, not, ap, subst, false, ◌≡◌, ◌⊎◌, Bool, true, arith}
use umaa_cpp.StateMachine.Task.{
  TaskState, awaiting_execution_approval, canceled, canceling, completed, executing,
  execution_approved, failed, not_planned, not_queued, paused, pausing, planned, planning, queued,
  queuing, restarting, resuming, Event, advances, updates, pauses, resumes, cancels, fails,
  restarts, step,
}

-- The rows of the table, by their source state.
abbrev pub is_documented : TaskState → TaskState → Bool
is_documented not_planned planning = true
is_documented not_planned pausing = true
is_documented not_planned _ = false
is_documented planned execution_approved = true
is_documented awaiting_execution_approval canceling = true
is_documented executing failed = true
is_documented restarting not_planned = true
is_documented restarting _ = false
is_documented planning planned = true
is_documented planned awaiting_execution_approval = true
is_documented awaiting_execution_approval execution_approved = true
is_documented execution_approved not_queued = true
is_documented not_queued queuing = true
is_documented queuing queued = true
is_documented queued executing = true
is_documented executing completed = true
is_documented canceling canceled = true
is_documented pausing paused = true
is_documented paused resuming = true
is_documented resuming not_planned = true
is_documented planning pausing = true
is_documented planned pausing = true
is_documented awaiting_execution_approval pausing = true
is_documented execution_approved pausing = true
is_documented not_queued pausing = true
is_documented queuing pausing = true
is_documented queued pausing = true
is_documented executing pausing = true
is_documented _ restarting = true
is_documented _ _ = false

-- Whether an update is accepted in the state.
abbrev pub is_updatable : TaskState → Bool
is_updatable planning = true
is_updatable planned = true
is_updatable awaiting_execution_approval = true
is_updatable execution_approved = true
is_updatable not_queued = true
is_updatable queuing = true
is_updatable queued = true
is_updatable executing = true
is_updatable s = false

-- Whether a cancellation or a failure is accepted in the state.
abbrev pub is_active : TaskState → Bool
is_active s = is_updatable s || is_inactive s
  where
    is_inactive : TaskState → Bool
    is_inactive not_planned = true
    is_inactive pausing = true
    is_inactive paused = true
    is_inactive resuming = true
    is_inactive restarting = true
    is_inactive s = false

-- The moves that the table lacks: an update to NOT_PLANNED, a cancellation to CANCELING, a failure
-- to FAILED, and a restart while RESTARTING.
abbrev pub is_unlisted : TaskState → TaskState → Bool
is_unlisted s not_planned = is_updatable s
is_unlisted s canceling = is_active s
is_unlisted s failed = is_active s
is_unlisted restarting restarting = true
is_unlisted s t = false

-- PLANNED -> EXECUTION_APPROVED.
abbrev pub is_early_approval : TaskState → TaskState → Bool
is_early_approval planned execution_approved = true
is_early_approval s t = false

abbrev is_taken : TaskState → TaskState → Bool
is_taken s t = (is_documented s t && not (is_early_approval s t)) || is_unlisted s t

taken : (s : TaskState) (e : Event) → (step s e).1 ≡ true → is_taken s (step s e).0 ≡ true
unfolding step
taken s e h = ground arith

-- The event that takes a row.
abbrev event_to : TaskState → TaskState → Event
event_to restarting not_planned = advances
event_to resuming not_planned = advances
event_to s not_planned = updates
event_to s pausing = pauses
event_to s restarting = restarts
event_to s resuming = resumes
event_to canceling canceled = advances
event_to s canceling = cancels
event_to s failed = fails
event_to s t = advances

rows : (s t : TaskState) → is_taken s t ≡ true → step s (event_to s t) ≡ (t, true)
unfolding step
rows s t h = ground arith

true_or_refused : (s : TaskState) (e : Event) → ((step s e).1 ≡ true) ⊎ (step s e ≡ (s, false))
unfolding step
true_or_refused s e = ground arith

-- Some call with a Boolean result returns true and takes the task from one state to another exactly
-- when the move is a row of the documented table other than PLANNED -> EXECUTION_APPROVED, or one
-- of the moves that the table lacks: an update to NOT_PLANNED, a cancellation to CANCELING, a
-- failure to FAILED, a restart while RESTARTING. Every such call returns true or leaves the state
-- and returns false.
pub step_against_table :
    (s t : TaskState) (call : Event)
    → (((e : Event) × (step s e ≡ (t, true)))
        ↔ (((is_documented s t && not (is_early_approval s t)) || is_unlisted s t) ≡ true))
      × (((step s call).1 ≡ true) ⊎ (step s call ≡ (s, false)))
step_against_table s t call = (
  (
    λ (e, h). subst (λ u. is_taken s u ≡ true) (ap (λ p. p.0) h) (taken s e (ap (λ p. p.1) h)),
    λ h. (event_to s t, rows s t h),
  ),
  true_or_refused s call,
)
