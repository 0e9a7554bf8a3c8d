-- ===== src/StateMachine/Command.antt =====
-- umaa/CommandStateMachine.cpp and .h: the life of an issued UMAA command. A method that changes
-- the object returns the new record with its Boolean result. `Reason.other` stands for the
-- enumerators of the generated reason type that the source does not name.
pub mod Transitions
pub mod Traces
use umaa_cpp.Base.{ℕ, Bool, true, false, Option, none, some, is_some, not, if◌then◌else◌}

pub data CommandStatus : Type 0 where
  issued commanded executing completed canceled failed : CommandStatus

pub data Reason : Type 0 where
  succeeded updated canceled service_failed interrupted timeout : Reason
  resource_failed validation_failed resource_rejected objective_failed : Reason
  other : ℕ → Reason

pub record CommandStateMachine : Type 0 where
  pub current_state : CommandStatus
  pub current_reason : Reason

abbrev pub success_state_map : CommandStatus → Option CommandStatus
success_state_map issued = some commanded
success_state_map commanded = some executing
success_state_map executing = some completed
success_state_map _ = none

abbrev pub is_state_final : CommandStatus → Bool
is_state_final s = not (is_some (success_state_map s))

abbrev pub initial : CommandStateMachine
initial = record { current_state = issued; current_reason = succeeded }

abbrev moved : CommandStatus → Reason → CommandStateMachine × Bool
moved s r = (record { current_state = s; current_reason = r }, true)

unfoldable pub advance_state : CommandStateMachine → CommandStateMachine × Bool
advance_state m = elim (success_state_map m.current_state) [
  | none ↦ (m, false)
  | some next ↦ moved next succeeded
]

unfoldable pub update : CommandStateMachine → CommandStateMachine × Bool
update m = if not (is_state_final m.current_state) then moved issued updated else (m, false)

unfoldable pub cancel : CommandStateMachine → CommandStateMachine × Bool
cancel m =
    if not (is_state_final m.current_state)
    then moved CommandStatus.canceled Reason.canceled
    else (m, false)

-- The `switch` of `fail`: whether the reason is one for the current state.
abbrev pub is_valid : CommandStatus → Reason → Bool
is_valid s service_failed = true
is_valid s interrupted = true
is_valid s timeout = true
is_valid issued resource_failed = true
is_valid executing resource_failed = true
is_valid issued validation_failed = true
is_valid commanded resource_rejected = true
is_valid executing objective_failed = true
is_valid _ _ = false

unfoldable pub fail : CommandStateMachine → Reason → CommandStateMachine × Bool
fail m reason =
    if not (is_state_final m.current_state)
    then (if is_valid m.current_state reason then moved failed reason else (m, false))
    else (m, false)

unfoldable pub reset : CommandStateMachine → CommandStateMachine
reset m = initial

-- The public methods that change the object and return a Boolean.
pub data Event : Type 0 where
  advances updates cancels : Event
  fails : Reason → Event

unfoldable pub step : CommandStateMachine → Event → CommandStateMachine × Bool
unfolding advance_state update cancel fail
step m advances = advance_state m
step m updates = update m
step m cancels = cancel m
step m (fails reason) = fail m reason

-- The public methods that change the object: those, and `reset`, which returns nothing.
pub data Call : Type 0 where
  answers : Event → Call
  resets : Call

unfoldable pub call : CommandStateMachine → Call → CommandStateMachine × Option Bool
unfolding step reset
call m (answers e) = let (m', accepted) = step m e in (m', some accepted)
call m resets = (reset m, none)
