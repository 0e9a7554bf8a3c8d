-- ===== src/StateMachine/Objective/Traces.antt =====
-- What holds of an objective after any sequence of calls, resets included.
use umaa_cpp.Base.{◌≡◌, ◌≢◌, refl, true, false, List, [], ◌∷◌, arith}
use umaa_cpp.Base.Machine.{run, run-Inv}
use umaa_cpp.StateMachine.Objective.{
  ObjectiveState, canceled, canceling, failed, modifying, pausing, resuming, Reason, succeeded,
  bus_msg_update, commanded, bus_msg_dispose, is_valid, ObjectiveStateMachine, advances, cancels,
  step, Call, resets, call, reset, is_state_final, initial,
}

abbrev pub NoReset : List Call → Type 0
NoReset [] = Unit
NoReset (c ∷ cs) = (c ≢ resets) × NoReset cs

final_fixed :
    (m : ObjectiveStateMachine) (c : Call)
    → is_state_final m.current_state ≡ true
    → c ≢ resets
    → (call m c).0 ≡ m
unfolding call step
final_fixed m c h n = ground arith

-- A canceled, completed or failed objective does not change under any calls other than `reset`.
pub objective_final_absorbs :
    (m : ObjectiveStateMachine) (cs : List Call)
    → is_state_final m.current_state ≡ true
    → NoReset cs
    → run call m cs ≡ m
objective_final_absorbs m [] h n = refl
objective_final_absorbs m (c ∷ cs) h (n, ns) =
    rw (final_fixed m c h n) (objective_final_absorbs m cs h ns)

-- Of an objective in no final state a cancellation followed by one advance makes a canceled one.
pub cancel_completes :
    (m : ObjectiveStateMachine)
    → is_state_final m.current_state ≡ false
    → run step m (cancels ∷ advances ∷ [])
      ≡ record { current_state = canceled; current_reason = succeeded }
unfolding step
cancel_completes m h = ground arith

-- The reasons that a reachable state can carry.
abbrev Fits : ObjectiveState → Reason → Type 0
Fits canceling r = r ≡ bus_msg_dispose
Fits failed r = is_valid r ≡ true
Fits modifying r = r ≡ bus_msg_update
Fits pausing r = r ≡ commanded
Fits resuming r = r ≡ commanded
Fits _ r = r ≡ succeeded

abbrev pub Consistent : ObjectiveStateMachine → Type 0
Consistent m = Fits m.current_state m.current_reason

call-Fits : (m : ObjectiveStateMachine) (c : Call) → Consistent m → Consistent (call m c).0
unfolding call step reset
call-Fits m c h = ground arith

-- After any calls, resets included, the reason fits the state: BUS_MSG_DISPOSE while canceling,
-- BUS_MSG_UPDATE while modifying, COMMANDED while pausing or resuming, one of the eight failure
-- reasons when failed, and SUCCEEDED in every other state.
pub run-Fits : (cs : List Call) → Consistent (run call initial cs)
run-Fits cs = run-Inv call Consistent call-Fits initial cs refl
