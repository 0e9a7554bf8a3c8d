-- ===== src/StateMachine/Examples.antt =====
-- The theorems on the state machines at concrete histories.
use umaa_cpp.Base.{
  arith, ◌≡◌, ◌↔◌, ◌⊎◌, ◌&&◌, ◌||◌, not, List, ◌++◌, refl, true, false, [], ◌∷◌, replicate,
}
use umaa_cpp.Base.Machine.{run}
use umaa_cpp.StateMachine.Command as C
use umaa_cpp.StateMachine.Command.Transitions as CT
use umaa_cpp.StateMachine.Command.Traces as CR
use umaa_cpp.StateMachine.Task as T
use umaa_cpp.StateMachine.Task.Transitions as TT
use umaa_cpp.StateMachine.Task.Traces as TR
use umaa_cpp.StateMachine.Objective as O
use umaa_cpp.StateMachine.Objective.Transitions as OT
use umaa_cpp.StateMachine.Objective.Traces as OR

step_is_documented_example :
    (CT.Transition C.executing C.failed C.objective_failed ↔ (
      (e : C.Event) × (C.step (CT.at C.executing C.succeeded) e
        ≡ (CT.at C.failed C.objective_failed, true))))
    × (((C.step (CT.at C.executing C.succeeded) C.advances).1 ≡ true)
        ⊎ (C.step (CT.at C.executing C.succeeded) C.advances
            ≡ (CT.at C.executing C.succeeded, false)))
step_is_documented_example =
    CT.step_is_documented C.executing C.failed C.succeeded C.objective_failed C.advances

run-Consistent_example :
    CR.Consistent
      (run C.call C.initial (C.answers C.advances ∷ C.resets ∷ C.answers C.updates ∷ []))
run-Consistent_example =
    CR.run-Consistent (C.answers C.advances ∷ C.resets ∷ C.answers C.updates ∷ [])

final_absorbs_example :
    (run C.call (CT.at C.completed C.succeeded) (C.answers C.cancels ∷ C.answers C.advances ∷ [])
      ≡ CT.at C.completed C.succeeded)
    × (run C.call (CT.at C.completed C.succeeded) (
          (C.answers C.cancels ∷ C.answers C.advances ∷ []) ++ C.resets ∷ C.answers C.advances ∷ [])
        ≡ run C.call C.initial (C.answers C.advances ∷ []))
final_absorbs_example =
    CR.final_absorbs (CT.at C.completed C.succeeded)
      (C.answers C.cancels ∷ C.answers C.advances ∷ []) (C.answers C.advances ∷ []) refl
      (ground arith, (ground arith, tt))

step_against_table_example :
    (((e : T.Event) × (T.step T.planned e ≡ (T.not_planned, true))) ↔ (
      ((TT.is_documented T.planned T.not_planned
          && not (TT.is_early_approval T.planned T.not_planned))
        || TT.is_unlisted T.planned T.not_planned)
      ≡ true))
    × (((T.step T.planned T.updates).1 ≡ true) ⊎ (T.step T.planned T.updates ≡ (T.planned, false)))
step_against_table_example = TT.step_against_table T.planned T.not_planned T.updates

-- A task that is reset while it is planned and then goes all the way to its execution.
abbrev reset_once : List T.Call
reset_once = T.answers T.advances ∷ T.resets ∷ replicate 8 (T.answers T.advances)

final_until_restart_example :
    (run T.call T.failed (T.answers T.resumes ∷ T.answers T.updates ∷ []) ≡ T.failed)
    × (run T.call T.failed
          ((T.answers T.resumes ∷ T.answers T.updates ∷ []) ++ T.resets ∷ T.answers T.advances ∷ [])
        ≡ run T.call T.initial (T.answers T.advances ∷ []))
final_until_restart_example =
    TR.final_until_restart T.failed (T.answers T.resumes ∷ T.answers T.updates ∷ [])
      (T.answers T.advances ∷ []) refl
      (ground arith, ground arith, (ground arith, ground arith, tt))

run-Fits_example :
    OR.Consistent (run O.call O.initial (O.answers O.advances ∷ O.answers O.pauses ∷ O.resets ∷ []))
run-Fits_example = OR.run-Fits (O.answers O.advances ∷ O.answers O.pauses ∷ O.resets ∷ [])
