-- ===== src/Provider/Handlers.antt =====
-- The handlers of CommandProviderBase.h: what one session goes through in a cycle. The session is
-- locked while it is handled, so that the weak pointer of the source is never expired.
use umaa_cpp.Base.{
  ℕ, zero, suc, Bool, true, false, Option, none, some, List, [], ◌∷◌, ◌++◌, ◌==◌, not, ◌||◌, ◌&&◌,
  if◌then◌else◌,
}
use umaa_cpp.StateMachine.Command as C
use umaa_cpp.Transport.{is_error}
use umaa_cpp.Provider.{
  Session, World, Env, Turn, StateResult, stay, advance, err, ask, send_status,
  send_execution_status,
}

abbrev pub is_succeeded : C.Reason → Bool
is_succeeded C.succeeded = true
is_succeeded _ = false

-- The order of the states in a command's life, by which states are compared.
abbrev pub code : C.CommandStatus → ℕ
code C.issued = 0
code C.commanded = 1
code C.executing = 2
code C.completed = 3
code C.canceled = 4
code C.failed = 5

module _ {A : Type 0} (env : Env A) where
  -- What follows a change of state in handleCompleted, handleCancel and handleFailure: the answer of
  -- the overridden method, the status and the execution status.
  unfoldable pub conclude : Bool → Session A → World A → Turn A
  conclude called s w =
      let (first, w1) = send_status env s w in
      let (second, s2, w2) = send_execution_status env s w1 in
      if not called
      then record { result = false; session = s; world = w }
      else (if is_error first
          then record { result = false; session = s; world = w1 }
          else record { result = not (is_error second); session = s2; world = w2 })

  unfoldable pub handle_failure : C.Reason → Session A → World A → Turn A
  unfolding conclude C.fail
  handle_failure reason s w =
      let (machine, moved) = C.fail s.state reason in
      let s' = record s { state = machine } in
      if not moved
      then record { result = false; session = s; world = w }
      else conclude (env.on_failed w.asked s') s' (ask w)

  unfoldable pub handle_cancel : Session A → World A → Turn A
  unfolding conclude C.cancel
  handle_cancel s w =
      let (machine, moved) = C.cancel s.state in
      let s' = record s { state = machine } in
      if not moved
      then record { result = true; session = s; world = w }
      else conclude (env.on_canceled w.asked s') s' (ask w)

  unfoldable pub handle_completed : Session A → World A → Turn A
  unfolding conclude C.advance_state
  handle_completed s w =
      let (machine, moved) = C.advance_state s.state in
      let s' = record s { state = machine } in
      if not (code s.state.current_state == 2) || not moved
      then record { result = false; session = s; world = w }
      else conclude (env.on_completed w.asked s') s' (ask w)

  -- How handleIssued and handleCommanded end after the overridden method has answered.
  unfoldable pub proceed : StateResult → Session A → World A → Turn A
  unfolding C.advance_state handle_failure
  proceed stay s w = record { result = true; session = s; world = w }
  proceed err s w = handle_failure C.service_failed s w
  proceed advance s w =
      let (machine, moved) = C.advance_state s.state in
      let s' = record s { state = machine } in
      let (sent, w') = send_status env s' w in
      if not moved
      then record { result = false; session = s; world = w }
      else record { result = not (is_error sent); session = s'; world = w' }

  unfoldable pub handle_issued : Session A → World A → Turn A
  unfolding proceed handle_failure
  handle_issued s w =
      if not (code s.state.current_state == 0)
      then record { result = false; session = s; world = w }
      else (if not (env.is_command_valid w.asked s.command)
          then handle_failure C.validation_failed s (ask w)
          else proceed (env.on_issued (suc w.asked) s) s (ask (ask w)))

  unfoldable pub handle_commanded : Session A → World A → Turn A
  unfolding proceed
  handle_commanded s w =
      if not (code s.state.current_state == 1)
      then record { result = false; session = s; world = w }
      else proceed (env.on_commanded w.asked s) s (ask w)

  -- How handleExecuting ends after onExecuting has answered without an error; the argument says
  -- whether it answered ADVANCE.
  unfoldable pub executed : Bool → Session A → World A → Turn A
  unfolding handle_failure handle_completed
  executed advances s w =
      let reason = env.is_command_failed w.asked s in
      let completed = env.is_command_completed (suc w.asked) s in
      let w1 = ask w in
      let w2 = if advances then w1 else ask w1 in
      let (sent, s', w3) = send_execution_status env s w2 in
      if not (is_succeeded reason)
      then handle_failure reason s w1
      else (if advances || completed
          then handle_completed s w2
          else record { result = not (is_error sent); session = s'; world = w3 })

  unfoldable pub handle_executing : Session A → World A → Turn A
  unfolding executed handle_failure
  handle_executing s w =
      if not (code s.state.current_state == 2)
      then record { result = false; session = s; world = w }
      else (elim (env.on_executing w.asked s) [
        | err ↦ handle_failure C.service_failed s (ask w)
        | advance ↦ executed true s (ask w)
        | stay ↦ executed false s (ask w)
      ])

  -- cycleSession, without the list of final sessions.
  unfoldable pub cycle_session : Session A → World A → Turn A
  unfolding handle_issued handle_commanded handle_executing
  cycle_session s w = elim s.state.current_state [
    | C.issued ↦ handle_issued s w
    | C.commanded ↦ handle_commanded s w
    | C.executing ↦ handle_executing s w
    | _ ↦ record { result = true; session = s; world = w }
  ]

  -- The ids that cycleSession adds to the final sessions.
  abbrev pub finals_of : Session A → List ℕ
  finals_of s = if C.is_state_final s.state.current_state then s.id ∷ [] else []

  -- The `do` loop of `cycle` on one session; `none` is the end of the fuel.
  unfoldable pub cycle_rounds : ℕ → List ℕ → Session A → World A → Option (Turn A × List ℕ)
  unfolding cycle_session
  cycle_rounds zero finals s w = none
  cycle_rounds (suc fuel) finals s w =
      let t = cycle_session s w in
      let rest = cycle_rounds fuel (finals ++ finals_of s) t.session t.world in
      if t.result && not (code s.state.current_state == code t.session.state.current_state)
      then rest
      else some (t, finals ++ finals_of s)

  unfoldable pub handle_update : A → ℕ → Session A → World A → Turn A
  unfolding handle_issued C.update
  handle_update command id s w =
      let (machine, moved) = C.update s.state in
      let s' = record s { state = machine; command = command } in
      let (sent, w2) = send_status env s' (ask w) in
      if not (id == s.id) || not moved
      then record { result = false; session = s; world = w }
      else (if not (env.on_updated w.asked s' s.command command)
          then record { result = false; session = s'; world = ask w }
          else (if is_error sent
              then record { result = false; session = s'; world = w2 }
              else handle_issued s' w2))
