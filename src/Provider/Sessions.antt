-- ===== src/Provider/Sessions.antt =====
-- What a cycle does to one session: it takes steps of the command state machine.
use umaa_cpp.Base.{
  ◌∙◌, ◌||◌, Bool-cases, ℕ, suc, ◌≤◌, ◌≡◌, refl, ap, Bool, true, false, List, [], ◌∷◌, ◌++◌, ◌==◌,
  not, inl, inr, if◌then◌else◌, arith,
}
use native.Mathlib.Nat.{le_refl}
use umaa_cpp.Base.Table.{contains}
use umaa_cpp.Base.Machine.{run, run-append}
use umaa_cpp.StateMachine.Command as C
use umaa_cpp.Transport.{is_error}
use umaa_cpp.Provider.{
  Session, send_execution_status, World, Env, Turn, ask, StateResult, stay, advance, err,
}
use umaa_cpp.Provider.Handlers.{
  is_succeeded, code, conclude, handle_failure, handle_cancel, handle_completed, proceed,
  handle_issued, handle_commanded, executed, handle_executing, cycle_session,
}

-- Some calls of the state machine's methods lead from one record to the other.
abbrev pub Leads : C.CommandStateMachine → C.CommandStateMachine → Type 0
Leads m n = (es : List C.Event) × (run C.step m es ≡ n)

pub Leads-trans : {a b c : C.CommandStateMachine} → Leads a b → Leads b c → Leads a c
Leads-trans {a} (es, h) (fs, k) =
    (es ++ fs, run-append C.step a es fs ∙ ap (λ m. run C.step m fs) h ∙ k)

-- The key is among the final ids if the session is in a final state.
abbrev pub is_listed : {A : Type 0} → ℕ → Session A → List ℕ → Bool
is_listed k s ids = not (C.is_state_final s.state.current_state) || contains k ids

module _ {A : Type 0} (env : Env A) where
  -- A handler's turn keeps the session's id, and takes its state onward by calls of the state
  -- machine.
  pub record Follows (s : Session A) (t : Turn A) : Type 0 where
    pub same_id : t.session.id ≡ s.id
    pub leads : Leads s.state t.session.state
    pub onward : code s.state.current_state ≤ code t.session.state.current_state

  failure-Follows :
      (r : C.Reason) (s : Session A) (w : World A) → Follows s (handle_failure env r s w)
  unfolding handle_failure conclude C.step C.fail
  failure-Follows r s w = record {
    same_id = ground arith;
    leads = (C.fails r ∷ [], ground arith);
    onward = ground arith;
  }

  pub cancel-Follows : (s : Session A) (w : World A) → Follows s (handle_cancel env s w)
  unfolding handle_cancel conclude C.step C.cancel
  cancel-Follows s w = record {
    same_id = ground arith;
    leads = (C.cancels ∷ [], ground arith);
    onward = ground arith;
  }

  unmoved :
      (b : Bool) (s : Session A) (w : World A)
      → Follows s (record { result = b; session = s; world = w })
  unmoved b s w = record { same_id = refl; leads = ([], refl); onward = le_refl _ }

  completed-Follows : (s : Session A) (w : World A) → Follows s (handle_completed env s w)
  unfolding handle_completed conclude C.step C.advance_state
  completed-Follows s w = elim (Bool-cases (code s.state.current_state == 2)) [
    | inl h ↦ record {
      same_id = ground arith;
      leads = (C.advances ∷ [], ground (arith, h));
      onward = ground (arith, h);
    }
    | inr h ↦ record {
      same_id = ground arith;
      leads = ([], ground (arith, h));
      onward = ground (arith, h);
    }
  ]

  proceed-Follows : (r : StateResult) (s : Session A) (w : World A) → Follows s (proceed env r s w)
  unfolding proceed C.step C.advance_state
  proceed-Follows stay s w = record { same_id = refl; leads = ([], refl); onward = le_refl _ }
  proceed-Follows err s w = failure-Follows C.service_failed s w
  proceed-Follows advance s w = record {
    same_id = ground arith;
    leads = (C.advances ∷ [], ground arith);
    onward = ground arith;
  }

  if-Follows :
      (b : Bool) (s : Session A) (t u : Turn A)
      → Follows s t
      → Follows s u
      → Follows s (if b then t else u)
  if-Follows true s t u h k = h
  if-Follows false s t u h k = k

  pub issued-Follows : (s : Session A) (w : World A) → Follows s (handle_issued env s w)
  unfolding handle_issued
  issued-Follows s w =
      if-Follows _ s _ _ (unmoved false s w)
        (if-Follows _ s _ _ (failure-Follows C.validation_failed s _) (proceed-Follows _ s _))

  commanded-Follows : (s : Session A) (w : World A) → Follows s (handle_commanded env s w)
  unfolding handle_commanded
  commanded-Follows s w = if-Follows _ s _ _ (unmoved false s w) (proceed-Follows _ s _)

  sent-Follows :
      (b : Bool) (s : Session A) (w w' : World A)
      → Follows s (record { result = b; session = (send_execution_status env s w).1; world = w' })
  sent-Follows b s w w' = record {
    same_id = ground arith;
    leads = ([], ground arith);
    onward = ground arith;
  }

  executed-Follows : (b : Bool) (s : Session A) (w : World A) → Follows s (executed env b s w)
  unfolding executed
  executed-Follows b s w =
      let reason = env.is_command_failed w.asked s in
      let completed = env.is_command_completed (suc w.asked) s in
      let w2 = if b then ask w else ask (ask w) in
      let (sent, s', w3) = send_execution_status env s w2 in
      let last : Turn A = record { result = not (is_error sent); session = s'; world = w3 } in
      let done = handle_completed env s w2 in
      if-Follows (not (is_succeeded reason)) s (handle_failure env reason s (ask w))
        (if b || completed then done else last) (failure-Follows reason s (ask w))
        (if-Follows (b || completed) s done last (completed-Follows s w2)
          (sent-Follows (not (is_error sent)) s w2 w3))

  executing-Follows : (s : Session A) (w : World A) → Follows s (handle_executing env s w)
  unfolding handle_executing
  executing-Follows s w =
      if-Follows _ s _ _ (unmoved false s w) (answered (env.on_executing w.asked s))
    where
      answered :
          (r : StateResult)
          → Follows s (elim r [
            | err ↦ handle_failure env C.service_failed s (ask w)
            | advance ↦ executed env true s (ask w)
            | stay ↦ executed env false s (ask w)
          ])
      answered err = failure-Follows C.service_failed s (ask w)
      answered advance = executed-Follows true s (ask w)
      answered stay = executed-Follows false s (ask w)

  pub cycle_session-Follows : (s : Session A) (w : World A) → Follows s (cycle_session env s w)
  unfolding cycle_session
  cycle_session-Follows s w = by_state s.state.current_state
    where
      by_state :
          (c : C.CommandStatus)
          → Follows s (elim c [
            | C.issued ↦ handle_issued env s w
            | C.commanded ↦ handle_commanded env s w
            | C.executing ↦ handle_executing env s w
            | _ ↦ record { result = true; session = s; world = w }
          ])
      by_state C.issued = issued-Follows s w
      by_state C.commanded = commanded-Follows s w
      by_state C.executing = executing-Follows s w
      by_state C.completed = unmoved true s w
      by_state C.canceled = unmoved true s w
      by_state C.failed = unmoved true s w
