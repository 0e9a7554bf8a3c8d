-- ===== src/Provider/Incoming.antt =====
-- handleIncomingCommand of CommandProviderBase.h. A session whose last shared pointer goes is
-- destroyed, and disposes its messages.
use umaa_cpp.Base.{
  ℕ, Bool, true, false, Option, none, some, List, [], ◌∷◌, ◌++◌, ◌==◌, not, if◌then◌else◌,
}
use umaa_cpp.Base.Table.{lookup, insert, erase}
use umaa_cpp.StateMachine.Command as C
use umaa_cpp.Transport.{is_error, is_success}
use umaa_cpp.Provider.{
  Session, World, Env, Behavior, queue_incoming, accept_concurrent, cancel_existing,
  complete_existing, reject_incoming, received, disposed, read_error, read_not_implemented, no_data,
  invalid_data, ask, send_status, send_status_of, send_ack, new_session, destroy, destroy_all,
}
use umaa_cpp.Provider.Handlers.{handle_cancel, handle_failure, handle_update}

pub record Provider (A : Type 0) : Type 0 where
  pub behavior : Behavior
  pub active : List (ℕ × Session A)
  pub queue : List (Session A)
  pub world : World A

module _ {A : Type 0} where
  unfoldable pub set_behavior : Behavior → Provider A → Provider A
  set_behavior behavior p = record p { behavior = behavior }

  -- isQueued and the find_if: the first session of the queue with the id.
  abbrev pub find_queued : ℕ → List (Session A) → Option (Session A)
  find_queued id [] = none
  find_queued id (s ∷ ss) = if s.id == id then some s else find_queued id ss

  abbrev pub remove_queued : ℕ → List (Session A) → List (Session A)
  remove_queued id [] = []
  remove_queued id (s ∷ ss) = if s.id == id then ss else s ∷ remove_queued id ss

module _ {A : Type 0} (env : Env A) where
  -- `for_each` with handleFailure, whose results are dropped.
  unfoldable pub fail_all : List (ℕ × Session A) → World A → List (ℕ × Session A) × World A
  unfolding handle_failure
  fail_all [] w = ([], w)
  fail_all ((id, s) ∷ ss) w =
      let t = handle_failure env C.service_failed s w in
      let (rest, w') = fail_all ss t.world in ((id, t.session) ∷ rest, w')

  -- `all_of` with handleCancel, which stops at the first failure.
  unfoldable pub cancel_all : List (ℕ × Session A) → World A → Bool × List (ℕ × Session A) × World A
  unfolding handle_cancel
  cancel_all [] w = (true, [], w)
  cancel_all ((id, s) ∷ ss) w =
      let t = handle_cancel env s w in
      let (result, rest, w') = cancel_all ss t.world in
      if t.result
      then (result, (id, t.session) ∷ rest, w')
      else (false, (id, t.session) ∷ ss, t.world)

  -- `all_of` with the status COMPLETED, which stops at the first that is not sent.
  unfoldable pub complete_all : List (ℕ × Session A) → World A → Bool × World A
  complete_all [] w = (true, w)
  complete_all ((id, s) ∷ ss) w =
      let (sent, w') = send_status_of env C.completed C.succeeded s w in
      let rest = complete_all ss w' in if is_success sent then rest else (false, w')

  -- The end of handleIncomingCommand: the new session becomes active.
  unfoldable pub add_command : ℕ → A → Provider A → Bool × Provider A
  add_command id command p =
      let s = new_session id command in
      let p' = record p { active = insert id s p.active } in
      let (first, w1) = send_status env s p.world in
      let (second, w2) = send_ack env s w1 in
      if is_error first
      then (false, record p' { world = w1 })
      else (not (is_error second), record p' { world = w2 })

  unfoldable pub reject : ℕ → A → Provider A → Provider A
  unfolding C.fail
  reject id command p =
      let s = new_session id command in
      let (_, w1) = send_status env s p.world in
      let (_, w2) = send_ack env s w1 in
      let s' = record s { state = (C.fail s.state C.service_failed).0 } in
      let (_, w3) = send_status env s' w2 in record p { world = destroy env s' w3 }

  unfoldable pub enqueue : ℕ → A → Provider A → Provider A
  enqueue id command p =
      let s = new_session id command in
      let (_, w1) = send_status env s p.world in
      let (_, w2) = send_ack env s w1 in record p { queue = p.queue ++ s ∷ []; world = w2 }

  -- The `switch` on the behavior, for a new command while others are active.
  unfoldable pub while_busy : ℕ → A → Provider A → Bool × Provider A
  unfolding cancel_all complete_all add_command reject enqueue
  while_busy id command p = elim p.behavior [
    | accept_concurrent ↦ add_command id command p
    | cancel_existing ↦
        let (result, sessions, w) = cancel_all p.active p.world in
        let p' = record p { active = []; world = destroy_all env sessions w } in
        let added = add_command id command p' in if result then added else (false, p')
    | complete_existing ↦
        let (result, w) = complete_all p.active p.world in
        let p' = record p { active = []; world = destroy_all env p.active w } in
        let added = add_command id command p' in if result then added else (false, p')
    | reject_incoming ↦ (true, reject id command p)
    | queue_incoming ↦ (true, enqueue id command p)
  ]

  -- The cancellation of an active session: the front of the queue becomes active first, and takes
  -- the place of a session of the same id.
  unfoldable pub cancel_active : ℕ → Session A → Provider A → Bool × Provider A
  unfolding handle_cancel
  cancel_active id s p =
      let t = handle_cancel env s p.world in
      elim p.queue [
        | [] ↦
            if t.result
            then (
              true,
              record p { active = erase id p.active; world = destroy env t.session t.world },
            )
            else (false, record p { active = insert id t.session p.active; world = t.world })
        | q ∷ qs ↦
            if q.id == id
            then (if t.result
                then (
                  true,
                  record p {
                    active = erase id p.active;
                    queue = qs;
                    world = destroy env t.session (destroy env q t.world);
                  },
                )
                else (
                  false,
                  record p {
                    active = insert id q p.active;
                    queue = qs;
                    world = destroy env t.session t.world;
                  },
                ))
            else (if t.result
                then (
                  true,
                  record p {
                    active = erase id (insert q.id q p.active);
                    queue = qs;
                    world = destroy env t.session t.world;
                  },
                )
                else (
                  false,
                  record p {
                    active = insert id t.session (insert q.id q p.active);
                    queue = qs;
                    world = t.world;
                  },
                ))
      ]

  unfoldable pub cancel_queued : ℕ → Session A → Provider A → Bool × Provider A
  unfolding handle_cancel
  cancel_queued id s p =
      let t = handle_cancel env s p.world in
      (
        t.result,
        record p { queue = remove_queued id p.queue; world = destroy env t.session t.world },
      )

  unfoldable pub update_active : ℕ → A → Session A → Provider A → Bool × Provider A
  unfolding handle_update
  update_active id command s p =
      let t = handle_update env command id s p.world in
      (t.result, record p { active = insert id t.session p.active; world = t.world })

  unfoldable pub take_command : ℕ → A → Provider A → Bool × Provider A
  unfolding update_active while_busy add_command
  take_command id command p = elim p.active [
    | [] ↦ add_command id command p
    | _ ↦ elim (lookup id p.active) [
      | some s ↦ update_active id command s p
      | none ↦ while_busy id command p
    ]
  ]

  unfoldable pub take_disposal : ℕ → Provider A → Bool × Provider A
  unfolding cancel_active cancel_queued
  take_disposal id p = elim (lookup id p.active) [
    | some s ↦ cancel_active id s p
    | none ↦ elim (find_queued id p.queue) [ some s ↦ cancel_queued id s p | none ↦ (true, p) ]
  ]

  unfoldable pub handle_incoming : Provider A → Bool × Provider A
  unfolding take_command take_disposal
  handle_incoming p =
      let p' = record p { world = ask p.world } in
      elim (env.read p.world.asked) [
        | read_error ↦ (false, p')
        | read_not_implemented ↦ (false, p')
        | no_data ↦ (true, p')
        | invalid_data ↦ (true, p')
        | disposed id command ↦ take_disposal id p'
        | received id command ↦ take_command id command p'
      ]
