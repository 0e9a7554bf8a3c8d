-- ===== src/Provider/Busy.antt =====
-- What a provider does with a command that comes while others are active or wait.
use umaa_cpp.Base.{ℕ, suc, zero, ◌≡◌, refl, ◌∙◌, true, false, none, List, [], ◌∷◌, ◌++◌, arith}
use umaa_cpp.Base.Table.{lookup, insert}
use umaa_cpp.Transport.{success}
use umaa_cpp.StateMachine.Command as C
use umaa_cpp.Provider.{
  Session, World, Env, Behavior, queue_incoming, accept_concurrent, cancel_existing,
  complete_existing, reject_incoming, no_data, new_session, destroy_all, send_status_of,
}
use umaa_cpp.Provider.Handlers.{handle_cancel, conclude}
use umaa_cpp.Provider.Incoming.{
  Provider, cancel_all, complete_all, add_command, while_busy, take_command, enqueue, reject,
  handle_incoming,
}
use umaa_cpp.Provider.Cycle.{cycle, is_idle, give_up}

-- Every message is sent and no overridden method fails.
pub record IsSmooth {A : Type 0} (env : Env A) : Type 0 where
  pub sent : (n : ℕ) → env.send n ≡ success
  pub reported : (n : ℕ) (command : A) → env.send_execution_status n command ≡ success
  pub canceled : (n : ℕ) (s : Session A) → env.on_canceled n s ≡ true

module _ {A : Type 0} where
  -- The active sessions and the queue that the behavior asks for, after a new session `s`.
  abbrev pub active_after : Behavior → Session A → List (ℕ × Session A) → List (ℕ × Session A)
  active_after queue_incoming s ss = ss
  active_after accept_concurrent s ss = insert s.id s ss
  active_after cancel_existing s ss = (s.id, s) ∷ []
  active_after complete_existing s ss = (s.id, s) ∷ []
  active_after reject_incoming s ss = ss

  abbrev pub queue_after : Behavior → Session A → List (Session A) → List (Session A)
  queue_after queue_incoming s qs = qs ++ s ∷ []
  queue_after _ s qs = qs

module _ {A : Type 0} (env : Env A) (smooth : IsSmooth env) where
  cancel_smooth : (s : Session A) (w : World A) → (handle_cancel env s w).result ≡ true
  unfolding handle_cancel conclude
  cancel_smooth s w =
      let (machine, _) = C.cancel s.state in
      let s' = record s { state = machine } in
      ground (
        arith,
        smooth.sent w.sends,
        smooth.canceled w.asked s',
        smooth.reported (suc w.asked) s.command,
      )

  cancel_all_smooth : (ss : List (ℕ × Session A)) (w : World A) → (cancel_all env ss w).0 ≡ true
  unfolding cancel_all
  cancel_all_smooth [] w = refl
  cancel_all_smooth ((id, s) ∷ ss) w =
      ground (arith, cancel_smooth s w, cancel_all_smooth ss (handle_cancel env s w).world)

  complete_all_smooth : (ss : List (ℕ × Session A)) (w : World A) → (complete_all env ss w).0 ≡ true
  unfolding complete_all
  complete_all_smooth [] w = refl
  complete_all_smooth ((id, s) ∷ ss) w = ground (
    arith,
    smooth.sent w.sends,
    complete_all_smooth ss (send_status_of env C.completed C.succeeded s w).1,
  )

  add_smooth :
      (id : ℕ) (command : A) (p : Provider A)
      → ((add_command env id command p).0 ≡ true)
        × ((add_command env id command p).1.active ≡ insert id (new_session id command) p.active)
        × ((add_command env id command p).1.queue ≡ p.queue)
  unfolding add_command
  add_smooth id command p =
      let a = smooth.sent p.world.sends in
      let b = smooth.sent (suc p.world.sends) in
      (ground (arith, a, b), ground (arith, a, b), ground (arith, a, b))

  busy_smooth :
      (id : ℕ) (command : A) (p : Provider A)
      → ((while_busy env id command p).0 ≡ true)
        × ((while_busy env id command p).1.active
            ≡ active_after p.behavior (new_session id command) p.active)
        × ((while_busy env id command p).1.queue
            ≡ queue_after p.behavior (new_session id command) p.queue)
  unfolding while_busy enqueue reject
  busy_smooth id command p =
      let canceled = cancel_all env p.active p.world in
      let after_cancel = record p { active = []; world = destroy_all env canceled.1 canceled.2 } in
      let completed = complete_all env p.active p.world in
      let after_complete = record p { active = []; world = destroy_all env p.active completed.1 } in
      let (a, b, c) = add_smooth id command p in
      let (d, e, f) = add_smooth id command after_cancel in
      let (g, h, i) = add_smooth id command after_complete in
      let x = cancel_all_smooth p.active p.world in
      let y = complete_all_smooth p.active p.world in
      (ground (arith, a, d, g, x, y), ground (arith, b, e, h, x, y), ground (arith, c, f, i, x, y))

  -- A command with a new id that comes while others are active is handled as the behavior says,
  -- when every message is sent and no overridden method fails: QUEUE_INCOMING puts it at the end of
  -- the queue, ACCEPT_CONCURRENT makes it active beside the others, CANCEL_EXISTING and
  -- COMPLETE_EXISTING make it the only active one, and REJECT_INCOMING changes neither the active
  -- ones nor the queue.
  pub busy_behavior :
      (id : ℕ) (command : A) (p : Provider A)
      → is_idle p ≡ false
      → lookup id p.active ≡ none
      → ((take_command env id command p).0 ≡ true)
        × ((take_command env id command p).1.active
            ≡ active_after p.behavior (new_session id command) p.active)
        × ((take_command env id command p).1.queue
            ≡ queue_after p.behavior (new_session id command) p.queue)
  unfolding take_command
  busy_behavior id command p busy new =
      let (a, b, c) = busy_smooth id command p in
      (ground (arith, busy, new, a), ground (arith, busy, new, b), ground (arith, busy, new, c))

module _ {A : Type 0} (env : Env A) where
  abbrev pub cycles : ℕ → Provider A → Provider A
  cycles zero p = p
  cycles (suc n) p = cycles n (cycle env p).1

  idle_cycle :
      (p : Provider A)
      → ((k : ℕ) → env.read k ≡ no_data)
      → p.active ≡ []
      → ((cycle env p).1.active ≡ []) × ((cycle env p).1.queue ≡ p.queue)
  unfolding cycle handle_incoming
  idle_cycle p quiet idle =
      let q = quiet (suc p.world.asked) in (ground (arith, idle, q), ground (arith, idle, q))

  idle_cycles :
      (n : ℕ) (p : Provider A)
      → ((k : ℕ) → env.read k ≡ no_data)
      → p.active ≡ []
      → ((cycles n p).active ≡ []) × ((cycles n p).queue ≡ p.queue)
  idle_cycles zero p quiet idle = (idle, refl)
  idle_cycles (suc n) p quiet idle =
      let (a, b) = idle_cycle p quiet idle in
      let (c, d) = idle_cycles n (cycle env p).1 quiet a in (c, d ∙ b)

  failed_cycle :
      (p : Provider A)
      → is_idle p ≡ false
      → env.on_cycle p.world.asked ≡ false
      → ((cycle env p).1.active ≡ []) × ((cycle env p).1.queue ≡ p.queue)
  unfolding cycle give_up
  failed_cycle p busy failing = (ground (arith, busy, failing), ground (arith, busy, failing))

  -- After a cycle whose onCycle fails while commands are active, no command is active and the queue
  -- is as it was; and while no message comes it stays so for ever: no number of cycles takes a
  -- command from the queue.
  pub queue_starves :
      (p : Provider A) (n : ℕ)
      → is_idle p ≡ false
      → env.on_cycle p.world.asked ≡ false
      → ((k : ℕ) → env.read k ≡ no_data)
      → ((cycles n (cycle env p).1).active ≡ []) × ((cycles n (cycle env p).1).queue ≡ p.queue)
  queue_starves p n busy failing quiet =
      let (a, b) = failed_cycle p busy failing in
      let (c, d) = idle_cycles n (cycle env p).1 quiet a in (c, d ∙ b)
