-- ===== src/Consumer/Protocol.antt =====
-- What the sender is handed over a history of calls of CommandConsumerBase.h.
use umaa_cpp.Base.{
  ℕ, ◌<◌, ◌≡◌, ◌≢◌, ◌⊎◌, inl, inr, refl, sym, ◌∙◌, subst, Bool, true, false, not, Option, none,
  some, arith, Bool-cases, Option-cases, ap, List, [], ◌∷◌,
}
use umaa_cpp.Transport.{is_error}
use umaa_cpp.Transport.Reading.{ReadStatus}
use umaa_cpp.StateMachine.Command as C
use umaa_cpp.Consumer.{
  CommandHeader, Report, Consumer, Env, read_loop, read_ack, read_exe_status, take_status,
  close_command_session, new_consumer, set_cmd_header, set_cmd_destination,
}
use umaa_cpp.Consumer.Sessions.{
  has_command_terminated, set_up, open_command_session, send_in_session, send,
}
use umaa_cpp.Consumer.Calls.{
  Call, sends, reads_ack, reads_status, reads_exe_status, asks_terminated, opens, closes,
  sets_header, sets_destination, call, call_all, Orderly, after, after_read,
}
use umaa_cpp.Consumer.Keeping.{
  Keeps, if-Keeps, if_true-Keeps, if_false-Keeps, read_status-Keeps, loop-Keeps,
}
use umaa_cpp.Consumer.Open.{Inv, Drawn-suc, fresh, Live-of, close-Inv, send_command-Inv}

module _ {A B D : Type 0} (env : Env B D) (new : (i j : ℕ) → i < j → env.guid i ≢ env.guid j)
    (fuel : ℕ) where
  set_up-Inv :
      (c : Consumer A) → c.is_session_open ≡ false → Inv env c → Inv env (set_up env fuel c).1
  unfolding set_up
  set_up-Inv c closed i = elim (Bool-cases (is_error (env.session_set_up c.asked))) [
    | inl t ↦ rw (t, closed) (i.0, i.1, tt)
    | inr t ↦ rw t (
      i.0,
      Drawn-suc env c.guids_used c.bus i.1,
      ((c.guids_used, omega arith, refl), fresh env c.guids_used c.bus new i.1),
    )
  ]

  take_status_cases :
      (s : ReadStatus) (m : Report C.CommandStatus) (c : Consumer A)
      → ((take_status env fuel s m c).2 ≡ c)
        ⊎ (((take_status env fuel s m c).2 ≡ record c { is_command_alive = false })
            ⊎ ((take_status env fuel s m c).2
                ≡ (close_command_session env (record c { is_command_alive = false })).1))
  unfolding take_status
  take_status_cases s m c = ground arith

  take_status-Inv :
      (s : ReadStatus) (m : Report C.CommandStatus) (c : Consumer A)
      → Inv env c
      → Inv env (take_status env fuel s m c).2
  take_status-Inv s m c i = elim (take_status_cases s m c) [
    | inl e ↦ subst (Inv env) (sym e) i
    | inr (inl e) ↦ subst (Inv env) (sym e) i
    | inr (inr e) ↦
        subst (Inv env) (sym e) (close-Inv env (record c { is_command_alive = false }) i)
  ]

  take_status_closed :
      (s : ReadStatus) (m : Report C.CommandStatus) (c : Consumer A)
      → c.is_session_open ≡ false
      → (take_status env fuel s m c).2.is_session_open ≡ false
  unfolding take_status
  take_status_closed s m c h = ground arith

  -- hasCommandTerminated keeps the invariant, and a closed session closed.
  terminated-Inv :
      (c : Consumer A) → Inv env c → Keeps (Inv env) (after (has_command_terminated env fuel c))
  unfolding has_command_terminated
  terminated-Inv c i =
      loop-Keeps env fuel (Inv env) (λ s m c i. take_status-Inv s m c i) (λ at c i. i) fuel c i

  terminated_closed :
      (c : Consumer A)
      → c.is_session_open ≡ false
      → Keeps
          (λ (c' : Consumer A). c'.is_session_open ≡ false)
          (after (has_command_terminated env fuel c))
  unfolding has_command_terminated
  terminated_closed c h =
      loop-Keeps env fuel (λ c'. c'.is_session_open ≡ false) (λ s m c i. take_status_closed s m c i)
        (λ at c i. i) fuel c h

  open-Inv :
      (c : Consumer A) → Inv env c → Keeps (Inv env) (after (open_command_session env fuel c))
  unfolding open_command_session
  open-Inv c i = elim (Bool-cases c.is_session_open) [
    | inl o ↦ if_true-Keeps (Inv env) after c.is_session_open _ _ o i
    | inr closed ↦
        if-Keeps (Inv env) after c.is_session_open _ _ i
          (elim (Option-cases (has_command_terminated env fuel c)) [
            | inl h ↦ rw h tt
            | inr ((b, c'), h) ↦
                let i' : Inv env c' =
                  subst (λ x. Keeps (Inv env) (after x)) h (terminated-Inv c i) in
                let closed' : c'.is_session_open ≡ false =
                  subst (λ x. Keeps (λ (v : Consumer A). v.is_session_open ≡ false) (after x)) h
                    (terminated_closed c closed) in
                rw h (if-Keeps (Inv env) after b _ _ (set_up-Inv c' closed' i') i')
          ])
  ]

  open_opens :
      (c c' : Consumer A)
      → c.is_session_open ≡ false
      → open_command_session env fuel c ≡ some (true, c')
      → c'.is_session_open ≡ true
  unfolding open_command_session set_up
  open_opens c c' closed h = elim (Option-cases (has_command_terminated env fuel c)) [
    | inl e ↦ absurd (ground (arith, h, e, closed))
    | inr ((b, c2), e) ↦ ground (arith, h, e, closed)
  ]

  send_in_session-Inv :
      (cmd : A) (c : Consumer A)
      → Inv env c
      → Keeps (Inv env) (after (send_in_session env fuel cmd c))
  unfolding send_in_session
  send_in_session-Inv cmd c i = elim (Bool-cases c.is_session_open) [
    | inl o ↦
        if_true-Keeps (Inv env) after c.is_session_open _ _ o (send_command-Inv env fuel cmd c o i)
    | inr closed ↦
        if_false-Keeps (Inv env) after c.is_session_open _ _ closed
          (elim (Option-cases (open_command_session env fuel c)) [
            | inl h ↦ rw h tt
            | inr ((b, c'), h) ↦
                let i' : Inv env c' = subst (λ x. Keeps (Inv env) (after x)) h (open-Inv c i) in
                rw h (elim (Bool-cases b) [
                  | inl t ↦
                      let o = open_opens c c' closed (h ∙ ap (λ x. some (x, c')) t) in
                      if_true-Keeps (Inv env) after b _ _ t (send_command-Inv env fuel cmd c' o i')
                  | inr t ↦ if_false-Keeps (Inv env) after b _ _ t i'
                ])
          ])
  ]

  send-Inv :
      (cmd : Option A) (c : Consumer A) → Inv env c → Keeps (Inv env) (after (send env fuel cmd c))
  unfolding send
  send-Inv none c i = i
  send-Inv (some cmd) c i =
      if-Keeps (Inv env) after (not c.is_session_open) _ _ (send_in_session-Inv cmd c i)
        (elim (Option-cases (has_command_terminated env fuel c)) [
          | inl h ↦ rw h tt
          | inr ((b, c'), h) ↦
              let i' : Inv env c' = subst (λ x. Keeps (Inv env) (after x)) h (terminated-Inv c i) in
              rw h (send_in_session-Inv cmd c' i')
        ])

  read_ack-Inv :
      (given : Bool) (c : Consumer A)
      → Inv env c
      → Keeps (Inv env) (after_read (read_ack env fuel given c))
  unfolding read_ack
  read_ack-Inv given c i = if-Keeps (Inv env) after_read (not given) _ _ i (
      if-Keeps (Inv env) after_read (not c.is_command_alive) _ _ i
        (elim (Option-cases (read_loop env.next_ack c.header fuel c.acks_read)) [
          | inl h ↦ rw h tt
          | inr ((s, m, at), h) ↦ rw h i
        ]))

  read_exe_status-Inv :
      (given : Bool) (c : Consumer A)
      → Inv env c
      → Keeps (Inv env) (after_read (read_exe_status env fuel given c))
  unfolding read_exe_status
  read_exe_status-Inv given c i = if-Keeps (Inv env) after_read (not given) _ _ i (
      if-Keeps (Inv env) after_read (not c.is_command_alive) _ _ i
        (elim (Option-cases env.next_exe_status) [
          | inl n ↦ rw n i
          | inr (next, n) ↦ elim (Option-cases (read_loop next c.header fuel c.exe_statuses_read)) [
            | inl h ↦ rw (n, h) tt
            | inr ((s, m, at), h) ↦ rw (n, h) i
          ]
        ]))

  set_header-Inv : (h : CommandHeader) (c : Consumer A) → Inv env c → Inv env (set_cmd_header h c).1
  unfolding set_cmd_header
  set_header-Inv h c i = elim (Bool-cases c.is_session_open) [
    | inl o ↦ rw o (i.0, i.1, Live-of env c o i)
    | inr closed ↦ rw closed (i.0, i.1, tt)
  ]

  set_destination-Inv : (d : ℕ) (c : Consumer A) → Inv env c → Inv env (set_cmd_destination d c).1
  unfolding set_cmd_destination
  set_destination-Inv d c i = elim (Bool-cases c.is_session_open) [
    | inl o ↦ rw o (i.0, i.1, Live-of env c o i)
    | inr closed ↦ rw closed (i.0, i.1, tt)
  ]

  pub call-Inv : (x : Call A) (c : Consumer A) → Inv env c → Keeps (Inv env) (call env fuel x c)
  call-Inv (sends cmd) c i = send-Inv cmd c i
  call-Inv (reads_ack given) c i = read_ack-Inv given c i
  call-Inv (reads_status given) c i =
      read_status-Keeps env fuel (Inv env) (λ s m c i. take_status-Inv s m c i) (λ at c i. i) given
        c i
  call-Inv (reads_exe_status given) c i = read_exe_status-Inv given c i
  call-Inv asks_terminated c i = terminated-Inv c i
  call-Inv opens c i = open-Inv c i
  call-Inv closes c i = close-Inv env c i
  call-Inv (sets_header h) c i = set_header-Inv h c i
  call-Inv (sets_destination d) c i = set_destination-Inv d c i

  call_all-Inv :
      (xs : List (Call A)) (c : Consumer A) → Inv env c → Keeps (Inv env) (call_all env fuel xs c)
  call_all-Inv [] c i = i
  call_all-Inv (x ∷ xs) c i = elim (Option-cases (call env fuel x c)) [
    | inl h ↦ rw (h, call_all) tt
    | inr (c', h) ↦
        rw (h, call_all) (call_all-Inv xs c' (subst (Keeps (Inv env)) h (call-Inv x c i)))
  ]

  -- Over any calls of a new consumer whose factory draws new GUIDs, no message of a session is sent
  -- after the session's cancellation: each session is cancelled at most once, and no command of it
  -- follows.
  pub sessions_are-Orderly :
      (header : CommandHeader) (xs : List (Call A))
      → Keeps (λ (c : Consumer A). Orderly c.bus) (call_all env fuel xs (new_consumer header))
  sessions_are-Orderly header xs =
      let i : Inv env (new_consumer {A = A} header) = unfold new_consumer in (tt, tt, tt) in
      elim (Option-cases (call_all env fuel xs (new_consumer header))) [
        | inl h ↦ rw h tt
        | inr (c, h) ↦
            let j : Inv env c =
              subst (Keeps (Inv env)) h (call_all-Inv xs (new_consumer header) i) in
            rw h j.0
      ]
