-- ===== src/Consumer/Sessions.antt =====
-- CommandConsumerBase.h: the methods that open a session and send a command in it.
use umaa_cpp.Base.{ℕ, zero, suc, Bool, true, false, not, Option, none, some, if◌then◌else◌}
use umaa_cpp.LargeList.{nil_guid}
use umaa_cpp.Transport.{SendStatus, error, is_error, is_success}
use umaa_cpp.Transport.Reading.{is_sample}
use umaa_cpp.Consumer.{Consumer, Env, command, publish, read_status}

module _ {A B D : Type 0} (env : Env B D) (fuel : ℕ) where
  -- The `while` loop of hasCommandTerminated, on fuel of its own.
  unfoldable pub terminated_loop : ℕ → Consumer A → Option (Bool × Consumer A)
  terminated_loop zero c = none
  terminated_loop (suc rounds) c =
      if not c.is_command_alive then some (true, c) else (elim (read_status env fuel true c) [
        | none ↦ none
        | some (s, m, c') ↦ if is_sample s then terminated_loop rounds c' else some (false, c')
      ])

  unfoldable pub has_command_terminated : Consumer A → Option (Bool × Consumer A)
  has_command_terminated c = terminated_loop fuel c

  -- What openCommandSession does once the last command has terminated.
  unfoldable pub set_up : Consumer A → Bool × Consumer A
  set_up c =
      let c' = record c {
        header = record c.header { session_id = nil_guid };
        asked = suc c.asked;
      } in
      if is_error (env.session_set_up c.asked) then (false, c') else (
        true,
        record c' {
          header = record c.header { session_id = env.guid c.guids_used };
          guids_used = suc c.guids_used;
          is_session_open = true;
        },
      )

  unfoldable pub open_command_session : Consumer A → Option (Bool × Consumer A)
  open_command_session c =
      if c.is_session_open then some (false, c) else (elim (has_command_terminated c) [
        | none ↦ none
        | some (terminated, c') ↦ if terminated then some (set_up c') else some (false, c')
      ])

  -- What `send` does in an open session.
  unfoldable pub send_command : A → Consumer A → SendStatus × Consumer A
  send_command cmd c =
      let (answer, c') = publish env (command c.header cmd) c in
      (answer, (if is_success answer then record c' { is_command_alive = true } else c'))

  -- `send` after its first `if`, which may have closed the session.
  unfoldable pub send_in_session : A → Consumer A → Option (SendStatus × Consumer A)
  send_in_session cmd c =
      if c.is_session_open then some (send_command cmd c) else (elim (open_command_session c) [
        | none ↦ none
        | some (opened, c') ↦ if opened then some (send_command cmd c') else some (error, c')
      ])

  -- `send`; a null pointer is `none`.
  unfoldable pub send : Option A → Consumer A → Option (SendStatus × Consumer A)
  send none c = some (error, c)
  send (some cmd) c =
      if not c.is_session_open
      then send_in_session cmd c
      else (elim (has_command_terminated c) [ none ↦ none | some (_, c') ↦ send_in_session cmd c' ])
