-- ===== src/Provider.antt =====
-- umaa/services/base/CommandProviderSession.h and CommandProviderBase.h: a service that takes
-- commands from the bus and takes each through its states. A command that was received is a
-- session; the sessions in work are a table by their ids, the sessions that wait are a queue.
-- `Env` is what the object calls: the virtual methods that a service overrides, the reader and the
-- senders, each as its answers, in which the first argument counts the calls that came before.
-- `World` holds these counts and the messages handed to the senders, the latest first. Log texts,
-- time stamps and the source id of the messages are left out.
pub mod Handlers
pub mod Incoming
pub mod Cycle
pub mod Sessions
pub mod Rounds
pub mod Sweep
pub mod Invariant
pub mod Upkeep
pub mod Settled
pub mod Busy
mod Examples
use umaa_cpp.Base.{
  ℕ, suc, Bool, true, false, Option, none, some, List, [], ◌∷◌, ◌==◌, not, ◌||◌, if◌then◌else◌,
}
use umaa_cpp.Transport.{SendStatus, is_error, is_success}
use umaa_cpp.StateMachine.Command as C

-- IncomingCommandBehavior.
pub data Behavior : Type 0 where
  queue_incoming accept_concurrent cancel_existing : Behavior
  complete_existing reject_incoming : Behavior

-- CommandStateResult.
pub data StateResult : Type 0 where
  stay advance err : StateResult

-- What a read gives, by its ReadStatus.
pub data Read (A : Type 0) : Type 0 where
  received disposed : ℕ → A → Read A
  read_error read_not_implemented no_data invalid_data : Read A

pub record Session (A : Type 0) : Type 0 where
  pub id : ℕ
  pub command : A
  pub state : C.CommandStateMachine
  pub dispose_exe_status : Bool

pub data Message (A : Type 0) : Type 0 where
  ack : ℕ → A → Message A
  status : ℕ → C.CommandStatus → C.Reason → Message A
  dispose_ack dispose_status : ℕ → Message A

pub record World (A : Type 0) : Type 0 where
  pub asked : ℕ
  pub sends : ℕ
  pub bus : List (Message A)

pub record Env (A : Type 0) : Type 0 where
  pub read : ℕ → Read A
  pub on_cycle : ℕ → Bool
  pub is_command_valid : ℕ → A → Bool
  pub on_issued : ℕ → Session A → StateResult
  pub on_commanded : ℕ → Session A → StateResult
  pub on_executing : ℕ → Session A → StateResult
  pub is_command_failed : ℕ → Session A → C.Reason
  pub is_command_completed : ℕ → Session A → Bool
  pub on_completed : ℕ → Session A → Bool
  pub on_canceled : ℕ → Session A → Bool
  pub on_failed : ℕ → Session A → Bool
  pub on_updated : ℕ → Session A → A → A → Bool
  pub send_execution_status : ℕ → A → SendStatus
  pub send : ℕ → SendStatus

-- What a handler leaves: its result, the session and the world.
pub record Turn (A : Type 0) : Type 0 where
  pub result : Bool
  pub session : Session A
  pub world : World A

module _ {A : Type 0} where
  -- The world after a call of a virtual method.
  abbrev pub ask : World A → World A
  ask w = record w { asked = suc w.asked }

  abbrev pub post : Message A → World A → World A
  post m w = record w { sends = suc w.sends; bus = m ∷ w.bus }

  -- The session of a new command.
  abbrev pub new_session : ℕ → A → Session A
  new_session id command = record {
    id = id;
    command = command;
    state = C.initial;
    dispose_exe_status = false;
  }

module _ {A : Type 0} (env : Env A) where
  abbrev pub send_ack : Session A → World A → SendStatus × World A
  send_ack s w = (env.send w.sends, post (ack s.id s.command) w)

  -- sendStatus with a status and a reason, and with those of the session.
  abbrev pub send_status_of :
      C.CommandStatus → C.Reason → Session A → World A → SendStatus × World A
  send_status_of status' reason s w = (env.send w.sends, post (status s.id status' reason) w)

  abbrev pub send_status : Session A → World A → SendStatus × World A
  send_status s w = send_status_of s.state.current_state s.state.current_reason s w

  abbrev pub send_execution_status : Session A → World A → SendStatus × Session A × World A
  send_execution_status s w =
      let answer = env.send_execution_status w.asked s.command in
      (answer, (if is_success answer then record s { dispose_exe_status = true } else s), ask w)

  -- The destructor. What disposeExecutionStatus answers is only logged.
  abbrev pub destroy : Session A → World A → World A
  destroy s w =
      let w' = post (dispose_status s.id) (post (dispose_ack s.id) w) in
      if s.dispose_exe_status then ask w' else w'

  abbrev pub destroy_all : List (ℕ × Session A) → World A → World A
  destroy_all [] w = w
  destroy_all ((id, s) ∷ ss) w = destroy_all ss (destroy s w)
