-- ===== src/Consumer.antt =====
-- umaa/services/base/CommandConsumerBase.h: a consumer of a service, which sends commands in
-- sessions and reads what the provider says about them. `Env` is what the object calls: the methods
-- that a consumer overrides, the GUID factory, the sender and the readers, each as its answers, in
-- which the first argument counts the calls that came before. `bus` holds the messages that were
-- sent, the latest first. Time stamps and log texts are left out; an identifier is the number that
-- stands for it.
--
-- A read of the object goes on until it has a message for it or NO_DATA. It takes fuel, the number
-- of samples that a read may take, and a method that calls reads gives `none` where one of them runs
-- out of it.
pub mod Sessions
pub mod Reads
pub mod Returns
pub mod Calls
pub mod Keeping
pub mod Open
pub mod Protocol
mod Examples
use umaa_cpp.Base.{
  ℕ, zero, suc, Bool, true, false, not, ◌&&◌, Option, none, some, List, [], ◌∷◌, ◌==◌,
  if◌then◌else◌,
}
use umaa_cpp.LargeList.{nil_guid}
use umaa_cpp.Transport.{SendStatus, success, error, is_error, is_success}
use umaa_cpp.Transport.Reading.{ReadStatus, is_sample, is_no_data}
use umaa_cpp.Transport.Reading as R
use umaa_cpp.StateMachine.Command as C

pub record CommandHeader : Type 0 where
  pub source_id : ℕ
  pub destination_id : ℕ
  pub session_id : ℕ

-- An acknowledgement, a status or an execution status, by its content.
pub record Report (B : Type 0) : Type 0 where
  pub source : ℕ
  pub session_id : ℕ
  pub content : B

-- What the sender is handed, with the header that it carries.
pub data Message (A : Type 0) : Type 0 where
  command : CommandHeader → A → Message A
  cancel : CommandHeader → Message A

pub record Env (B D : Type 0) : Type 0 where
  pub session_set_up : ℕ → SendStatus
  pub session_tear_down : ℕ → SendStatus
  pub guid : ℕ → ℕ
  pub send : ℕ → SendStatus
  pub next_ack : ℕ → ReadStatus × Report B
  pub next_status : ℕ → ReadStatus × Report C.CommandStatus
  pub next_exe_status : Option (ℕ → ReadStatus × Report D)

pub record Consumer (A : Type 0) : Type 0 where
  pub header : CommandHeader
  pub is_session_open : Bool
  pub is_command_alive : Bool
  pub asked : ℕ
  pub guids_used : ℕ
  pub sends : ℕ
  pub acks_read : ℕ
  pub statuses_read : ℕ
  pub exe_statuses_read : ℕ
  pub bus : List (Message A)

-- isValidAck, isValidStatus and isValidExeStatus, which differ in the type of the message alone.
abbrev pub is_valid : {B : Type 0} → CommandHeader → Report B → Bool
is_valid header r = r.source == header.destination_id && r.session_id == header.session_id

-- Whether a read ends the loop with the message that it gave.
abbrev pub is_own : {B : Type 0} → CommandHeader → ReadStatus × Report B → Bool
is_own header (s, r) = is_sample s && is_valid header r

-- The `do` loop of a `read`, from the sample at `at` on: its status, its message, and the number of
-- samples taken so far.
unfoldable pub read_loop :
    {B : Type 0}
    → (ℕ → ReadStatus × Report B)
    → CommandHeader
    → ℕ
    → ℕ
    → Option (ReadStatus × Option (Report B) × ℕ)
read_loop next header zero at = none
read_loop next header (suc fuel) at =
    let rest = read_loop next header fuel (suc at) in
    if is_own header (next at)
    then some ((next at).0, some (next at).1, suc at)
    else (if is_no_data (next at).0 then some ((next at).0, none, suc at) else rest)

unfoldable pub new_consumer : {A : Type 0} → CommandHeader → Consumer A
new_consumer header = record {
  header = header;
  is_session_open = false;
  is_command_alive = false;
  asked = 0;
  guids_used = 0;
  sends = 0;
  acks_read = 0;
  statuses_read = 0;
  exe_statuses_read = 0;
  bus = [];
}

module _ {A : Type 0} where
  unfoldable pub set_cmd_header : CommandHeader → Consumer A → Bool × Consumer A
  set_cmd_header header c =
      if c.is_session_open then (false, c) else (true, record c { header = header })

  unfoldable pub set_cmd_destination : ℕ → Consumer A → Bool × Consumer A
  set_cmd_destination destination c =
      if c.is_session_open
      then (false, c)
      else (true, record c { header = record c.header { destination_id = destination } })

module _ {A B D : Type 0} (env : Env B D) where
  -- `send` and `dispose` of the sender. Only a message that is answered by SUCCESS is on the bus.
  abbrev pub publish : Message A → Consumer A → SendStatus × Consumer A
  publish m c =
      let answer = env.send c.sends in
      (
        answer,
        record c { sends = suc c.sends; bus = if is_success answer then m ∷ c.bus else c.bus },
      )

  unfoldable pub dispose_command : Consumer A → SendStatus × Consumer A
  dispose_command c = publish (cancel c.header) c

  unfoldable pub close_command_session : Consumer A → SendStatus × Consumer A
  close_command_session c =
      let (disposed, c2) = dispose_command (record c { asked = suc c.asked }) in
      if not c.is_session_open
      then (error, c)
      else (if is_error (env.session_tear_down c.asked)
          then (error, record c { asked = suc c.asked })
          else (if not (is_success disposed)
              then (error, c2)
              else (success, record c2 { is_session_open = false })))

  -- The destructor.
  unfoldable pub destroy : Consumer A → Consumer A
  destroy c = if c.is_session_open then (close_command_session c).1 else c

-- What a `read` returns: its status, the message that it writes, and the consumer. The first
-- argument of a `read` says whether its pointer is not null.
abbrev pub Reads : Type 0 → Type 0 → Type 0
Reads A B = Option (ReadStatus × Option (Report B) × Consumer A)

module _ {A B D : Type 0} (env : Env B D) (fuel : ℕ) where
  unfoldable pub read_ack : Bool → Consumer A → Reads A B
  read_ack given c =
      if not given
      then some (R.error, none, c)
      else (if not c.is_command_alive
          then some (R.invalid_data, none, c)
          else (elim (read_loop env.next_ack c.header fuel c.acks_read) [
            | none ↦ none
            | some (s, m, at) ↦ some (s, m, record c { acks_read = at })
          ]))

  -- What `read` does with a status for it.
  unfoldable pub take_status :
      ReadStatus
      → Report C.CommandStatus
      → Consumer A
      → ReadStatus × Option (Report C.CommandStatus) × Consumer A
  take_status s m c =
      let c' = record c { is_command_alive = false } in
      let (closed, c2) = close_command_session env c' in
      if not (C.is_state_final m.content)
      then (s, some m, c)
      else (if not c.is_session_open
          then (s, some m, c')
          else (if is_success closed then (s, some m, c2) else (R.error, some m, c2)))

  unfoldable pub read_status : Bool → Consumer A → Reads A C.CommandStatus
  read_status given c =
      if not given
      then some (R.error, none, c)
      else (if not c.is_command_alive
          then some (R.invalid_data, none, c)
          else (elim (read_loop env.next_status c.header fuel c.statuses_read) [
            | none ↦ none
            | some (s, m, at) ↦
                let c' = record c { statuses_read = at } in
                elim m [ none ↦ some (s, none, c') | some r ↦ some (take_status s r c') ]
          ]))

  unfoldable pub read_exe_status : Bool → Consumer A → Reads A D
  read_exe_status given c =
      if not given
      then some (R.error, none, c)
      else (if not c.is_command_alive
          then some (R.invalid_data, none, c)
          else (elim env.next_exe_status [
            | none ↦ some (R.not_implemented, none, c)
            | some next ↦ elim (read_loop next c.header fuel c.exe_statuses_read) [
              | none ↦ none
              | some (s, m, at) ↦ some (s, m, record c { exe_statuses_read = at })
            ]
          ]))
