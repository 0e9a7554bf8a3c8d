-- ===== src/Consumer/Calls.antt =====
-- The calls of the public interface of CommandConsumerBase.h, and what they hand to the sender.
use umaa_cpp.Base.{ℕ, ◌≡◌, Bool, false, Option, none, some, List, [], ◌∷◌, ◌||◌, ◌==◌}
use umaa_cpp.Consumer.{
  CommandHeader, Message, command, cancel, Consumer, Env, read_status, read_ack, read_exe_status,
  close_command_session, set_cmd_header, set_cmd_destination,
}
use umaa_cpp.Consumer.Sessions.{has_command_terminated, open_command_session, send}

module _ {A : Type 0} where
  abbrev pub session_of : Message A → ℕ
  session_of (command h a) = h.session_id
  session_of (cancel h) = h.session_id

  -- Whether a session has been cancelled.
  abbrev pub cancelled : ℕ → List (Message A) → Bool
  cancelled id [] = false
  cancelled id (command h a ∷ bus) = cancelled id bus
  cancelled id (cancel h ∷ bus) = h.session_id == id || cancelled id bus

  -- No message of a session comes after its cancellation. The latest message is first.
  abbrev pub Orderly : List (Message A) → Type 0
  Orderly [] = Unit
  Orderly (m ∷ bus) = (cancelled (session_of m) bus ≡ false) × Orderly bus

-- A call of the public interface.
pub data Call (A : Type 0) : Type 0 where
  sends : Option A → Call A
  reads_ack reads_status reads_exe_status : Bool → Call A
  asks_terminated opens closes : Call A
  sets_header : CommandHeader → Call A
  sets_destination : ℕ → Call A

abbrev pub after : {X A : Type 0} → Option (X × Consumer A) → Option (Consumer A)
after none = none
after (some (x, c)) = some c

abbrev pub after_read : {X Y A : Type 0} → Option (X × Y × Consumer A) → Option (Consumer A)
after_read none = none
after_read (some (x, y, c)) = some c

module _ {A B D : Type 0} (env : Env B D) (fuel : ℕ) where
  -- The consumer after a call; `none` where the call does not return within its fuel.
  abbrev pub call : Call A → Consumer A → Option (Consumer A)
  call (sends cmd) c = after (send env fuel cmd c)
  call (reads_ack given) c = after_read (read_ack env fuel given c)
  call (reads_status given) c = after_read (read_status env fuel given c)
  call (reads_exe_status given) c = after_read (read_exe_status env fuel given c)
  call asks_terminated c = after (has_command_terminated env fuel c)
  call opens c = after (open_command_session env fuel c)
  call closes c = some (close_command_session env c).1
  call (sets_header h) c = some (set_cmd_header h c).1
  call (sets_destination d) c = some (set_cmd_destination d c).1

  abbrev pub call_all : List (Call A) → Consumer A → Option (Consumer A)
  call_all [] c = some c
  call_all (x ∷ xs) c = elim (call x c) [ none ↦ none | some c' ↦ call_all xs c' ]
