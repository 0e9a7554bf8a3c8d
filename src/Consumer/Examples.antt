-- ===== src/Consumer/Examples.antt =====
-- The theorems on the consumer at a concrete environment.
use umaa_cpp.Base.{ℕ, zero, suc, ◌+◌, refl, true, none, some, List, [], ◌∷◌, arith}
use umaa_cpp.Transport.{success}
use umaa_cpp.Transport.Reading.{ReadStatus}
use umaa_cpp.Transport.Reading as R
use umaa_cpp.StateMachine.Command as C
use umaa_cpp.Consumer.{CommandHeader, Report, Consumer, Env, new_consumer, read_status}
use umaa_cpp.Consumer.Sessions.{has_command_terminated, open_command_session, send}
use umaa_cpp.Consumer.Returns.{Returns, consumer-Returns}
use umaa_cpp.Consumer.Calls.{Call, sends, reads_status, closes, opens, call_all, Orderly}
use umaa_cpp.Consumer.Keeping.{Keeps}
use umaa_cpp.Consumer.Protocol.{sessions_are-Orderly}

abbrev header : CommandHeader
header = record { source_id = 1; destination_id = 2; session_id = 0 }

abbrev status_from : ℕ → C.CommandStatus → Report C.CommandStatus
status_from source state = record { source = source; session_id = 11; content = state }

-- A foreign status, a failed read and the status that completes the session 11, and then nothing.
abbrev statuses : ℕ → ReadStatus × Report C.CommandStatus
statuses zero = (R.success, status_from 3 C.failed)
statuses (suc zero) = (R.error, status_from 2 C.issued)
statuses (suc (suc zero)) = (R.success, status_from 2 C.completed)
statuses n = (R.no_data, status_from 0 C.issued)

abbrev env : (ℕ → ReadStatus × Report C.CommandStatus) → Env ℕ ℕ
env next = record {
  session_set_up = λ n. success;
  session_tear_down = λ n. success;
  guid = λ n. 11 + n;
  send = λ n. success;
  next_ack = λ n. (R.no_data, record { source = 0; session_id = 0; content = 0 });
  next_status = next;
  next_exe_status = none;
}

-- A consumer whose command is alive in the session 11.
abbrev waiting : Consumer ℕ
waiting = record {
  header = record header { session_id = 11 };
  is_session_open = true;
  is_command_alive = true;
  asked = 1;
  guids_used = 1;
  sends = 1;
  acks_read = 0;
  statuses_read = 0;
  exe_statuses_read = 0;
  bus = [];
}

consumer-Returns_example :
    Returns (read_status (env statuses) 5 true waiting)
    × Returns (has_command_terminated (env statuses) 5 waiting)
    × Returns (open_command_session (env statuses) 5 waiting)
    × Returns (send (env statuses) 5 (some 7) waiting)
consumer-Returns_example = consumer-Returns (env statuses) 5 3 true 7 waiting (omega arith) refl

abbrev broken : ℕ → ReadStatus × Report C.CommandStatus
broken n = (R.error, status_from 0 C.issued)

-- A command, its completion, and another command in a session of its own.
abbrev calls : List (Call ℕ)
calls = sends (some 7) ∷ reads_status true ∷ sends (some 8) ∷ closes ∷ opens ∷ []

sessions_are-Orderly_example :
    Keeps
      (λ (c : Consumer ℕ). Orderly c.bus)
      (call_all (env statuses) 9 calls (new_consumer header))
sessions_are-Orderly_example =
    sessions_are-Orderly (env statuses) (λ i j l e. absurd (omega (arith, l, e))) 9 header calls
