-- ===== src/Provider/Examples.antt =====
-- The theorems on the command provider at a concrete service.
use umaa_cpp.Base.{ℕ, ◌≡◌, refl, Bool, true, false, some, List, [], ◌∷◌}
use umaa_cpp.Base.Machine.{run}
use umaa_cpp.Transport.{success}
use umaa_cpp.StateMachine.Command as C
use umaa_cpp.Provider.{World, Env, Turn, queue_incoming, stay, advance, no_data, new_session}
use umaa_cpp.Provider.Handlers.{cycle_rounds}
use umaa_cpp.Provider.Incoming.{Provider, take_command}
use umaa_cpp.Provider.Cycle.{cycle, max_rounds}
use umaa_cpp.Provider.Rounds.{session_rounds}
use umaa_cpp.Provider.Invariant.{WellFormed}
use umaa_cpp.Provider.Settled.{NoFinal, cycle-WellFormed, cycle-NoFinal}
use umaa_cpp.Provider.Busy.{IsSmooth, cycles, busy_behavior, queue_starves}

-- A service whose commands complete as soon as they execute; its onCycle gives the argument.
abbrev service : Bool → Env ℕ
service on_cycle = record {
  read = λ n. no_data;
  on_cycle = λ n. on_cycle;
  is_command_valid = λ n c. true;
  on_issued = λ n s. advance;
  on_commanded = λ n s. advance;
  on_executing = λ n s. stay;
  is_command_failed = λ n s. C.succeeded;
  is_command_completed = λ n s. true;
  on_completed = λ n s. true;
  on_canceled = λ n s. true;
  on_failed = λ n s. true;
  on_updated = λ n s old new. true;
  send_execution_status = λ n c. success;
  send = λ n. success;
}

abbrev untouched : World ℕ
untouched = record { asked = 0; sends = 0; bus = [] }

-- One command is active and one waits.
abbrev busy : Provider ℕ
busy = record {
  behavior = queue_incoming;
  active = (7, new_session 7 70) ∷ [];
  queue = new_session 8 80 ∷ [];
  world = untouched;
}

busy-WellFormed : WellFormed busy
busy-WellFormed = record { keyed = (refl, tt); fresh = (refl, tt) }

smooth : IsSmooth (service true)
smooth = record { sent = λ n. refl; reported = λ n c. refl; canceled = λ n s. refl }

session_rounds_example :
    (t : Turn ℕ) × (finals : List ℕ) × (cycle_rounds
        (service true)
        max_rounds
        []
        (new_session 7 70)
        untouched
      ≡ some (t, finals))
    × (t.session.id ≡ 7)
    × ((es : List C.Event) × (run C.step C.initial es ≡ t.session.state))
session_rounds_example = session_rounds (service true) [] (new_session 7 70) untouched

cycle-WellFormed_example : WellFormed (cycle (service true) busy).1
cycle-WellFormed_example = cycle-WellFormed (service true) busy busy-WellFormed

succeeds : (cycle (service true) busy).0 ≡ true
unfolding cycle
succeeds = refl

cycle-NoFinal_example : NoFinal (cycle (service true) busy).1.active
cycle-NoFinal_example = cycle-NoFinal (service true) busy busy-WellFormed succeeds

busy_behavior_example :
    ((take_command (service true) 9 90 busy).0 ≡ true)
    × ((take_command (service true) 9 90 busy).1.active ≡ (7, new_session 7 70) ∷ [])
    × ((take_command (service true) 9 90 busy).1.queue ≡ new_session 8 80 ∷ new_session 9 90 ∷ [])
busy_behavior_example = busy_behavior (service true) smooth 9 90 busy refl refl

queue_starves_example :
    ((cycles (service false) 5 (cycle (service false) busy).1).active ≡ [])
    × ((cycles (service false) 5 (cycle (service false) busy).1).queue ≡ new_session 8 80 ∷ [])
queue_starves_example = queue_starves (service false) busy 5 refl refl (λ k. refl)
