-- ===== src/Conditional/Examples.antt =====
-- The theorems on the services of conditionals at a concrete environment.
use umaa_cpp.Base.{
  ℕ, zero, suc, ◌≤◌, ◌≡◌, refl, sym, subst, false, Option, none, some, [], ◌∷◌, arith,
}
use umaa_cpp.Base.Int.{pos}
use umaa_cpp.Base.Sets.{Equality, number_equality}
use umaa_cpp.Time.{DateTime, gt, eq}
use umaa_cpp.Transport.{success}
use umaa_cpp.LargeList.Writer.Stores.{IsReliable}
use umaa_cpp.LargeSet.Writer.Batch.{new_with, fill}
use umaa_cpp.LargeSet.Writer.{new_writer, insert, add_element, update}
use umaa_cpp.LargeSet.Writer.History.{new_with-Spelled, add_each}
use umaa_cpp.Conditional.Ids.{UniqueIds}
use umaa_cpp.StateMachine.Command as C
use umaa_cpp.Provider.{advance}
use umaa_cpp.Conditional.{
  Topic, depth, speed, ConditionalType, Specialized, Env, Service, get_conditional_by_id,
  send_report, update_conditional, dispose_conditional_specialization,
}
use umaa_cpp.Conditional.Topics.{same_topic, conditional_equality}
use umaa_cpp.Conditional.Add.{
  publish_payload, upsert, place, AddProvider, dispatch_resolve, is_command_completed,
  is_command_failed,
}
use umaa_cpp.Conditional.Wait.{cycles, waits_then_fails}
use umaa_cpp.Conditional.Upsert.{Keyed, renewed, dispatch-Keyed, dispatch-Lists}
use umaa_cpp.Transport.Reading as R

abbrev q : Equality (ConditionalType ℕ)
q = conditional_equality number_equality

abbrev at : ℕ → DateTime
at k = record { seconds = pos k; nanoseconds = pos 0 }

abbrev env : Option (Specialized ℕ) → Env ℕ ℕ
env payload = record {
  set = record { guid = suc; clock = at; outcome = λ n. success; no_time = at 0 };
  send = λ n. success;
  blank = 0;
  payload = λ n topic requested. payload;
}

ticks_forward : (i j : ℕ) → i ≤ j → gt (at i) (at j) ≡ false
unfolding gt
ticks_forward i j h = ground arith

env-IsReliable : (payload : Option (Specialized ℕ)) → IsReliable (env payload).set
env-IsReliable payload = record {
  distinct = λ i j h e. absurd (omega (arith, h, e));
  not_nil = λ i e. absurd (omega (arith, e));
  forward = ticks_forward;
  sent = λ n. refl;
}

abbrev payload : Option (Specialized ℕ)
payload = some (record { reference_id = 70; reference_timestamp = at 0; content = 7 })

abbrev conditional : ℕ → Topic → ConditionalType ℕ
conditional id topic = record {
  conditional_id = id;
  specialization_id = 70;
  specialization_topic = topic;
  specialization_timestamp = at 0;
  content = 5;
}

-- A report with a conditional of depth and one of speed.
abbrev service : Service ℕ ℕ
service = record {
  set = new_with q (env payload).set (conditional 30 depth ∷ conditional 31 speed ∷ []);
  sends = 0;
  asked = 0;
  log = [];
}

two_added : UniqueIds (add_each q (conditional 30 depth ∷ conditional 31 speed ∷ []) [])
two_added = (refl, (refl, tt))

service-Keyed : Keyed q (env payload) service
service-Keyed =
    let (y, e) =
      new_with-Spelled q (env payload).set (env-IsReliable payload)
        (conditional 30 depth ∷ conditional 31 speed ∷ []) in
    (y, subst UniqueIds (sym e) (two_added))

dispatch-Keyed_example :
    Keyed q (env payload) (dispatch_resolve q (env payload) (conditional 31 depth) service).1
dispatch-Keyed_example =
    dispatch-Keyed q (env payload) (env-IsReliable payload) (conditional 31 depth) service
      service-Keyed

advances : (dispatch_resolve q (env payload) (conditional 31 depth) service).0 ≡ advance
unfolding dispatch_resolve publish_payload upsert place update_conditional get_conditional_by_id
    dispose_conditional_specialization send_report new_with fill new_writer insert add_element
    update same_topic eq
advances = refl

dispatch-Lists_example :
    get_conditional_by_id 31 (dispatch_resolve q (env payload) (conditional 31 depth) service).1
    ≡ some (renewed q (env payload) (env-IsReliable payload) (conditional 31 depth) service)
dispatch-Lists_example =
    dispatch-Lists q (env payload) (env-IsReliable payload) (conditional 31 depth) service
      service-Keyed advances

-- A provider without payloads, and a new command.
abbrev waiting : AddProvider ℕ ℕ
waiting = record { report = service; pending = [] }

waits_then_fails_example :
    (is_command_completed 4 (cycles q (env none) 2 4 (conditional 31 depth) 3 waiting) ≡ false)
    × (is_command_failed 4 (cycles q (env none) 2 4 (conditional 31 depth) 3 waiting) ≡ C.timeout)
waits_then_fails_example =
    waits_then_fails q (env none) 2 4 (conditional 31 depth) 3 waiting (λ k. refl) refl
      (omega arith) refl

-- A sample of 70 and of 71, and the disposal of 71; no more is there.
abbrev samples : ℕ → R.ReadStatus × Specialized ℕ
samples zero = (R.success, record { reference_id = 70; reference_timestamp = at 0; content = 7 })
samples (suc zero) =
    (R.success, record { reference_id = 71; reference_timestamp = at 1; content = 8 })
samples (suc (suc zero)) =
    (R.disposed, record { reference_id = 71; reference_timestamp = at 1; content = 8 })
samples (suc (suc (suc k))) =
    (R.no_data, record { reference_id = 0; reference_timestamp = at 0; content = 0 })
