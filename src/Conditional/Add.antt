-- ===== src/Conditional/Add.antt =====
-- services/ConditionalAddProvider.cpp: a command provider whose commands add a conditional to the
-- report. What the base class does with the overridden methods is the module Provider. A session
-- whose weak pointer has expired is not modelled: the base class hands out sessions that it holds.
use umaa_cpp.Base.{
  ℕ, suc, ◌+◌, ◌%◌, ◌^◌, Bool, true, false, not, ◌||◌, ◌&&◌, Option, none, some, List, ◌==◌, ltb,
  if◌then◌else◌,
}
use umaa_cpp.Base.Sets.{Equality}
use umaa_cpp.Base.Table as T
use umaa_cpp.Transport.{SendStatus, is_success}
use umaa_cpp.LargeList.{nil_guid}
use umaa_cpp.StateMachine.Command as C
use umaa_cpp.Provider.{StateResult, stay, advance, err}
use umaa_cpp.Conditional.{
  Topic, is_known, ConditionalType, Specialized, publishes, Env, Service, drawn_guid, drawn_time,
  hand_out, get_conditional_by_id, dispose_conditional_specialization, add_conditional,
  update_conditional, send_report,
}

-- PendingAdd; failReason is SUCCEEDED, or TIMEOUT once it was set.
pub record PendingAdd : Type 0 where
  pub wait_cycles : ℕ
  pub published : Bool
  pub timed_out : Bool

abbrev pub new_pending : PendingAdd
new_pending = record { wait_cycles = 0; published = false; timed_out = false }

pub record AddProvider (P S : Type 0) : Type 0 where
  pub report : Service P S
  pub pending : List (ℕ × PendingAdd)

-- isCommandValid. `supported` is the set of supported topics by its test, if it is not empty.
abbrev pub is_command_valid : {P : Type 0} → Option (Topic → Bool) → ConditionalType P → Bool
is_command_valid supported cond =
    not (cond.conditional_id == nil_guid)
    && (is_known cond.specialization_topic && (elim supported [
      | none ↦ true
      | some is_supported ↦ is_supported cond.specialization_topic
    ]))

-- The entry of a session, which `pending_[id]` makes where it is missing.
abbrev pub pending_of : ℕ → List (ℕ × PendingAdd) → PendingAdd
pending_of id table = elim (T.lookup id table) [ none ↦ new_pending | some p ↦ p ]

-- What onExecuting does with the result of dispatchResolve.
abbrev pub settle : ℕ → StateResult → PendingAdd → StateResult × PendingAdd
settle max_wait advance p = (advance, record p { published = true })
settle max_wait err p = (err, p)
settle max_wait stay p =
    let p' = record p { wait_cycles = (p.wait_cycles + 1) % 2 ^ 32 } in
    (stay, (if ltb max_wait p'.wait_cycles then record p' { timed_out = true } else p'))

module _ {P S : Type 0} (q : Equality (ConditionalType P)) (env : Env P S) where
  -- The insertion or the update of the report.
  unfoldable pub place :
      ConditionalType P → Option (ConditionalType P) → Service P S → SendStatus × Service P S
  place generic none r = add_conditional q env generic r
  place generic (some old) r =
      update_conditional q env generic (dispose_conditional_specialization env old r).1

  -- The insertion or the update, and the report's message.
  unfoldable pub upsert :
      ConditionalType P → Option (ConditionalType P) → Service P S → StateResult × Service P S
  upsert generic existing r =
      let (result, r1) = place generic existing r in
      let (sent, r2) = send_report env r1 in
      if not (is_success result)
      then (err, r1)
      else (if not (is_success sent) then (err, r2) else (advance, r2))

  -- resolveAndPublish with the payload that the cache has.
  unfoldable pub publish_payload :
      Specialized S → ConditionalType P → Service P S → StateResult × Service P S
  publish_payload payload requested r =
      let sync = env.set.clock r.set.stamps_used in
      let s = record payload {
        reference_id = env.set.guid r.set.guids_used;
        reference_timestamp = sync;
      } in
      let generic = record requested {
        specialization_id = s.reference_id;
        specialization_timestamp = sync;
      } in
      let r1 = drawn_time (drawn_guid r) in
      let existing = get_conditional_by_id requested.conditional_id r1 in
      let (sent, r2) = hand_out env (publishes requested.specialization_topic s) r1 in
      if not (is_success sent) then (err, r2) else upsert generic existing r2

  -- dispatchResolve: the cache is chosen by the topic.
  unfoldable pub dispatch_resolve : ConditionalType P → Service P S → StateResult × Service P S
  dispatch_resolve requested r =
      let r1 = record r { asked = suc r.asked } in
      if not (is_known requested.specialization_topic)
      then (err, r)
      else (elim (env.payload r.asked requested.specialization_topic requested) [
        | none ↦ (stay, r1)
        | some payload ↦ publish_payload payload requested r1
      ])

  unfoldable pub on_executing :
      ℕ → ℕ → ConditionalType P → AddProvider P S → StateResult × AddProvider P S
  on_executing max_wait id requested a =
      let p = pending_of id a.pending in
      let (result, r) = dispatch_resolve requested a.report in
      let (answer, p') = settle max_wait result p in
      if p.published || p.timed_out
      then (stay, record a { pending = T.insert id p a.pending })
      else (answer, record { report = r; pending = T.insert id p' a.pending })

module _ {P S : Type 0} where
  unfoldable pub is_command_completed : ℕ → AddProvider P S → Bool
  is_command_completed id a = elim (T.lookup id a.pending) [ none ↦ false | some p ↦ p.published ]

  unfoldable pub is_command_failed : ℕ → AddProvider P S → C.Reason
  is_command_failed id a = elim (T.lookup id a.pending) [
    | none ↦ C.succeeded
    | some p ↦ if p.timed_out then C.timeout else C.succeeded
  ]

  -- onCompleted, onCanceled and onFailed.
  unfoldable pub erase_pending : ℕ → AddProvider P S → AddProvider P S
  erase_pending id a = record a { pending = T.erase id a.pending }
