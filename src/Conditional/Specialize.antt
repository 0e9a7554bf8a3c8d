-- ===== src/Conditional/Specialize.antt =====
-- ConditionalReportProvider.h: addSpecialization and updateSpecialization.
use umaa_cpp.Base.{ℕ, Bool, not, ◌||◌, none, some, ◌==◌, if◌then◌else◌}
use umaa_cpp.Base.Sets.{Equality}
use umaa_cpp.Transport.{SendStatus, error, not_implemented, is_success}
use umaa_cpp.LargeList.{nil_guid}
use umaa_cpp.LargeSet.Writer.{update}
use umaa_cpp.Conditional.Topics.{same_topic}
use umaa_cpp.Conditional.{
  Topic, is_known, ConditionalType, Specialized, publishes, Env, Service, drawn_guid, drawn_time,
  with_set, hand_out, get_conditional_by_id, dispose_conditional_specialization, add_conditional,
}

module _ {P S : Type 0} (q : Equality (ConditionalType P)) (env : Env P S) where
  -- The specialization with a new reference id, where one is asked for, and the service after it.
  abbrev pub renew : Bool → Specialized S → Service P S → Specialized S × Service P S
  renew generate s r =
      if generate
      then (record s { reference_id = env.set.guid r.set.guids_used }, drawn_guid r)
      else (s, r)

  -- The operator is given the topic of the specialization's type, which getTopicAndWriter looks up.
  -- It returns the status, the new conditional's id, the specialization and the service.
  unfoldable pub add_specialization :
      Topic → Specialized S → Bool → Service P S → SendStatus × ℕ × Specialized S × Service P S
  add_specialization topic s generate r =
      let (s1, r1) = renew generate s r in
      let sync = env.set.clock r1.set.stamps_used in
      let generic : ConditionalType P = record {
        conditional_id = env.set.guid r1.set.guids_used;
        specialization_id = s1.reference_id;
        specialization_topic = topic;
        specialization_timestamp = sync;
        content = env.blank;
      } in
      let s2 = record s1 { reference_timestamp = sync } in
      let (result, r2) = hand_out env (publishes topic s2) (drawn_time (drawn_guid r1)) in
      let (inserted, r3) = add_conditional q env generic r2 in
      if not (is_known topic)
      then (not_implemented, nil_guid, s, r)
      else (if not (is_success result)
          then (result, generic.conditional_id, s2, r2)
          else (inserted, generic.conditional_id, s2, r3))

  -- Whether the old specialization gives way.
  abbrev pub is_replaced : Topic → Specialized S → Bool → ConditionalType P → Bool
  is_replaced topic s generate existing =
      generate
      || (not (s.reference_id == existing.specialization_id)
          || not (same_topic existing.specialization_topic topic))

  unfoldable pub update_specialization :
      ℕ → Topic → Specialized S → Bool → Service P S → SendStatus × Specialized S × Service P S
  update_specialization id topic s generate r =
      let (s1, r1) = renew generate s r in
      elim (get_conditional_by_id id r1) [
        | none ↦ (error, s1, r1)
        | some existing ↦
            let r2 =
              if is_replaced topic s1 generate existing
              then (dispose_conditional_specialization env existing r1).1
              else r1 in
            let sync = env.set.clock r2.set.stamps_used in
            let updated = record existing {
              specialization_id = s1.reference_id;
              specialization_topic = topic;
              specialization_timestamp = sync;
            } in
            let s2 = record s1 { reference_timestamp = sync } in
            let (result, r3) = hand_out env (publishes topic s2) (drawn_time r2) in
            let (status, r4) = with_set r3 (update q env.set existing updated r3.set) in
            if not (is_success result) then (result, s2, r3) else (status, s2, r4)
      ]
