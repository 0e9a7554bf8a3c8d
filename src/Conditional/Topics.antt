-- ===== src/Conditional/Topics.antt =====
-- Equality of topics and of general conditionals.
use umaa_cpp.Base.{
  ℕ, zero, suc, ◌≡◌, ◌↔◌, refl, sym, ◌∙◌, ap, Bool, true, ◌&&◌, ◌==◌, arith, ==_iff,
}
use umaa_cpp.Base.Sets.{Equality}
use umaa_cpp.Time.{eq, eq_iff}
use umaa_cpp.Conditional.{
  Topic, ConditionalType, other, constraint_violated, depth, depth_rate, emitter_preset, exp,
  heading_sector, logical_and, logical_not, logical_or, mission_state, objective_state, pitch_rate,
  relative_speed, roll_rate, speed, task_state, time, water_zone, yaw_rate,
}

-- Topics by their numbers.
abbrev topic_code : Topic → ℕ
topic_code constraint_violated = 0
topic_code depth = 1
topic_code depth_rate = 2
topic_code emitter_preset = 3
topic_code exp = 4
topic_code heading_sector = 5
topic_code logical_and = 6
topic_code logical_not = 7
topic_code logical_or = 8
topic_code mission_state = 9
topic_code objective_state = 10
topic_code pitch_rate = 11
topic_code relative_speed = 12
topic_code roll_rate = 13
topic_code speed = 14
topic_code task_state = 15
topic_code time = 16
topic_code water_zone = 17
topic_code yaw_rate = 18
topic_code (other n) = suc (
    suc (
      suc (
        suc (
          suc (
            suc (suc (suc (suc (suc (suc (suc (suc (suc (suc (suc (suc (suc (suc n))))))))))))))))))

abbrev topic_of : ℕ → Topic
topic_of zero = constraint_violated
topic_of (suc zero) = depth
topic_of (suc (suc zero)) = depth_rate
topic_of (suc (suc (suc zero))) = emitter_preset
topic_of (suc (suc (suc (suc zero)))) = exp
topic_of (suc (suc (suc (suc (suc zero))))) = heading_sector
topic_of (suc (suc (suc (suc (suc (suc zero)))))) = logical_and
topic_of (suc (suc (suc (suc (suc (suc (suc zero))))))) = logical_not
topic_of (suc (suc (suc (suc (suc (suc (suc (suc zero)))))))) = logical_or
topic_of (suc (suc (suc (suc (suc (suc (suc (suc (suc zero))))))))) = mission_state
topic_of (suc (suc (suc (suc (suc (suc (suc (suc (suc (suc zero)))))))))) = objective_state
topic_of (suc (suc (suc (suc (suc (suc (suc (suc (suc (suc (suc zero))))))))))) = pitch_rate
topic_of (suc (suc (suc (suc (suc (suc (suc (suc (suc (suc (suc (suc zero)))))))))))) =
    relative_speed
topic_of (suc (suc (suc (suc (suc (suc (suc (suc (suc (suc (suc (suc (suc zero))))))))))))) =
    roll_rate
topic_of (suc (suc (suc (suc (suc (suc (suc (suc (suc (suc (suc (suc (suc (suc zero)))))))))))))) =
    speed
topic_of
      (suc
        (suc (suc (suc (suc (suc (suc (suc (suc (suc (suc (suc (suc (suc (suc zero))))))))))))))) =
    task_state
topic_of
      (suc (
        suc (
          suc
            (suc (suc (suc (suc (suc (suc (suc (suc (suc (suc (suc (suc (suc zero)))))))))))))))) =
    time
topic_of
      (suc (
        suc (
          suc (
            suc (
              suc
                (suc (suc (suc (suc (suc (suc (suc (suc (suc (suc (suc (suc zero))))))))))))))))) =
    water_zone
topic_of
      (suc (
        suc (
          suc (
            suc (
              suc (
                suc (
                  suc
                    (suc (suc (suc (suc (suc (suc (suc (suc (suc (suc (suc zero)))))))))))))))))) =
    yaw_rate
topic_of
      (suc (
        suc (
          suc (
            suc (
              suc (
                suc (
                  suc (
                    suc
                      (suc (suc (suc (suc (suc (suc (suc (suc (suc (suc (suc n))))))))))))))))))) =
    other n

topic_of_lem : (t : Topic) → topic_of (topic_code t) ≡ t
topic_of_lem constraint_violated = refl
topic_of_lem depth = refl
topic_of_lem depth_rate = refl
topic_of_lem emitter_preset = refl
topic_of_lem exp = refl
topic_of_lem heading_sector = refl
topic_of_lem logical_and = refl
topic_of_lem logical_not = refl
topic_of_lem logical_or = refl
topic_of_lem mission_state = refl
topic_of_lem objective_state = refl
topic_of_lem pitch_rate = refl
topic_of_lem relative_speed = refl
topic_of_lem roll_rate = refl
topic_of_lem speed = refl
topic_of_lem task_state = refl
topic_of_lem time = refl
topic_of_lem water_zone = refl
topic_of_lem yaw_rate = refl
topic_of_lem (other n) = refl

-- `==` of the topics, which are strings in the source.
unfoldable pub same_topic : Topic → Topic → Bool
same_topic a b = topic_code a == topic_code b

pub same_topic_iff : (a b : Topic) → (same_topic a b ≡ true) ↔ (a ≡ b)
unfolding same_topic
same_topic_iff a b = (
  λ h.
      sym (topic_of_lem a)
      ∙ ap topic_of ((==_iff (topic_code a) (topic_code b)).0 h)
      ∙ topic_of_lem b,
  λ e. (==_iff (topic_code a) (topic_code b)).1 (ap topic_code e),
)

-- The generated `==` of ConditionalType, field by field.
abbrev pub same_conditional :
    {P : Type 0} → Equality P → ConditionalType P → ConditionalType P → Bool
same_conditional q a b =
    (a.conditional_id == b.conditional_id && a.specialization_id == b.specialization_id)
    && (same_topic a.specialization_topic b.specialization_topic
        && (eq a.specialization_timestamp b.specialization_timestamp && q.same a.content b.content))

pub same_conditional_iff :
    {P : Type 0} (q : Equality P) (a b : ConditionalType P)
    → (same_conditional q a b ≡ true) ↔ (a ≡ b)
same_conditional_iff q a b =
    let t = same_topic_iff a.specialization_topic b.specialization_topic in
    let e = eq_iff a.specialization_timestamp b.specialization_timestamp in
    let c = q.same_iff a.content b.content in
    (λ h. ground (arith, t, e, c), λ h. ground (arith, t, e, c))

abbrev pub conditional_equality : {P : Type 0} → Equality P → Equality (ConditionalType P)
conditional_equality q = record { same = same_conditional q; same_iff = same_conditional_iff q }
