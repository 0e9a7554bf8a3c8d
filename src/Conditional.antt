-- ===== src/Conditional.antt =====
-- services/ConditionalReportProvider: the conditionals that a service reports, as a large set of
-- general conditionals next to the specialized ones, each of which is published on the topic of its
-- kind. `Env` is what the object calls: the set writer's environment, the senders of the specialized
-- topics and of the report, and the caches of the payloads that commanders publish. `log` holds what
-- was handed to those senders, the latest first, with the answer. A specialization topic outside the
-- 19 that the code names is `other`; fields that the code only copies are `content`.
pub mod Topics
pub mod Specialize
pub mod Add
pub mod Delete
pub mod Ids
pub mod Upsert
pub mod Wait
pub mod Payloads
pub mod Clearing
mod Examples
use umaa_cpp.Base.{
  ℕ, suc, Bool, true, false, not, ◌||◌, ◌&&◌, Option, none, some, List, [], ◌∷◌, ◌==◌,
  if◌then◌else◌, is_some,
}
use umaa_cpp.Base.Sets.{Equality}
use umaa_cpp.Time.{DateTime}
use umaa_cpp.Transport.{SendStatus, success, error, not_implemented, is_success}
use umaa_cpp.LargeList.{nil_guid}
use umaa_cpp.LargeList.Writer as W
use umaa_cpp.LargeSet.{LargeSetMetadata, SetElement}
use umaa_cpp.LargeSet.Writer.{Writer, insert, update, remove}
use umaa_cpp.LargeSet.Writer.Elements.{values}

pub data Topic : Type 0 where
  constraint_violated depth depth_rate emitter_preset exp heading_sector : Topic
  logical_and logical_not logical_or mission_state objective_state pitch_rate : Topic
  relative_speed roll_rate speed task_state time water_zone yaw_rate : Topic
  other : ℕ → Topic

-- Whether a topic is one of those that the code names.
abbrev pub is_known : Topic → Bool
is_known (other n) = false
is_known _ = true

pub record ConditionalType (P : Type 0) : Type 0 where
  pub conditional_id : ℕ
  pub specialization_id : ℕ
  pub specialization_topic : Topic
  pub specialization_timestamp : DateTime
  pub content : P

pub record Specialized (S : Type 0) : Type 0 where
  pub reference_id : ℕ
  pub reference_timestamp : DateTime
  pub content : S

pub data Outgoing (S : Type 0) : Type 0 where
  publishes : Topic → Specialized S → Outgoing S
  disposes : Topic → ℕ → Outgoing S
  reports : LargeSetMetadata → Outgoing S

pub record Env (P S : Type 0) : Type 0 where
  pub set : W.Env
  pub send : ℕ → SendStatus
  -- The fields of a new ConditionalType.
  pub blank : P
  pub payload : ℕ → Topic → ConditionalType P → Option (Specialized S)

-- The provider: `set` is the LargeSetWriter that it extends.
pub record Service (P S : Type 0) : Type 0 where
  pub set : Writer (ConditionalType P)
  pub sends : ℕ
  pub asked : ℕ
  pub log : List (Outgoing S × SendStatus)

abbrev pub find_id :
    {P : Type 0} → ℕ → List (SetElement (ConditionalType P)) → Option (ConditionalType P)
find_id id [] = none
find_id id (e ∷ es) = if e.element.conditional_id == id then some e.element else find_id id es

module _ {P S : Type 0} where
  unfoldable pub get_conditionals : Service P S → List (ConditionalType P)
  get_conditionals r = values r.set.elements

  unfoldable pub get_conditional_by_id : ℕ → Service P S → Option (ConditionalType P)
  get_conditional_by_id id r = find_id id r.set.elements

  -- The service after an operation of its set.
  abbrev pub with_set :
      Service P S → SendStatus × Writer (ConditionalType P) → SendStatus × Service P S
  with_set r (status, w) = (status, record r { set = w })

  -- The service after the factory and the clock were asked.
  abbrev pub drawn_guid : Service P S → Service P S
  drawn_guid r = record r { set = record r.set { guids_used = suc r.set.guids_used } }

  abbrev pub drawn_time : Service P S → Service P S
  drawn_time r = record r { set = record r.set { stamps_used = suc r.set.stamps_used } }

module _ {P S : Type 0} (env : Env P S) where
  abbrev pub hand_out : Outgoing S → Service P S → SendStatus × Service P S
  hand_out m r =
      let answer = env.send r.sends in
      (answer, record r { sends = suc r.sends; log = (m, answer) ∷ r.log })

  unfoldable pub send_report : Service P S → SendStatus × Service P S
  send_report r = hand_out (reports r.set.metadata) r

  -- The writer is chosen by the topic; for no other topic is there one.
  unfoldable pub dispose_conditional_specialization :
      ConditionalType P → Service P S → SendStatus × Service P S
  dispose_conditional_specialization cond r =
      if is_known cond.specialization_topic
      then hand_out (disposes cond.specialization_topic cond.specialization_id) r
      else (not_implemented, r)

module _ {P S : Type 0} (q : Equality (ConditionalType P)) (env : Env P S) where
  unfoldable pub add_conditional : ConditionalType P → Service P S → SendStatus × Service P S
  add_conditional c r =
      let (status, _, w) = insert q env.set c none true r.set in (status, record r { set = w })

  unfoldable pub update_conditional : ConditionalType P → Service P S → SendStatus × Service P S
  update_conditional c r = elim (get_conditional_by_id c.conditional_id r) [
    | none ↦ (error, r)
    | some prev ↦ with_set r (update q env.set prev c r.set)
  ]

  unfoldable pub remove_conditional : ConditionalType P → Service P S → SendStatus × Service P S
  remove_conditional c r = with_set r (remove q env.set c r.set)

  unfoldable pub remove_specialization : ℕ → Service P S → SendStatus × Service P S
  remove_specialization id r = elim (get_conditional_by_id id r) [
    | none ↦ (error, r)
    | some existing ↦
        let r' = (dispose_conditional_specialization env existing r).1 in
        with_set r' (remove q env.set existing r'.set)
  ]
