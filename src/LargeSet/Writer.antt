-- ===== src/LargeSet/Writer.antt =====
-- umaa/LargeSetWriter.h: the publisher of a large set. `Env` is that of the large list's writer:
-- the GUID factory, the clock and the DDS sender, each as its sequence of answers. The writer's
-- record counts the answers used so far, and `bus` holds the messages that were sent, the latest
-- first. `elements` is `elements_`, `element_table` is `elementTable_`; both are unordered in the
-- source and in the order of their insertions here.
pub mod Batch
pub mod Ids
pub mod Elements
pub mod Received
pub mod Sync
pub mod Steps
pub mod Update
pub mod Removal
pub mod History
pub mod Refinement
pub mod Collision
mod Examples
use umaa_cpp.Base.{
  ℕ, suc, ◌≡◌, ◌↔◌, refl, Bool, true, false, not, ◌||◌, ◌&&◌, Option, none, some, List, [], ◌∷◌,
  ◌++◌, map, length, arith, ◌==◌, if◌then◌else◌, is_some, get_elem?,
}
use umaa_cpp.Base.Sets.{Equality, add, remove as take_out}
use umaa_cpp.Time.{eq, eq_iff}
use umaa_cpp.LargeList.{nil_guid}
use umaa_cpp.Transport.{SendStatus, success, error, is_error, is_success}
use umaa_cpp.LargeList.Writer.{Env}
use umaa_cpp.LargeSet.{LargeSetMetadata, SetElement}
use umaa_cpp.LargeSet.Generate.{Sample, alive, disposed}

pub record Writer (E : Type 0) : Type 0 where
  pub elements : List (SetElement E)
  pub element_table : List (E × SetElement E)
  pub metadata : LargeSetMetadata
  pub set_id : ℕ
  pub guids_used : ℕ
  pub stamps_used : ℕ
  pub sends : ℕ
  pub bus : List (Sample E)

-- The generated `==` of SetElement, field by field.
abbrev pub same_element : {E : Type 0} → Equality E → SetElement E → SetElement E → Bool
same_element q a b =
    (a.set_id == b.set_id && a.element_id == b.element_id)
    && (q.same a.element b.element && eq a.element_timestamp b.element_timestamp)

pub same_element_iff :
    {E : Type 0} (q : Equality E) (a b : SetElement E) → (same_element q a b ≡ true) ↔ (a ≡ b)
same_element_iff q a b =
    let e = q.same_iff a.element b.element in
    let t = eq_iff a.element_timestamp b.element_timestamp in
    (λ h. ground (arith, e, t), λ h. ground (arith, e, t))

abbrev pub element_equality : {E : Type 0} → Equality E → Equality (SetElement E)
element_equality q = record { same = same_element q; same_iff = same_element_iff q }

-- The writer with the metadata of `updateMetadata`.
abbrev pub described : {E : Type 0} → SetElement E → Bool → Writer E → Writer E
described e is_dispose w = record w {
  metadata = record w.metadata {
    update_element_id = e.element_id;
    update_element_timestamp = if is_dispose then none else some e.element_timestamp;
    size = length w.elements;
  };
}

-- `std::unordered_map` of elements: `find` and `count`, `erase`, `insert`, and `m[value] = e`.
module _ {E : Type 0} (q : Equality E) where
  abbrev pub find : E → List (E × SetElement E) → Option (SetElement E)
  find value [] = none
  find value ((k, e) ∷ table) = if q.same k value then some e else find value table

  abbrev pub erase : E → List (E × SetElement E) → List (E × SetElement E)
  erase value [] = []
  erase value ((k, e) ∷ table) =
      if q.same k value then erase value table else (k, e) ∷ erase value table

  -- A value that is there keeps its entry.
  abbrev pub emplace : E → SetElement E → List (E × SetElement E) → List (E × SetElement E)
  emplace value e table = if is_some (find value table) then table else table ++ (value, e) ∷ []

  abbrev pub assign : E → SetElement E → List (E × SetElement E) → List (E × SetElement E)
  assign value e [] = (value, e) ∷ []
  assign value e ((k, f) ∷ table) =
      if q.same k value then (k, e) ∷ table else (k, f) ∷ assign value e table

-- The first entry that satisfies a condition.
abbrev pub find_if :
    {E : Type 0} → (E × SetElement E → Bool) → List (E × SetElement E) → Option (E × SetElement E)
find_if p [] = none
find_if p (x ∷ xs) = if p x then some x else find_if p xs

module _ {E : Type 0} where
  unfoldable pub get_element_by_id : ℕ → Writer E → Option E
  get_element_by_id id w = elim (find_if (λ x. x.1.element_id == id) w.element_table) [
    | none ↦ none
    | some x ↦ some x.0
  ]

  unfoldable pub find_set_element_if : (E → Bool) → Writer E → Option (SetElement E)
  find_set_element_if condition w = elim (find_if (λ x. condition x.0) w.element_table) [
    | none ↦ none
    | some x ↦ some x.1
  ]

  unfoldable pub size : Writer E → ℕ
  size w = length w.elements

  unfoldable pub empty : Writer E → Bool
  empty w = elim w.elements [ [] ↦ true | _ ∷ _ ↦ false ]

module _ {E : Type 0} (env : Env) where
  -- `send` and `dispose` of the sender. Only a message that is answered by SUCCESS is on the bus.
  abbrev pub publish : Sample E → Writer E → SendStatus × Writer E
  publish s w =
      let answer = env.outcome w.sends in
      (
        answer,
        record w { sends = suc w.sends; bus = if is_success answer then s ∷ w.bus else w.bus },
      )

  -- The time stamp, which is drawn after the GUID.
  abbrev pub new_set_element : E → Writer E → SetElement E × Writer E
  new_set_element value w = (
    record {
      set_id = w.set_id;
      element_id = env.guid w.guids_used;
      element = value;
      element_timestamp = env.clock w.stamps_used;
    },
    record w { guids_used = suc w.guids_used; stamps_used = suc w.stamps_used },
  )

  -- The first constructor.
  unfoldable pub new_writer : Writer E
  new_writer = record {
    elements = [];
    element_table = [];
    metadata = record {
      set_id = env.guid 0;
      update_element_id = nil_guid;
      update_element_timestamp = none;
      size = 0;
    };
    set_id = env.guid 0;
    guids_used = 1;
    stamps_used = 0;
    sends = 0;
    bus = [];
  }

module _ {E : Type 0} (q : Equality E) (env : Env) where
  unfoldable pub update : E → E → Writer E → SendStatus × Writer E
  update prev value w = elim (find q prev w.element_table) [
    | none ↦ (error, w)
    | some old ↦
        let e = record old { element = value; element_timestamp = env.clock w.stamps_used } in
        let (answer, w') = publish env (alive e) (record w { stamps_used = suc w.stamps_used }) in
        if is_error answer then (error, w') else (
          success,
          described e false (record w' {
            elements = add (element_equality q) e (take_out (element_equality q) old w'.elements);
            element_table = emplace q value e (erase q prev w'.element_table);
          }),
        )
  ]

  unfoldable pub update_by_id : ℕ → E → Writer E → SendStatus × Writer E
  unfolding update get_element_by_id
  update_by_id id value w = elim (get_element_by_id id w) [
    | none ↦ (error, w)
    | some prev ↦ update prev value w
  ]

  -- What `insert` does with its new element.
  unfoldable pub add_element : E → SetElement E → Writer E → SendStatus × Writer E
  add_element value e w =
      let (answer, w') = publish env (alive e) w in
      if is_error answer then (error, w') else (
        success,
        described e false (record w' {
          elements = add (element_equality q) e w'.elements;
          element_table = assign q value e w'.element_table;
        }),
      )

  -- `insert` of one value. The pointer is null or to an id; the id that it points to at the end is
  -- returned with the status.
  unfoldable pub insert : E → Option ℕ → Bool → Writer E → SendStatus × Option ℕ × Writer E
  unfolding add_element
  insert value element_id generate_id w =
      if is_some (find q value w.element_table)
      then (error, element_id, w)
      else (if not generate_id && not (is_some element_id)
          then (error, element_id, w)
          else (let (e, w') = new_set_element env value w in
              elim element_id [
                | none ↦ let (answer, w2) = add_element value e w' in (answer, none, w2)
                | some given ↦
                    if generate_id
                    then (let (answer, w2) = add_element value e w' in
                        (answer, some e.element_id, w2))
                    else (let (answer, w2) =
                          add_element value (record e { element_id = given }) w' in
                        (answer, some given, w2))
              ]))

  unfoldable pub remove : E → Writer E → SendStatus × Writer E
  remove value w = elim (find q value w.element_table) [
    | none ↦ (error, w)
    | some removed ↦
        let (answer, w') = publish env (disposed removed) w in
        if is_error answer then (error, w') else (
          success,
          described removed true (record w' {
            element_table = erase q value w'.element_table;
            elements = take_out (element_equality q) removed w'.elements;
          }),
        )
  ]

  unfoldable pub remove_by_id : ℕ → Writer E → SendStatus × Writer E
  unfolding remove get_element_by_id
  remove_by_id id w = elim (get_element_by_id id w) [
    | none ↦ (error, w)
    | some value ↦ remove value w
  ]

  -- The second loop of `clear`, over the copied values.
  unfoldable pub remove_each : List E → SendStatus → Writer E → SendStatus × Writer E
  unfolding remove
  remove_each [] status w = (status, w)
  remove_each (v ∷ vs) status w =
      let (answer, w') = remove v w in
      remove_each vs (if is_success answer then status else error) w'

  unfoldable pub clear : Writer E → SendStatus × Writer E
  unfolding remove_each
  clear w = remove_each (map (λ x. x.0) w.element_table) success w
