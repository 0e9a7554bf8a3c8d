-- ===== src/LargeList/Writer.antt =====
-- umaa/LargeListWriter.h: the publisher of a large list. `Env` is what the object calls and does
-- not hold: the GUID factory, the clock and the DDS sender, each as its sequence of answers. The
-- writer's record counts the answers used so far, and `bus` holds the messages that were sent, the
-- latest first.
pub mod Add
pub mod Remove
pub mod Store
pub mod Stores
pub mod Steps
pub mod Sync
pub mod Sound
pub mod Append
pub mod History
pub mod Refinement
pub mod Faults
pub mod Delivery
mod Examples
use umaa_cpp.Base.{ℕ, suc, Bool, Option, none, some, List, [], ◌∷◌, length, if◌then◌else◌}
use umaa_cpp.Transport.{SendStatus, success, error, not_implemented}
use umaa_cpp.Time.{DateTime}
use umaa_cpp.LargeList.{LargeListMetadata, ListElement, nil_guid}
use umaa_cpp.LargeList.Generate.{Sample}

pub record Env : Type 0 where
  pub guid : ℕ → ℕ
  pub clock : ℕ → DateTime
  pub outcome : ℕ → SendStatus
  -- The time stamp of a message that none has been given.
  pub no_time : DateTime

pub record Writer (E : Type 0) : Type 0 where
  pub elements : List (ListElement E)
  pub metadata : LargeListMetadata
  pub list_id : ℕ
  pub guids_used : ℕ
  pub stamps_used : ℕ
  pub sends : ℕ
  pub bus : List (Sample E)

-- A call ends with SendStatus::SUCCESS, with SendStatus::ERROR or in undefined behaviour.
pub data Outcome (E : Type 0) (A : Type 0) : Type 0 where
  ok : A → Writer E → Outcome E A
  failed : Writer E → Outcome E A
  undefined : Outcome E A

abbrev pub M : Type 0 → Type 0 → Type 0
M E A = Writer E → Outcome E A

infixl 5 ◌>>=◌ ◌>>◌
abbrev pub ◌>>=◌ : {E A B : Type 0} → M E A → (A → M E B) → M E B
◌>>=◌ m f w = elim (m w) [ ok a w' ↦ f a w' | failed w' ↦ failed w' | undefined ↦ undefined ]

abbrev pub ◌>>◌ : {E B : Type 0} → M E (Unit {0}) → M E B → M E B
m >> k = m >>= λ _. k

abbrev pub fails : {E A : Type 0} → M E A
fails w = failed w

abbrev pub change : {E : Type 0} → (Writer E → Writer E) → M E (Unit {0})
change f w = ok tt (f w)

abbrev pub head_id : {E : Type 0} → List (ListElement E) → Option ℕ
head_id [] = none
head_id (x ∷ xs) = some x.element_id

-- The metadata's starting id.
abbrev pub start_of : {E : Type 0} → List (ListElement E) → ℕ
start_of [] = nil_guid
start_of (x ∷ xs) = x.element_id

-- The writer with the metadata of `updateMetadata`.
abbrev pub described : {E : Type 0} → ListElement E → Bool → Writer E → Writer E
described e is_dispose w = record w {
  metadata = record w.metadata {
    update_element_id = e.element_id;
    update_element_timestamp = if is_dispose then none else some e.element_timestamp;
    size = length w.elements;
    starting_element_id = start_of w.elements;
  };
}

module _ {E : Type 0} (env : Env) where
  unfoldable pub get_timestamp : M E DateTime
  get_timestamp w = ok (env.clock w.stamps_used) (record w { stamps_used = suc w.stamps_used })

  -- A message whose send returns ERROR or NOT_IMPLEMENTED has not reached the bus.
  unfoldable pub publish : Sample E → M E (Unit {0})
  publish s w = elim (env.outcome w.sends) [
    | success ↦ ok tt (record w { sends = suc w.sends; bus = s ∷ w.bus })
    | error ↦ failed (record w { sends = suc w.sends })
    | not_implemented ↦ ok tt (record w { sends = suc w.sends })
  ]

  unfoldable pub new_list_element : E → M E (ListElement E)
  new_list_element value w =
      ok
        (record {
          list_id = w.list_id;
          element_id = env.guid w.guids_used;
          element = value;
          next_element_id = none;
          element_timestamp = env.no_time;
        })
        (record w { guids_used = suc w.guids_used })

  unfoldable pub update_metadata : ListElement E → Bool → M E (Unit {0})
  update_metadata e is_dispose = change (described e is_dispose)

-- The first constructor. The second one calls `prepend` on the writer of the first.
unfoldable pub new_writer : {E : Type 0} → Env → Writer E
new_writer env = record {
  elements = [];
  metadata = record {
    list_id = env.guid 0;
    starting_element_id = nil_guid;
    update_element_id = nil_guid;
    update_element_timestamp = none;
    size = 0;
  };
  list_id = env.guid 0;
  guids_used = 1;
  stamps_used = 0;
  sends = 0;
  bus = [];
}
