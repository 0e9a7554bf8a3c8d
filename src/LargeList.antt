-- ===== src/LargeList.antt =====
-- umaa/LargeList.h: the reader's view of one UMAA large list, a linked list whose elements and
-- whose metadata arrive as separate messages. A GUID is the number that its 16 bytes spell;
-- NIL_GUID is 0. The `std::map` of elements is a table, the shared pointer to the
-- cached list is an optional list.
pub mod Loop
pub mod Generate
pub mod Reader
pub mod Writer
mod Examples
use umaa_cpp.Base.{
  ℕ, zero, suc, Bool, true, false, Option, none, some, List, [], ◌∷◌, ◌++◌, length, ◌==◌, ltb, not,
  ◌||◌, if◌then◌else◌, is_some,
}
use umaa_cpp.Base.Table.{lookup, insert, erase, contains}
use umaa_cpp.Time.{DateTime, gt, ge}

abbrev pub nil_guid : ℕ
nil_guid = 0

pub record LargeListMetadata : Type 0 where
  pub list_id : ℕ
  pub starting_element_id : ℕ
  pub update_element_id : ℕ
  pub update_element_timestamp : Option DateTime
  pub size : ℕ

pub record ListElement (E : Type 0) : Type 0 where
  pub list_id : ℕ
  pub element_id : ℕ
  pub element : E
  pub next_element_id : Option ℕ
  pub element_timestamp : DateTime

pub data LargeListStatus : Type 0 where
  valid_list empty_list invalid_list : LargeListStatus

pub record LargeListResult (E : Type 0) : Type 0 where
  pub status : LargeListStatus
  pub list : Option (List E)

pub record LargeList (E : Type 0) : Type 0 where
  pub list_id : ℕ
  pub latest_metadata : LargeListMetadata
  pub element_table : List (ℕ × ListElement E)
  pub cached_list : Option (List E)

-- What the `while` loop of `generateList` comes to; `unfinished` is the end of the fuel.
pub data Walk (E : Type 0) : Type 0 where
  done : List E → Walk E
  broken unfinished : Walk E

abbrev pub is_late : Option DateTime → DateTime → Bool
is_late none t = false
is_late (some limit) t = gt t limit

-- Whether metadata with the first time stamp may replace metadata with the second.
abbrev pub is_newer : Option DateTime → Option DateTime → Bool
is_newer none old = true
is_newer (some t) none = true
is_newer (some t) (some old) = ge t old

module _ {E : Type 0} where
  unfoldable pub new_by_id : ℕ → LargeList E
  new_by_id id = record {
    list_id = id;
    latest_metadata = record {
      list_id = id;
      starting_element_id = nil_guid;
      update_element_id = nil_guid;
      update_element_timestamp = none;
      size = 0;
    };
    element_table = [];
    cached_list = none;
  }

  unfoldable pub new_by_metadata : LargeListMetadata → LargeList E
  new_by_metadata metadata = record {
    list_id = metadata.list_id;
    latest_metadata = metadata;
    element_table = [];
    cached_list = none;
  }

  -- The loop of `generateList`: `visited` holds the ids that it has marked, `list` what it has
  -- pushed. Marking with `visited[nextId]` and testing are `∷` and `contains`.
  unfoldable pub walk :
      List (ℕ × ListElement E) → Option DateTime → ℕ → List ℕ → ℕ → List E → Walk E
  walk table limit zero visited next_id list = unfinished
  walk table limit (suc fuel) visited next_id list =
      let stop = walk table limit fuel (next_id ∷ visited) nil_guid in
      let go = walk table limit fuel (next_id ∷ visited) in
      if next_id == nil_guid then done list else (elim (lookup next_id table) [
        | none ↦ broken
        | some e ↦ if is_late limit e.element_timestamp then broken else (elim e.next_element_id [
          | none ↦ stop (list ++ e.element ∷ [])
          | some n ↦
              if contains n (next_id ∷ visited) then broken else go n (list ++ e.element ∷ [])
        ])
      ])

  abbrev pub failed : LargeListStatus → LargeListResult E
  failed s = record { status = s; list = none }

  -- Each round marks one more entry of the table, so that the table's size and one are enough.
  unfoldable pub walk_all : LargeList E → Walk E
  walk_all l =
      walk l.element_table l.latest_metadata.update_element_timestamp (suc (length l.element_table))
        [] l.latest_metadata.starting_element_id []

  unfoldable pub generate_list : LargeList E → LargeListResult E × LargeList E
  generate_list l =
      if l.latest_metadata.size == 0 then (failed empty_list, l) else (elim (walk_all l) [
        | done list ↦
            if length list == l.latest_metadata.size
            then (
              record { status = valid_list; list = some list },
              record l { cached_list = some list },
            )
            else (failed invalid_list, l)
        | broken ↦ (failed invalid_list, l)
        | unfinished ↦ (failed invalid_list, l)
      ])

  unfoldable pub get_list : LargeList E → LargeListResult E × LargeList E
  unfolding generate_list
  get_list l = elim l.cached_list [
    | some list ↦ (record { status = valid_list; list = some list }, l)
    | none ↦ if l.latest_metadata.size == 0 then (failed empty_list, l) else generate_list l
  ]

  unfoldable pub receive_element : LargeList E → ListElement E → Bool × LargeList E
  receive_element l e =
      if not (e.list_id == l.list_id)
      then (false, l)
      else (true, record l { element_table = insert e.element_id e l.element_table })

  unfoldable pub receive_metadata :
      LargeList E → LargeListMetadata → LargeListResult E × LargeList E
  unfolding generate_list
  receive_metadata l metadata =
      if not (metadata.list_id == l.list_id)
      then (failed invalid_list, l)
      else (if is_newer metadata.update_element_timestamp l.latest_metadata.update_element_timestamp
          then generate_list (record l { latest_metadata = metadata; cached_list = none })
          else (failed invalid_list, l))

  unfoldable pub dispose : LargeList E → ListElement E → Bool × LargeList E
  dispose l e =
      if not (e.list_id == l.list_id)
      then (false, l)
      else (if is_some (lookup e.element_id l.element_table)
          then (true, record l { element_table = erase e.element_id l.element_table })
          else (false, l))
