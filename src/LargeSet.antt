-- ===== src/LargeSet.antt =====
-- umaa/LargeSet.h: the reader's view of one UMAA large set, whose elements and whose metadata
-- arrive as separate messages. A GUID is the number that its 16 bytes spell; NIL_GUID is 0. The
-- `std::map` of elements is a table, the shared pointer to the cached set is an optional set. The
-- order in which a `std::unordered_set` holds its items is left open by the source; here it is that
-- of their arrival, and no theorem depends on it.
pub mod Generate
pub mod Reader
pub mod Writer
mod Examples
use umaa_cpp.Base.{
  ℕ, Bool, true, false, Option, none, some, List, [], ◌∷◌, length, ◌==◌, not, if◌then◌else◌,
  is_some,
}
use umaa_cpp.Base.Table.{lookup, insert, erase}
use umaa_cpp.Base.Sets.{Equality, add}
use umaa_cpp.Time.{DateTime}
use umaa_cpp.LargeList.{nil_guid, is_late, is_newer}

pub record LargeSetMetadata : Type 0 where
  pub set_id : ℕ
  pub update_element_id : ℕ
  pub update_element_timestamp : Option DateTime
  pub size : ℕ

pub record SetElement (E : Type 0) : Type 0 where
  pub set_id : ℕ
  pub element_id : ℕ
  pub element : E
  pub element_timestamp : DateTime

pub data LargeSetStatus : Type 0 where
  valid_set empty_set invalid_set stale_metadata : LargeSetStatus

pub record LargeSetResult (E : Type 0) : Type 0 where
  pub status : LargeSetStatus
  pub set : Option (List E)

pub record LargeSet (E : Type 0) : Type 0 where
  pub set_id : ℕ
  pub latest_metadata : LargeSetMetadata
  pub element_table : List (ℕ × SetElement E)
  pub cached_set : Option (List E)

module _ {E : Type 0} where
  unfoldable pub new_by_id : ℕ → LargeSet E
  new_by_id id = record {
    set_id = id;
    latest_metadata = record {
      set_id = id;
      update_element_id = nil_guid;
      update_element_timestamp = none;
      size = 0;
    };
    element_table = [];
    cached_set = none;
  }

  unfoldable pub new_by_metadata : LargeSetMetadata → LargeSet E
  new_by_metadata metadata = record {
    set_id = metadata.set_id;
    latest_metadata = metadata;
    element_table = [];
    cached_set = none;
  }

  abbrev pub failed : LargeSetStatus → LargeSetResult E
  failed s = record { status = s; set = none }

  unfoldable pub receive_element : LargeSet E → SetElement E → Bool × LargeSet E
  receive_element l e =
      if not (e.set_id == l.set_id)
      then (false, l)
      else (true, record l { element_table = insert e.element_id e l.element_table })

  unfoldable pub dispose : LargeSet E → SetElement E → Bool × LargeSet E
  dispose l e =
      if not (e.set_id == l.set_id)
      then (false, l)
      else (if is_some (lookup e.element_id l.element_table)
          then (true, record l { element_table = erase e.element_id l.element_table })
          else (false, l))

  unfoldable pub size : LargeSet E → ℕ
  size l = length l.element_table

  unfoldable pub empty : LargeSet E → Bool
  empty l = elim l.element_table [ [] ↦ true | _ ∷ _ ↦ false ]

  module _ (q : Equality E) where
    -- The `for` loop of `generateSet`, after it has inserted into `set`; `none` is its early return.
    unfoldable pub collect : Option DateTime → List (ℕ × SetElement E) → List E → Option (List E)
    collect limit [] set = some set
    collect limit ((id, e) ∷ table) set =
        let rest = collect limit table (add q e.element set) in
        if is_late limit e.element_timestamp then none else rest

    unfoldable pub generate_set : LargeSet E → LargeSetResult E × LargeSet E
    unfolding collect
    generate_set l =
        if l.latest_metadata.size == 0
        then (failed empty_set, l)
        else (elim (collect l.latest_metadata.update_element_timestamp l.element_table []) [
          | none ↦ (failed invalid_set, l)
          | some set ↦
              if not (length set == l.latest_metadata.size) then (failed invalid_set, l) else (
                record { status = valid_set; set = some set },
                record l { cached_set = some set },
              )
        ])

    unfoldable pub get_set : LargeSet E → LargeSetResult E × LargeSet E
    unfolding generate_set
    get_set l = elim l.cached_set [
      | some set ↦ (record { status = valid_set; set = some set }, l)
      | none ↦ if l.latest_metadata.size == 0 then (failed empty_set, l) else generate_set l
    ]

    unfoldable pub receive_metadata : LargeSet E → LargeSetMetadata → LargeSetResult E × LargeSet E
    unfolding generate_set
    receive_metadata l metadata =
        if not (metadata.set_id == l.set_id)
        then (failed invalid_set, l)
        else (if is_newer metadata.update_element_timestamp
              l.latest_metadata.update_element_timestamp
            then generate_set (record l { latest_metadata = metadata; cached_set = none })
            else (failed stale_metadata, l))
