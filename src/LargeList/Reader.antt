-- ===== src/LargeList/Reader.antt =====
-- umaa/LargeListReader.h: the large lists that the element messages of one topic make up, in a table
-- by their ids. The DDS reader is a parameter: what each call of readUpToN gives.
pub mod Updates
mod Examples
use umaa_cpp.Base.{
  ℕ, zero, suc, ◌+◌, ◌<◌, ◌≤◌, ◌≡◌, ◌≢◌, refl, sym, ◌∙◌, ap, Bool, true, false, Option, none, some,
  List, [], ◌∷◌, ◌++◌, length, ltb, ◌==◌, if◌then◌else◌, arith, is_some, Bool-cases, inl, inr,
}
use umaa_cpp.Base.Table.{lookup, insert, erase, lookup-insert}
use umaa_cpp.LargeList.{
  ListElement, LargeList, LargeListMetadata, LargeListResult, invalid_list, failed, new_by_id,
  new_by_metadata, get_list, receive_element, receive_metadata, dispose,
}
use umaa_cpp.LargeList.Generate.{Sample, alive, disposed, accept, accept_all}

-- What the buffer holds for one sample: a message, or one whose status is INVALID_DATA.
pub data Envelope (E : Type 0) : Type 0 where
  valid_data : Sample E → Envelope E
  invalid_data : Envelope E

pub record Reader (E : Type 0) : Type 0 where
  pub list_table : List (ℕ × LargeList E)
  pub reads : ℕ

abbrev pub list_of : {E : Type 0} → Sample E → ℕ
list_of (alive e) = e.list_id
list_of (disposed e) = e.list_id

abbrev pub max_read_per_update : ℕ
max_read_per_update = 50

module _ {E : Type 0} where
  -- The list of an id, which is made when it is first met.
  abbrev pub fetch : ℕ → List (ℕ × LargeList E) → LargeList E
  fetch id table = elim (lookup id table) [ none ↦ new_by_id id | some l ↦ l ]

  unfoldable pub process : Envelope E → List (ℕ × LargeList E) → List (ℕ × LargeList E)
  unfolding accept
  process invalid_data table = table
  process (valid_data s) table = insert (list_of s) (accept (fetch (list_of s) table) s) table

  -- The `for` loop over one batch.
  unfoldable pub process_all : List (Envelope E) → List (ℕ × LargeList E) → List (ℕ × LargeList E)
  unfolding process
  process_all [] table = table
  process_all (x ∷ xs) table = process_all xs (process x table)

module _ {E : Type 0} (read_up_to_n : ℕ → List (Envelope E)) where
  -- The `while` loop of updateListElements, after `total` samples; `none` is the end of the fuel.
  -- It reads a batch, and goes on while the batch is not empty and no more than 50 samples were
  -- read before it.
  unfoldable pub update_loop : ℕ → ℕ → Reader E → Option (Reader E)
  unfolding process_all
  update_loop zero total r = none
  update_loop (suc fuel) total r =
      let batch = read_up_to_n r.reads in
      let r' : Reader E = record {
        list_table = process_all batch r.list_table;
        reads = suc r.reads;
      } in
      let rest = update_loop fuel (total + length batch) r' in
      if length batch == 0
      then some r'
      else (if ltb max_read_per_update (total + length batch) then some r' else rest)

  -- updateListElements. A batch that lets the loop go on has a sample, and 51 of them end it, so
  -- that 52 rounds are enough.
  unfoldable pub update_list_elements : Reader E → Option (Reader E)
  unfolding update_loop
  update_list_elements r = update_loop 52 0 r

  unfoldable pub updated : Reader E → Reader E
  unfolding update_list_elements
  updated r = elim (update_list_elements r) [ none ↦ r | some r' ↦ r' ]

  unfoldable pub get_list_by_id : ℕ → Reader E → LargeListResult E × Reader E
  unfolding updated update_list_elements get_list
  get_list_by_id id r =
      let r' = updated r in
      elim (lookup id r'.list_table) [
        | none ↦ (failed invalid_list, r')
        | some l ↦
            let (result, l') = get_list l in
            (result, record r' { list_table = insert id l' r'.list_table })
      ]

  unfoldable pub remove_list_by_id : ℕ → Reader E → Bool × Reader E
  unfolding updated update_list_elements
  remove_list_by_id id r =
      let r' = updated r in
      if is_some (lookup id r'.list_table)
      then (true, record r' { list_table = erase id r'.list_table })
      else (false, r')

  unfoldable pub remove_list_by_metadata : LargeListMetadata → Reader E → Bool × Reader E
  unfolding remove_list_by_id
  remove_list_by_metadata metadata r = remove_list_by_id metadata.list_id r

  unfoldable pub get_list_from_metadata :
      LargeListMetadata → Reader E → LargeListResult E × Reader E
  unfolding updated update_list_elements get_list receive_metadata
  get_list_from_metadata metadata r =
      let r' = updated r in
      elim (lookup metadata.list_id r'.list_table) [
        | none ↦
            let (result, l') = get_list (new_by_metadata metadata) in
            (result, record r' { list_table = insert metadata.list_id l' r'.list_table })
        | some l ↦
            let (result, l') = receive_metadata l metadata in
            (result, record r' { list_table = insert metadata.list_id l' r'.list_table })
      ]
