-- ===== src/LargeSet/Reader.antt =====
-- umaa/LargeSetReader.h: the large sets that the element messages of one topic make up, in a table
-- by their ids. The DDS reader is a parameter: what each call of readUpToN gives.
pub mod Updates
mod Examples
use umaa_cpp.Base.{
  ℕ, zero, suc, ◌+◌, ◌<◌, ◌≤◌, ◌≡◌, ◌≢◌, refl, sym, ◌∙◌, ap, Bool, true, false, Option, none, some,
  List, [], ◌∷◌, ◌++◌, length, ltb, ◌==◌, if◌then◌else◌, arith, is_some, Bool-cases, inl, inr,
}
use umaa_cpp.Base.Table.{lookup, insert, erase, lookup-insert}
use umaa_cpp.Base.Sets.{Equality}
use umaa_cpp.LargeSet.{
  SetElement, LargeSet, LargeSetMetadata, LargeSetResult, invalid_set, failed, new_by_id,
  new_by_metadata, get_set, receive_element, receive_metadata, dispose,
}
use umaa_cpp.LargeSet.Generate.{Sample, alive, disposed, accept, accept_all}

-- What the buffer holds for one sample: a message, or one whose status is INVALID_DATA.
pub data Envelope (E : Type 0) : Type 0 where
  valid_data : Sample E → Envelope E
  invalid_data : Envelope E

pub record Reader (E : Type 0) : Type 0 where
  pub set_table : List (ℕ × LargeSet E)
  pub reads : ℕ

abbrev pub set_of : {E : Type 0} → Sample E → ℕ
set_of (alive e) = e.set_id
set_of (disposed e) = e.set_id

abbrev pub max_read_per_update : ℕ
max_read_per_update = 50

module _ {E : Type 0} where
  -- The set of an id, which is made when it is first met.
  abbrev pub fetch : ℕ → List (ℕ × LargeSet E) → LargeSet E
  fetch id table = elim (lookup id table) [ none ↦ new_by_id id | some l ↦ l ]

  unfoldable pub process : Envelope E → List (ℕ × LargeSet E) → List (ℕ × LargeSet E)
  unfolding accept
  process invalid_data table = table
  process (valid_data s) table = insert (set_of s) (accept (fetch (set_of s) table) s) table

  -- The `for` loop over one batch.
  unfoldable pub process_all : List (Envelope E) → List (ℕ × LargeSet E) → List (ℕ × LargeSet E)
  unfolding process
  process_all [] table = table
  process_all (x ∷ xs) table = process_all xs (process x table)

module _ {E : Type 0} (read_up_to_n : ℕ → List (Envelope E)) where
  -- The `while` loop of updateSetElements, after `total` samples; `none` is the end of the fuel.
  -- It reads a batch, and goes on while the batch is not empty and no more than 50 samples were
  -- read before it.
  unfoldable pub update_loop : ℕ → ℕ → Reader E → Option (Reader E)
  unfolding process_all
  update_loop zero total r = none
  update_loop (suc fuel) total r =
      let batch = read_up_to_n r.reads in
      let r' : Reader E = record {
        set_table = process_all batch r.set_table;
        reads = suc r.reads;
      } in
      let rest = update_loop fuel (total + length batch) r' in
      if length batch == 0
      then some r'
      else (if ltb max_read_per_update (total + length batch) then some r' else rest)

  -- updateSetElements. A batch that lets the loop go on has a sample, and 51 of them end it, so
  -- that 52 rounds are enough.
  unfoldable pub update_set_elements : Reader E → Option (Reader E)
  unfolding update_loop
  update_set_elements r = update_loop 52 0 r

  unfoldable pub updated : Reader E → Reader E
  unfolding update_set_elements
  updated r = elim (update_set_elements r) [ none ↦ r | some r' ↦ r' ]

  unfoldable pub get_set_by_id : Equality E → ℕ → Reader E → LargeSetResult E × Reader E
  unfolding updated update_set_elements get_set
  get_set_by_id q id r =
      let r' = updated r in
      elim (lookup id r'.set_table) [
        | none ↦ (failed invalid_set, r')
        | some l ↦
            let (result, l') = get_set q l in
            (result, record r' { set_table = insert id l' r'.set_table })
      ]

  unfoldable pub remove_set_by_id : ℕ → Reader E → Bool × Reader E
  unfolding updated update_set_elements
  remove_set_by_id id r =
      let r' = updated r in
      if is_some (lookup id r'.set_table)
      then (true, record r' { set_table = erase id r'.set_table })
      else (false, r')

  unfoldable pub remove_set_by_metadata : LargeSetMetadata → Reader E → Bool × Reader E
  unfolding remove_set_by_id
  remove_set_by_metadata metadata r = remove_set_by_id metadata.set_id r

  unfoldable pub get_set_from_metadata :
      Equality E → LargeSetMetadata → Reader E → LargeSetResult E × Reader E
  unfolding updated update_set_elements get_set receive_metadata
  get_set_from_metadata q metadata r =
      let r' = updated r in
      elim (lookup metadata.set_id r'.set_table) [
        | none ↦
            let (result, l') = get_set q (new_by_metadata metadata) in
            (result, record r' { set_table = insert metadata.set_id l' r'.set_table })
        | some l ↦
            let (result, l') = receive_metadata q l metadata in
            (result, record r' { set_table = insert metadata.set_id l' r'.set_table })
      ]
