-- ===== src/LargeList/Reader/Examples.antt =====
-- The theorems on the reader at concrete samples.
use umaa_cpp.Base.{ℕ, suc, ◌+◌, ◌<◌, ◌≡◌, none, some, List, [], ◌∷◌}
use umaa_cpp.Base.Int.{pos}
use umaa_cpp.LargeList.{ListElement, new_by_id}
use umaa_cpp.LargeList.Generate.{alive, disposed, accept_all}
use umaa_cpp.LargeList.Reader.{
  Envelope, valid_data, invalid_data, Reader, fetch, process_all, update_list_elements,
}
use umaa_cpp.LargeList.Reader.Updates.{after_batches, lists_do_not_interfere, update_ends}

abbrev element : ℕ → ℕ → ListElement ℕ
element list value = record {
  list_id = list;
  element_id = 10 + value;
  element = value;
  next_element_id = none;
  element_timestamp = record { seconds = pos 1; nanoseconds = pos 0 };
}

abbrev samples : List (Envelope ℕ)
samples =
    valid_data (alive (element 1 5))
    ∷ invalid_data
    ∷ valid_data (alive (element 2 6))
    ∷ valid_data (disposed (element 1 5))
    ∷ []

lists_do_not_interfere_example :
    fetch 1 (process_all samples [])
    ≡ accept_all (new_by_id 1) (alive (element 1 5) ∷ disposed (element 1 5) ∷ [])
lists_do_not_interfere_example = lists_do_not_interfere 1 samples []

-- A source that never runs dry.
abbrev always : ℕ → List (Envelope ℕ)
always n = samples

abbrev fresh : Reader ℕ
fresh = record { list_table = []; reads = 0 }

update_ends_example :
    (n : ℕ) × (n < 52)
    × (update_list_elements always fresh ≡ some (after_batches always (suc n) fresh))
update_ends_example = update_ends always fresh
