-- ===== src/LargeSet/Reader/Examples.antt =====
-- The theorems on the reader at concrete samples.
use umaa_cpp.Base.{ℕ, ◌+◌, ◌≡◌, List, [], ◌∷◌}
use umaa_cpp.Base.Int.{pos}
use umaa_cpp.LargeSet.{SetElement, new_by_id}
use umaa_cpp.LargeSet.Generate.{alive, disposed, accept_all}
use umaa_cpp.LargeSet.Reader.{Envelope, valid_data, invalid_data, Reader, fetch, process_all}
use umaa_cpp.LargeSet.Reader.Updates.{sets_do_not_interfere}

abbrev element : ℕ → ℕ → SetElement ℕ
element list value = record {
  set_id = list;
  element_id = 10 + value;
  element = value;
  element_timestamp = record { seconds = pos 1; nanoseconds = pos 0 };
}

abbrev samples : List (Envelope ℕ)
samples =
    valid_data (alive (element 1 5))
    ∷ invalid_data
    ∷ valid_data (alive (element 2 6))
    ∷ valid_data (disposed (element 1 5))
    ∷ []

sets_do_not_interfere_example :
    fetch 1 (process_all samples [])
    ≡ accept_all (new_by_id 1) (alive (element 1 5) ∷ disposed (element 1 5) ∷ [])
sets_do_not_interfere_example = sets_do_not_interfere 1 samples []

-- A source that never runs dry.
abbrev always : ℕ → List (Envelope ℕ)
always n = samples

abbrev fresh : Reader ℕ
fresh = record { set_table = []; reads = 0 }
