-- ===== src/LargeList/Examples.antt =====
-- The theorems on the reader's list at concrete messages.
use umaa_cpp.Base.{ℕ, ◌≡◌, ◌≢◌, ◌↔◌, refl, none, some, [], ◌∷◌, length}
use umaa_cpp.Base.Int.{pos}
use umaa_cpp.Time.{DateTime}
use umaa_cpp.LargeList.{
  ListElement, LargeList, LargeListMetadata, unfinished, walk_all, generate_list, get_list,
  receive_element, receive_metadata, dispose,
}
use umaa_cpp.LargeList.Generate.{valid, Spells, walk_all_ends, generate_list-Spells}

abbrev moment : DateTime
moment = record { seconds = pos 4; nanoseconds = pos 0 }

abbrev first : ListElement ℕ
first = record {
  list_id = 1;
  element_id = 2;
  element = 10;
  next_element_id = some 3;
  element_timestamp = moment;
}

abbrev second : ListElement ℕ
second = record {
  list_id = 1;
  element_id = 3;
  element = 20;
  next_element_id = none;
  element_timestamp = moment;
}

abbrev described : LargeListMetadata
described = record {
  list_id = 1;
  starting_element_id = 2;
  update_element_id = 3;
  update_element_timestamp = some moment;
  size = 2;
}

-- The list 10, 20.
abbrev sound : LargeList ℕ
sound = record {
  list_id = 1;
  latest_metadata = described;
  element_table = (2, first) ∷ (3, second) ∷ [];
  cached_list = none;
}

-- The same elements in a circle.
abbrev circular : LargeList ℕ
circular = record sound {
  element_table = (2, first) ∷ (3, record second { next_element_id = some 2 }) ∷ [];
}

walk_all_ends_example : walk_all circular ≢ unfinished
walk_all_ends_example = walk_all_ends circular

generate_list-Spells_example : ((generate_list sound).0 ≡ valid (10 ∷ 20 ∷ [])) ↔ (
    (sound.latest_metadata.size ≢ 0)
    × (length {A = ℕ} (10 ∷ 20 ∷ []) ≡ sound.latest_metadata.size)
    × Spells sound (10 ∷ 20 ∷ []))
generate_list-Spells_example = generate_list-Spells sound (10 ∷ 20 ∷ [])

received_sound : (receive_metadata sound described).0 ≡ valid (10 ∷ 20 ∷ [])
unfolding receive_metadata generate_list walk_all umaa_cpp.Time.ge umaa_cpp.LargeList.walk
received_sound = refl
