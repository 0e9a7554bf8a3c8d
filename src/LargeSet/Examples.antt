-- ===== src/LargeSet/Examples.antt =====
-- The theorem on the reader's set at a concrete table.
use umaa_cpp.Base.{ℕ, ◌≡◌, refl, some, none, [], ◌∷◌, arith}
use umaa_cpp.Base.Int.{pos}
use umaa_cpp.Base.Sets.{SameMembers, number_equality}
use umaa_cpp.Time.{DateTime, gt}
use umaa_cpp.LargeSet.{SetElement, LargeSet, valid_set, generate_set}
use umaa_cpp.LargeSet.Generate.{Holds, values, generate_set_report}

abbrev moment : DateTime
moment = record { seconds = pos 4; nanoseconds = pos 0 }

abbrev element : ℕ → ℕ → SetElement ℕ
element id value = record {
  set_id = 1;
  element_id = id;
  element = value;
  element_timestamp = moment;
}

-- Two of its elements are equal.
abbrev sound : LargeSet ℕ
sound = record {
  set_id = 1;
  latest_metadata = record {
    set_id = 1;
    update_element_id = 3;
    update_element_timestamp = some moment;
    size = 2;
  };
  element_table = (2, element 2 10) ∷ (3, element 3 20) ∷ (4, element 4 10) ∷ [];
  cached_set = none;
}

same_members : SameMembers number_equality (20 ∷ 10 ∷ []) (values sound.element_table)
same_members x = ground arith

generate_set_report_example :
    ((generate_set number_equality sound).0.status ≡ valid_set)
    × Holds number_equality (20 ∷ 10 ∷ []) (generate_set number_equality sound).0
unfolding gt
generate_set_report_example =
    generate_set_report number_equality sound (20 ∷ 10 ∷ []) (refl, (refl, tt)) same_members
