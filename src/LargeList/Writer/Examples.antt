-- ===== src/LargeList/Writer/Examples.antt =====
-- The theorems on the writer at a concrete factory, clock and sender.
use umaa_cpp.Base.{ℕ, suc, ◌≤◌, ◌≡◌, refl, none, some, List, [], ◌∷◌, length, false, arith}
use umaa_cpp.Base.Int.{pos}
use umaa_cpp.Transport.{success}
use umaa_cpp.Time.{gt}
use umaa_cpp.LargeList.{ListElement, receive_metadata}
use umaa_cpp.LargeList.Generate.{valid}
use umaa_cpp.LargeList.Writer.{Env, Writer, ok, new_writer}
use umaa_cpp.LargeList.Writer.Add.{insert}
use umaa_cpp.LargeList.Writer.Store.{reader}
use umaa_cpp.LargeList.Writer.Stores.{IsReliable}
use umaa_cpp.LargeList.Writer.Sound.{values}
use umaa_cpp.LargeList.Writer.History.{Call, appends, prepends_all, updates, pops, perform_all}
use umaa_cpp.LargeList.Writer.Refinement.{reader_follows_writer}
use umaa_cpp.LargeList.Writer.Faults.{insert_misplaces}
use umaa_cpp.Base.{map, reverse}
use umaa_cpp.LargeList.Generate.{alive}
use umaa_cpp.LargeList.Reader.{Envelope, valid_data, invalid_data, fetch, process_all}
use umaa_cpp.LargeList.Reader.Updates.{own}
use umaa_cpp.LargeList.Writer.Add.{prepend, prepend_each, prepend_all}
use umaa_cpp.LargeList.Writer.Delivery.{delivery}

abbrev ticking : Env
ticking = record {
  guid = suc;
  clock = λ k. record { seconds = pos k; nanoseconds = pos 0 };
  outcome = λ n. success;
  no_time = record { seconds = pos 0; nanoseconds = pos 0 };
}

ticks_forward : (i j : ℕ) → i ≤ j → gt (ticking.clock i) (ticking.clock j) ≡ false
unfolding gt
ticks_forward i j h = ground arith

ticking-IsReliable : IsReliable ticking
ticking-IsReliable = record {
  distinct = λ i j h e. absurd (omega (arith, h, e));
  not_nil = λ i e. absurd (omega (arith, e));
  forward = ticks_forward;
  sent = λ n. refl;
}

-- Five calls, the last of them out of range.
abbrev calls : List (Call ℕ)
calls = appends 5 ∷ prepends_all (3 ∷ 4 ∷ []) ∷ pops ∷ updates 9 1 ∷ updates 7 2 ∷ []

reader_follows_writer_example :
    (values (perform_all ticking (new_writer ticking) calls).elements ≡ 4 ∷ 9 ∷ [])
    × ((receive_metadata
          (reader
            (perform_all ticking (new_writer ticking) calls).list_id
            (perform_all ticking (new_writer ticking) calls).bus)
          (perform_all ticking (new_writer ticking) calls).metadata).0
        ≡ valid (4 ∷ 9 ∷ []))
reader_follows_writer_example = reader_follows_writer ticking ticking-IsReliable calls

abbrev first : ListElement ℕ
first = record {
  list_id = 1;
  element_id = 2;
  element = 10;
  next_element_id = some 3;
  element_timestamp = record { seconds = pos 0; nanoseconds = pos 0 };
}

abbrev second : ListElement ℕ
second = record {
  list_id = 1;
  element_id = 3;
  element = 20;
  next_element_id = none;
  element_timestamp = record { seconds = pos 0; nanoseconds = pos 0 };
}

-- A writer of the list 10, 20, and one of the empty list.
abbrev holding : List (ListElement ℕ) → Writer ℕ
holding es = record {
  elements = es;
  metadata = record {
    list_id = 1;
    starting_element_id = 2;
    update_element_id = 3;
    update_element_timestamp = none;
    size = length es;
  };
  list_id = 1;
  guids_used = 3;
  stamps_used = 2;
  sends = 2;
  bus = [];
}

abbrev two : Writer ℕ
two = holding (first ∷ second ∷ [])

insert_misplaces_example :
    (w' : Writer ℕ) × (insert ticking 15 1 two ≡ ok tt w')
    × (values w'.elements ≡ 15 ∷ 10 ∷ 20 ∷ [])
insert_misplaces_example = insert_misplaces ticking two 15 1 (omega arith) (omega arith) (λ n. refl)

-- A writer of the list 5, 6.
abbrev pair : Writer ℕ
pair = perform_all ticking (new_writer ticking) (prepends_all (5 ∷ 6 ∷ []) ∷ [])

-- Its messages after an invalid sample and a message of another list.
abbrev samples : List (Envelope ℕ)
samples =
    invalid_data
    ∷ valid_data (alive (record first { list_id = 9 }))
    ∷ map valid_data (reverse pair.bus)

own_messages : own pair.list_id samples ≡ reverse pair.bus
unfolding new_writer prepend_all prepend_each prepend
own_messages = refl

delivery_example :
    (receive_metadata (fetch pair.list_id (process_all samples [])) pair.metadata).0
    ≡ valid (5 ∷ 6 ∷ [])
delivery_example =
    delivery ticking ticking-IsReliable (prepends_all (5 ∷ 6 ∷ []) ∷ []) pair samples [] refl refl
      own_messages
