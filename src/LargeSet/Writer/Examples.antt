-- ===== src/LargeSet/Writer/Examples.antt =====
-- The theorems on the writer of large sets at a concrete factory, clock and sender.
use umaa_cpp.Base.{ℕ, suc, ◌≤◌, ◌≡◌, refl, List, [], ◌∷◌, false, arith}
use umaa_cpp.Base.Int.{pos}
use umaa_cpp.Base.Sets.{SameMembers, number_equality}
use umaa_cpp.Time.{gt}
use umaa_cpp.Transport.{success}
use umaa_cpp.LargeList.Writer.{Env}
use umaa_cpp.LargeList.Writer.Stores.{IsReliable}
use umaa_cpp.LargeSet.{invalid_set, valid_set}
use umaa_cpp.LargeSet.Generate.{Holds}
use umaa_cpp.LargeSet.Writer.{Writer, update}
use umaa_cpp.LargeSet.Writer.Batch.{new_with}
use umaa_cpp.LargeSet.Writer.Elements.{values}
use umaa_cpp.LargeSet.Writer.History.{Call, inserts, inserts_all, updates, removes, perform_all}
use umaa_cpp.LargeSet.Writer.Refinement.{read_back, set_reader_follows_writer}
use umaa_cpp.LargeSet.Writer.Collision.{update-collides}

abbrev ticking : Env
ticking = record {
  guid = suc;
  clock = λ k. record { seconds = pos k; nanoseconds = pos 0 };
  outcome = λ n. success;
  no_time = record { seconds = pos 0; nanoseconds = pos 0 };
}

ticks_forward : (i j : ℕ) → i ≤ j → gt (ticking.clock i) (ticking.clock j) ≡ false
unfolding gt
ticks_forward i j h = ground arith

ticking-IsReliable : IsReliable ticking
ticking-IsReliable = record {
  distinct = λ i j h e. absurd (omega (arith, h, e));
  not_nil = λ i e. absurd (omega (arith, e));
  forward = ticks_forward;
  sent = λ n. refl;
}

-- Two of the calls return ERROR: the second insertion of 8, and the update of 1.
abbrev calls : List (Call ℕ)
calls = inserts_all (7 ∷ 8 ∷ 8 ∷ 9 ∷ []) ∷ removes 5 ∷ updates 7 4 ∷ updates 1 2 ∷ inserts 5 ∷ []

abbrev performed : Writer ℕ
performed =
    perform_all number_equality ticking calls (new_with number_equality ticking (5 ∷ 6 ∷ []))

set_reader_follows_writer_example :
    SameMembers number_equality (values performed.elements) (6 ∷ 8 ∷ 4 ∷ 5 ∷ [])
    × ((read_back number_equality performed).status ≡ valid_set)
    × Holds number_equality (6 ∷ 8 ∷ 4 ∷ 5 ∷ []) (read_back number_equality performed)
set_reader_follows_writer_example =
    set_reader_follows_writer number_equality ticking ticking-IsReliable (5 ∷ 6 ∷ []) calls refl

update-collides_example :
    ((update number_equality ticking 4 6 performed).0 ≡ success)
    × ((read_back number_equality (update number_equality ticking 4 6 performed).1).status
        ≡ invalid_set)
update-collides_example =
    update-collides number_equality ticking ticking-IsReliable (5 ∷ 6 ∷ []) calls 4 6 refl refl
