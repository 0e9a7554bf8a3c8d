-- ===== src/RingBuffer/Examples.antt =====
-- The theorems on the ring buffer at concrete histories.
use umaa_cpp.Base.{
  ℕ, ◌+◌, ◌≤◌, ◌≡◌, none, List, [], ◌∷◌, length, get_elem?, ltb, ◌==◌, if◌then◌else◌, arith,
}
use umaa_cpp.RingBuffer.{new, is_empty, get, front, back, size}
use umaa_cpp.RingBuffer.Refinement.{
  Call, push_item, pop_item, perform_all, spec_all, buffer_size, buffer_reads, front_overruns,
}

-- Four pushes into a buffer of three items, and a pop.
abbrev calls : List (Call ℕ)
calls = push_item 5 ∷ push_item 6 ∷ push_item 7 ∷ push_item 8 ∷ pop_item ∷ []

buffer_size_example :
    (size (perform_all (new 0 3) calls) ≡ length (spec_all 3 [] calls))
    × (size (perform_all (new 0 3) calls) ≤ 3)
    × (is_empty (perform_all (new 0 3) calls) ≡ (length (spec_all 3 [] calls) == 0))
buffer_size_example = buffer_size 0 3 calls (omega arith) (omega arith)

buffer_reads_example :
    ((get (perform_all (new 0 3) calls)).0 ≡ get_elem? (7 ∷ 8 ∷ []) 0)
    × (back (perform_all (new 0 3) calls) 1 ≡ get_elem? (7 ∷ 8 ∷ []) 0)
buffer_reads_example = buffer_reads 0 3 calls 1 (omega arith) (omega arith) (omega arith)

front_overruns_example :
    front (perform_all (new 0 3) calls) 1
    ≡ (if ltb ((perform_all (new 0 3) calls).tail + 1) 3 then get_elem? (7 ∷ 8 ∷ []) 1 else none)
front_overruns_example = front_overruns 0 3 calls 1 (omega arith) (omega arith) (omega arith)
