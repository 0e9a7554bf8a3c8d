-- ===== src/RingBuffer/Refinement.antt =====
-- The ring buffer as a queue over whole histories of calls.
use mathlib.Core.List.{tail}
use umaa_cpp.Base.{
  ℕ, suc, ◌+◌, ◌<◌, ◌≤◌, ◌≡◌, refl, subst, sym, ◌∙◌, get_elem?, ◌-◌, ltb, none, List, [], ◌∷◌, ◌++◌,
  length, ◌==◌, if◌then◌else◌, arith,
}
use native.Mathlib.Nat.{mod-eq_of_lt}
use umaa_cpp.RingBuffer.{
  DataRingBuffer, u32, new, push, is_empty, pop, get, front, back, clear, size,
}
use umaa_cpp.RingBuffer.Queue.{Represents, new-Represents, size-length}
use umaa_cpp.RingBuffer.Push.{push-Represents}
use umaa_cpp.RingBuffer.Reads.{
  is_empty-length, front-item, back-item, get-pop, pop-Represents, clear-Represents,
}

pub data Call (A : Type 0) : Type 0 where
  push_item : A → Call A
  pop_item : Call A
  get_item : Call A
  clear_all : Call A

module _ {A : Type 0} where
  abbrev pub perform : DataRingBuffer A → Call A → DataRingBuffer A
  perform b (push_item item) = push b item
  perform b pop_item = pop b
  perform b get_item = (get b).1
  perform b clear_all = clear b

  abbrev pub perform_all : DataRingBuffer A → List (Call A) → DataRingBuffer A
  perform_all b [] = b
  perform_all b (c ∷ cs) = perform_all (perform b c) cs

  -- A queue of at most `capacity` items, which drops its oldest item to make room.
  abbrev pub spec : ℕ → List A → Call A → List A
  spec capacity xs (push_item item) = (if length xs == capacity then tail xs else xs) ++ (item ∷ [])
  spec capacity xs pop_item = tail xs
  spec capacity xs get_item = tail xs
  spec capacity xs clear_all = []

  abbrev pub spec_all : ℕ → List A → List (Call A) → List A
  spec_all capacity xs [] = xs
  spec_all capacity xs (c ∷ cs) = spec_all capacity (spec capacity xs c) cs

  perform-size : (b : DataRingBuffer A) (c : Call A) → (perform b c).max_size ≡ b.max_size
  unfolding push pop get clear
  perform-size b (push_item item) = refl
  perform-size b pop_item = ground arith
  perform-size b get_item = ground arith
  perform-size b clear_all = refl

  new-max_size :
      (item : A) (capacity : ℕ) → capacity < u32 → (new item capacity).max_size ≡ capacity
  unfolding new
  new-max_size item capacity small = mod-eq_of_lt small

  perform_all-max_size :
      (b : DataRingBuffer A) (cs : List (Call A)) → (perform_all b cs).max_size ≡ b.max_size
  perform_all-max_size b [] = refl
  perform_all-max_size b (c ∷ cs) = perform_all-max_size (perform b c) cs ∙ perform-size b c

  perform-Represents :
      (b : DataRingBuffer A) (xs : List A) (c : Call A)
      → Represents b xs
      → Represents (perform b c) (spec b.max_size xs c)
  perform-Represents b xs (push_item item) r =
      subst (λ full. Represents (push b item) ((if full then tail xs else xs) ++ (item ∷ [])))
        r.full_at (push-Represents b xs r item)
  perform-Represents b xs pop_item r = pop-Represents b xs r
  perform-Represents b xs get_item r =
      subst (λ b'. Represents b' (tail xs)) (sym (get-pop b xs r).0) (pop-Represents b xs r)
  perform-Represents b xs clear_all r = clear-Represents b xs r

  perform_all-Represents :
      (m : ℕ) (b : DataRingBuffer A) (xs : List A) (cs : List (Call A))
      → b.max_size ≡ m
      → Represents b xs
      → Represents (perform_all b cs) (spec_all m xs cs)
  perform_all-Represents m b xs [] h r = r
  perform_all-Represents m b xs (c ∷ cs) h r =
      perform_all-Represents m (perform b c) (spec m xs c) cs (perform-size b c ∙ h)
        (subst (λ n. Represents (perform b c) (spec n xs c)) h (perform-Represents b xs c r))

  history-max_size :
      (item : A) (capacity : ℕ) (cs : List (Call A))
      → capacity < u32
      → (perform_all (new item capacity) cs).max_size ≡ capacity
  history-max_size item capacity cs small =
      perform_all-max_size (new item capacity) cs ∙ new-max_size item capacity small

  history-Represents :
      (item : A) (capacity : ℕ) (cs : List (Call A))
      → 0 < capacity
      → capacity < u32
      → Represents (perform_all (new item capacity) cs) (spec_all capacity [] cs)
  history-Represents item capacity cs positive small =
      perform_all-Represents capacity (new item capacity) [] cs (new-max_size item capacity small)
        (new-Represents item capacity positive small)

  -- A buffer made with a capacity from 1 to 2^32 - 1 is a bounded queue: after any calls of push,
  -- pop, get and clear its size is the number of items of the queue that drops its oldest item when
  -- an item comes to its full capacity, at most the capacity, and `is_empty` says whether that is 0.
  pub buffer_size :
      (item : A) (capacity : ℕ) (cs : List (Call A))
      → 0 < capacity
      → capacity < u32
      → (size (perform_all (new item capacity) cs) ≡ length (spec_all capacity [] cs))
        × (size (perform_all (new item capacity) cs) ≤ capacity)
        × (is_empty (perform_all (new item capacity) cs) ≡ (length (spec_all capacity [] cs) == 0))
  buffer_size item capacity cs positive small =
      let b = perform_all (new item capacity) cs in
      let xs = spec_all capacity [] cs in
      let r = history-Represents item capacity cs positive small in
      let sized = size-length b xs r in
      (
        sized,
        subst (λ n. size b ≤ n) (history-max_size item capacity cs small)
            (omega (arith, sized, r.fits)),
        is_empty-length b xs r,
      )

  -- After any calls of push, pop, get and clear on such a buffer, the next `get` gives the oldest
  -- item of the queue and `back i` the item `i` places before its newest, for every i below the
  -- number of items.
  pub buffer_reads :
      (item : A) (capacity : ℕ) (cs : List (Call A)) (i : ℕ)
      → 0 < capacity
      → capacity < u32
      → i < length (spec_all capacity [] cs)
      → ((get (perform_all (new item capacity) cs)).0 ≡ get_elem? (spec_all capacity [] cs) 0)
        × (back (perform_all (new item capacity) cs) i
            ≡ get_elem? (spec_all capacity [] cs) (length (spec_all capacity [] cs) - suc i))
  buffer_reads item capacity cs i positive small h =
      let b = perform_all (new item capacity) cs in
      let xs = spec_all capacity [] cs in
      let r = history-Represents item capacity cs positive small in
      ((get-pop b xs r).1 ∙ ground (arith, h), back-item b xs r i h)

  -- `front i` takes the remainder of `i` before it adds the tail, and not after: an item of the
  -- queue that lies past the end of the storage is not read, the access throws. The others are.
  pub front_overruns :
      (item : A) (capacity : ℕ) (cs : List (Call A)) (i : ℕ)
      → 0 < capacity
      → capacity + capacity ≤ u32
      → i < length (spec_all capacity [] cs)
      → front (perform_all (new item capacity) cs) i ≡ (
          if ltb ((perform_all (new item capacity) cs).tail + i) capacity
          then get_elem? (spec_all capacity [] cs) i
          else none)
  front_overruns item capacity cs i positive small h =
      let b = perform_all (new item capacity) cs in
      let xs = spec_all capacity [] cs in
      let r = history-Represents item capacity cs positive (omega (arith, positive, small)) in
      subst (λ n. front b i ≡ (if ltb (b.tail + i) n then get_elem? xs i else none))
        (history-max_size item capacity cs (omega (arith, positive, small)))
        (front-item b xs r i h (
          subst (λ n. n + n ≤ u32)
            (sym (history-max_size item capacity cs (omega (arith, positive, small)))) small))
