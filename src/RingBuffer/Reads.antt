-- ===== src/RingBuffer/Reads.antt =====
-- Pops and reads of the ring buffer, against the queue it holds.
use mathlib.Core.List.{tail}
use umaa_cpp.Base.{
  ℕ, suc, ◌+◌, ◌-◌, ◌<◌, ◌≤◌, ◌≡◌, none, List, [], length, get_elem?, ltb, ◌==◌, if◌then◌else◌,
  arith,
}
use umaa_cpp.RingBuffer.{DataRingBuffer, u32, is_empty, pop, get, front, back, clear}
use umaa_cpp.RingBuffer.Items.{get_elem?-over, get_elem?-tail, length-tail}
use umaa_cpp.RingBuffer.Queue.{wrap, Represents, next-wrap}
use native.Mathlib.Nat.{mod-eq_of_lt}

module _ {A : Type 0} (b : DataRingBuffer A) (xs : List A) (r : Represents b xs) where
  pub is_empty-length : is_empty b ≡ (length xs == 0)
  unfolding is_empty
  is_empty-length = ground (arith, r.head_at, r.full_at, r.fits, r.tail_below, r.capacity)

  pop-items :
      (k : ℕ)
      → k < length (tail xs)
      → get_elem? (pop b).buffer (wrap (pop b).max_size ((pop b).tail + k)) ≡ get_elem? (tail xs) k
  unfolding pop is_empty
  pop-items k h = ground (
    arith,
    is_empty-length,
    length-tail xs,
    get_elem?-tail xs k,
    r.items (suc k),
    next-wrap b xs r b.tail r.tail_below,
    r.tail_below,
    r.fits,
  )

  -- A pop drops the oldest item, and does nothing to an empty buffer.
  pub pop-Represents : Represents (pop b) (tail xs)
  unfolding pop is_empty
  pop-Represents = record {
    capacity = ground (arith, r.capacity);
    narrow = ground (arith, r.narrow);
    allocated = ground (arith, r.allocated);
    tail_below = ground (arith, next-wrap b xs r b.tail r.tail_below, r.tail_below, r.capacity);
    fits = ground (arith, length-tail xs, r.fits);
    head_at = ground (
      arith,
      length-tail xs,
      is_empty-length,
      next-wrap b xs r b.tail r.tail_below,
      r.head_at,
      r.tail_below,
      r.fits,
    );
    full_at =
        ground (arith, length-tail xs, is_empty-length, r.head_at, r.full_at, r.fits, r.capacity);
    items = pop-items;
  }

  -- get is the oldest item, and leaves what pop leaves; an empty buffer gives the item that its
  -- storage has at 0, whatever it is.
  pub get-pop :
      ((get b).1 ≡ pop b)
      × ((get b).0 ≡ (if length xs == 0 then get_elem? b.buffer 0 else get_elem? xs 0))
  unfolding get pop is_empty
  get-pop = (ground arith, ground (arith, is_empty-length, r.items 0, r.tail_below, r.capacity))

  pub back-item : (i : ℕ) → i < length xs → back b i ≡ get_elem? xs (length xs - suc i)
  unfolding back
  back-item i h = ground (
    arith,
    mod-eq_of_lt {n = i} {m = b.max_size},
    r.items (length xs - suc i),
    r.head_at,
    r.tail_below,
    r.fits,
  )

  pub front-item :
      (i : ℕ)
      → i < length xs
      → b.max_size + b.max_size ≤ u32
      → front b i ≡ (if ltb (b.tail + i) b.max_size then get_elem? xs i else none)
  unfolding front
  front-item i h small = ground (
    arith,
    mod-eq_of_lt {n = i} {m = b.max_size},
    mod-eq_of_lt {n = b.tail + i} {m = u32},
    get_elem?-over b.buffer (b.tail + i),
    r.items i,
    r.allocated,
    r.tail_below,
    r.fits,
  )

  pub clear-Represents : Represents (clear b) []
  unfolding clear
  clear-Represents = record {
    capacity = r.capacity;
    narrow = r.narrow;
    allocated = r.allocated;
    tail_below = r.capacity;
    fits = omega arith;
    head_at = ground (arith, r.capacity);
    full_at = ground (arith, r.capacity);
    items = λ k h. absurd (omega (arith, h));
  }
