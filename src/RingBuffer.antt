-- ===== src/RingBuffer.antt =====
-- common/DataRingBuffer.h: a FIFO of fixed capacity that overwrites its oldest item. A method that
-- changes the object returns the new record. A read with `at` that throws, and a read of a vector
-- without items, give `none`. The mutex makes each call one step. Indices are below the capacity,
-- a uint32_t, so that `tail_ + 1` and `head_ + 1` do not wrap; the sums in `front` and `size` may, and
-- are taken modulo 2^32. The capacity is positive: the source takes remainders by it.
pub mod Items
pub mod Queue
pub mod Push
pub mod Reads
pub mod Refinement
mod Examples
use umaa_cpp.Base.{
  ℕ, zero, suc, ◌+◌, ◌-◌, ◌%◌, ◌<◌, Bool, true, false, ◌&&◌, not, Option, none, some, List, length,
  get_elem?, set, replicate, ltb, leb, ◌==◌, if◌then◌else◌,
}

abbrev pub u32 : ℕ
u32 = 4294967296

pub record DataRingBuffer (A : Type 0) : Type 0 where
  pub max_size : ℕ
  pub buffer : List A
  pub head : ℕ
  pub tail : ℕ
  pub full : Bool

module _ {A : Type 0} where
  -- The constructor; `item` is the value of a default-constructed item. `maxSize_` is declared, and
  -- so initialised, before `buffer_`.
  unfoldable pub new : A → ℕ → DataRingBuffer A
  new item size = record {
    max_size = size % u32;
    buffer = replicate (size % u32) item;
    head = 0;
    tail = 0;
    full = false;
  }

  unfoldable pub push : DataRingBuffer A → A → DataRingBuffer A
  push b item =
      let tail' = if b.full then (b.tail + 1) % b.max_size else b.tail in
      let head' = (b.head + 1) % b.max_size in
      record b {
        buffer = set b.buffer b.head item;
        tail = tail';
        head = head';
        full = head' == tail';
      }

  unfoldable pub is_empty : DataRingBuffer A → Bool
  is_empty b = not b.full && b.head == b.tail

  unfoldable pub pop : DataRingBuffer A → DataRingBuffer A
  unfolding is_empty
  pop b =
      if not (is_empty b) then record b { full = false; tail = (b.tail + 1) % b.max_size } else b

  -- On an empty buffer `get` returns the item at index 0.
  unfoldable pub get : DataRingBuffer A → Option A × DataRingBuffer A
  unfolding is_empty
  get b =
      if not (is_empty b)
      then (get_elem? b.buffer b.tail, record b { full = false; tail = (b.tail + 1) % b.max_size })
      else (get_elem? b.buffer 0, b)

  unfoldable pub front : DataRingBuffer A → ℕ → Option A
  front b front_index = get_elem? b.buffer ((b.tail + front_index % b.max_size) % u32)

  unfoldable pub back : DataRingBuffer A → ℕ → Option A
  back b back_index =
      let index = back_index % b.max_size in
      let curr_head = if b.head == 0 then b.max_size - 1 else b.head - 1 in
      get_elem? b.buffer
        (if ltb curr_head index then b.max_size - (index - curr_head) else curr_head - index)

  unfoldable pub clear : DataRingBuffer A → DataRingBuffer A
  clear b = record b { head = 0; tail = 0; full = false }

  unfoldable pub size : DataRingBuffer A → ℕ
  size b =
      if not b.full
      then (if leb b.tail b.head
          then b.head - b.tail
          else (b.max_size + b.head + u32 - b.tail) % u32)
      else b.max_size
