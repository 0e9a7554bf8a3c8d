-- ===== src/RingBuffer/Queue.antt =====
-- The ring buffer refines a queue, the list of its items, the oldest first.
use native.Mathlib.Nat.{mod-eq_of_lt, mod-eq-sub-mod}
use umaa_cpp.Base.{
  ℕ, ◌+◌, ◌-◌, ◌%◌, ◌<◌, ◌≤◌, ◌≡◌, List, [], length, get_elem?, ltb, ◌==◌, if◌then◌else◌, arith,
}
use umaa_cpp.RingBuffer.{DataRingBuffer, u32, new, size}
use umaa_cpp.RingBuffer.Items.{length-replicate}

-- An index below twice the capacity, taken round.
abbrev pub wrap : ℕ → ℕ → ℕ
wrap m i = if ltb i m then i else i - m

mod-wrap : (m i : ℕ) → i < m + m → i % m ≡ wrap m i
mod-wrap m i h = ground (
  arith,
  mod-eq_of_lt {n = i} {m = m},
  mod-eq-sub-mod {n = i} {m = m},
  mod-eq_of_lt {n = i - m} {m = m},
)

-- `b` holds the items `xs`, the oldest first.
pub record Represents {A : Type 0} (b : DataRingBuffer A) (xs : List A) : Type 0 where
  pub capacity : 0 < b.max_size
  pub narrow : b.max_size < u32
  pub allocated : length b.buffer ≡ b.max_size
  pub tail_below : b.tail < b.max_size
  pub fits : length xs ≤ b.max_size
  pub head_at : b.head ≡ wrap b.max_size (b.tail + length xs)
  pub full_at : b.full ≡ (length xs == b.max_size)
  pub items :
      (k : ℕ) → k < length xs → get_elem? b.buffer (wrap b.max_size (b.tail + k)) ≡ get_elem? xs k

module _ {A : Type 0} where
  -- A buffer made with a capacity from 1 to 2^32 - 1 is empty and holds that many.
  pub new-Represents : (item : A) (n : ℕ) → 0 < n → n < u32 → Represents (new item n) []
  unfolding new
  new-Represents item n positive small = record {
    capacity = ground (arith, mod-eq_of_lt {n = n} {m = u32});
    narrow = ground (arith, mod-eq_of_lt {n = n} {m = u32});
    allocated = length-replicate (n % u32) item;
    tail_below = ground (arith, mod-eq_of_lt {n = n} {m = u32});
    fits = omega arith;
    head_at = ground (arith, mod-eq_of_lt {n = n} {m = u32});
    full_at = ground (arith, mod-eq_of_lt {n = n} {m = u32});
    items = λ k h. absurd (omega (arith, h));
  }

  -- The size is the number of items, whichever side of the end of the storage they lie on.
  pub size-length : (b : DataRingBuffer A) (xs : List A) → Represents b xs → size b ≡ length xs
  unfolding size
  size-length b xs r =
      let capacity = r.capacity in
      let narrow = r.narrow in
      let tail_below = r.tail_below in
      let fits = r.fits in
      let head_at = r.head_at in
      let full_at = r.full_at in
      ground (
        arith,
        mod-eq_of_lt {n = length xs} {m = u32},
        mod-eq-sub-mod {n = length xs + u32} {m = u32},
      )

  module _ (b : DataRingBuffer A) (xs : List A) (r : Represents b xs) where
    pub head_below : b.head < b.max_size
    head_below = ground (arith, r.head_at, r.tail_below, r.fits, r.capacity)

    pub next-wrap : (i : ℕ) → i < b.max_size → (i + 1) % b.max_size ≡ wrap b.max_size (i + 1)
    next-wrap i h = mod-wrap b.max_size (i + 1) (omega (arith, h, r.capacity))
