-- ===== src/RingBuffer/Push.antt =====
-- A push on the ring buffer, against the queue it holds.
use mathlib.Core.List.{tail}
use umaa_cpp.Base.{
  ℕ, suc, ◌+◌, ◌-◌, ◌%◌, ◌<◌, ◌≡◌, ◌∙◌, List, [], ◌∷◌, ◌++◌, length, get_elem?, ◌==◌, if◌then◌else◌,
  arith, length-append, length-set,
}
use umaa_cpp.RingBuffer.{DataRingBuffer, push}
use umaa_cpp.RingBuffer.Items.{get_elem?-set, get_elem?-push, get_elem?-tail, length-tail}
use umaa_cpp.RingBuffer.Queue.{wrap, Represents, head_below, next-wrap}

module _ {A : Type 0} (b : DataRingBuffer A) (xs : List A) (r : Represents b xs) where
  -- What a push onto a full buffer drops.
  abbrev pub kept : List A
  kept = if b.full then tail xs else xs

  length-kept : length kept ≡ (if b.full then length xs - 1 else length xs)
  length-kept = ground (arith, length-tail xs)

  abbrev place : ℕ → ℕ
  place k = wrap b.max_size ((if b.full then (b.tail + 1) % b.max_size else b.tail) + k)

  place-eq :
      (k : ℕ)
      → k < suc (length kept)
      → place k ≡ wrap b.max_size (b.tail + (if b.full then suc k else k))
  place-eq k h = ground (
    arith,
    length-kept,
    next-wrap b xs r b.tail r.tail_below,
    r.full_at,
    r.fits,
    r.tail_below,
    r.capacity,
  )

  -- The new item is the last one: no other item lies at the head.
  place_last : (k : ℕ) → k < suc (length kept) → (b.head == place k) ≡ (k == length kept)
  place_last k h =
      ground
        (arith, place-eq k h, length-kept, r.head_at, r.full_at, r.fits, r.tail_below, r.capacity)

  push-items :
      (item : A) (k : ℕ)
      → k < suc (length kept)
      → get_elem? (push b item).buffer (wrap (push b item).max_size ((push b item).tail + k))
        ≡ get_elem? (kept ++ (item ∷ [])) k
  unfolding push
  push-items item k h =
      get_elem?-set b.buffer b.head (place k) item
        (ground (arith, r.allocated, (head_below b xs r)))
      ∙ ground (
        arith,
        place-eq k h,
        place_last k h,
        get_elem?-push kept k item (omega (arith, h)),
        length-kept,
        get_elem?-tail xs k,
        r.items k,
        r.items (suc k),
        r.head_at,
        r.full_at,
        r.fits,
        r.tail_below,
      )

  -- A push adds the item at the end, and drops the oldest item when the buffer is full.
  pub push-Represents : (item : A) → Represents (push b item) (kept ++ (item ∷ []))
  unfolding push
  push-Represents item = record {
    capacity = r.capacity;
    narrow = r.narrow;
    allocated = ground (arith, length-set b.buffer b.head item, r.allocated);
    tail_below = ground (arith, next-wrap b xs r b.tail r.tail_below, r.tail_below, r.capacity);
    fits = ground (arith, length-append kept (item ∷ []), length-kept, r.fits, r.full_at);
    head_at = ground (
      arith,
      length-append kept (item ∷ []),
      length-kept,
      r.fits,
      r.full_at,
      r.head_at,
      next-wrap b xs r b.tail r.tail_below,
      next-wrap b xs r b.head (head_below b xs r),
      r.tail_below,
    );
    full_at = ground (
      arith,
      length-append kept (item ∷ []),
      length-kept,
      r.fits,
      r.full_at,
      r.head_at,
      next-wrap b xs r b.tail r.tail_below,
      next-wrap b xs r b.head (head_below b xs r),
      r.tail_below,
    );
    items = λ k h. push-items item k (omega (arith, h, length-append kept (item ∷ [])));
  }
