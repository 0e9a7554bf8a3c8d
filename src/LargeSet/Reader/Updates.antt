-- ===== src/LargeSet/Reader/Updates.antt =====
-- What the reader of large sets makes of the samples, and the end of its updates.
use umaa_cpp.Base.{
  ℕ, zero, suc, ◌+◌, ◌<◌, ◌≡◌, refl, sym, ◌∙◌, ap, some, List, [], ◌∷◌, ◌++◌, ◌==◌, if◌then◌else◌,
  arith,
}
use umaa_cpp.Base.Table.{lookup-insert}
use umaa_cpp.Base.Batches.{times, Round, loop_ends}
use umaa_cpp.LargeSet.{LargeSet}
use umaa_cpp.LargeSet.Generate.{Sample, accept, accept_all}
use umaa_cpp.LargeSet.Reader.{
  Envelope, valid_data, invalid_data, Reader, set_of, max_read_per_update, fetch, process,
  process_all, update_loop, update_set_elements,
}

module _ {E : Type 0} where
  -- The messages about one set.
  abbrev pub own : ℕ → List (Envelope E) → List (Sample E)
  own id [] = []
  own id (invalid_data ∷ xs) = own id xs
  own id (valid_data s ∷ xs) = if set_of s == id then s ∷ own id xs else own id xs

  process-fetch :
      (id : ℕ) (s : Sample E) (table : List (ℕ × LargeSet E))
      → fetch id (process (valid_data s) table)
        ≡ (if set_of s == id then accept (fetch id table) s else fetch id table)
  unfolding process
  process-fetch id s table =
      ground (arith, lookup-insert (set_of s) id (accept (fetch (set_of s) table) s) table)

  accept_all-own :
      (id : ℕ) (s : Sample E) (xs : List (Envelope E)) (l : LargeSet E)
      → accept_all l (own id (valid_data s ∷ xs))
        ≡ accept_all (if set_of s == id then accept l s else l) (own id xs)
  unfolding accept_all
  accept_all-own id s xs l = ground arith

  -- The sets of a reader do not interfere: after any batch of samples, the set of an id is what
  -- the messages about that id alone, in their order, make of the set that stood under it or else
  -- of a new one. Invalid samples change nothing.
  pub sets_do_not_interfere :
      (id : ℕ) (xs : List (Envelope E)) (table : List (ℕ × LargeSet E))
      → fetch id (process_all xs table) ≡ accept_all (fetch id table) (own id xs)
  unfolding process_all
  sets_do_not_interfere id [] table = unfold accept_all in refl
  sets_do_not_interfere id (invalid_data ∷ xs) table =
      unfold process in sets_do_not_interfere id xs table
  sets_do_not_interfere id (valid_data s ∷ xs) table =
      sets_do_not_interfere id xs (process (valid_data s) table)
      ∙ ap (λ l. accept_all l (own id xs)) (process-fetch id s table)
      ∙ sym (accept_all-own id s xs (fetch id table))

module _ {E : Type 0} (read_up_to_n : ℕ → List (Envelope E)) where
  -- The calls that one update makes, and their samples.
  abbrev pub batches : ℕ → ℕ → List (Envelope E)
  batches zero from = []
  batches (suc n) from = read_up_to_n from ++ batches n (suc from)

  process_all-append :
      (xs ys : List (Envelope E)) (table : List (ℕ × LargeSet E))
      → process_all (xs ++ ys) table ≡ process_all ys (process_all xs table)
  unfolding process_all
  process_all-append [] ys table = refl
  process_all-append (x ∷ xs) ys table = process_all-append xs ys (process x table)

  -- One round of the loop: the batch, and the reader after it.
  abbrev round_batch : Reader E → List (Envelope E)
  round_batch r = read_up_to_n r.reads

  abbrev round_next : Reader E → Reader E
  round_next r = record { set_table = process_all (round_batch r) r.set_table; reads = suc r.reads }

  abbrev rounds : ℕ → Reader E → Reader E
  rounds = times max_read_per_update (update_loop read_up_to_n) round_batch round_next

  round_lem :
      (fuel total : ℕ) (r : Reader E)
      → Round max_read_per_update (update_loop read_up_to_n) round_batch round_next fuel total r
  unfolding update_loop
  round_lem fuel total r = refl

  -- The reader after the samples of the next `n` batches.
  abbrev pub after_batches : ℕ → Reader E → Reader E
  after_batches n r = record {
    set_table = process_all (batches n r.reads) r.set_table;
    reads = n + r.reads;
  }

  rounds_lem : (n : ℕ) (r : Reader E) → rounds n r ≡ after_batches n r
  rounds_lem zero r = unfold process_all in ground arith
  rounds_lem (suc n) r =
      let more = process_all-append (round_batch r) (batches n (suc r.reads)) r.set_table in
      ground (arith, rounds_lem n (round_next r), more)

  -- An update always ends by itself. It makes at least one and at most 52 calls of readUpToN,
  -- whatever they give, and its effect is that of processing all their samples in order.
  pub set_update_ends :
      (r : Reader E)
      → (n : ℕ) × (n < 52) × (update_set_elements read_up_to_n r ≡ some (after_batches (suc n) r))
  unfolding update_set_elements
  set_update_ends r =
      let (n, l, e) =
        loop_ends max_read_per_update (update_loop read_up_to_n) round_batch round_next round_lem 52
          0 r (omega arith) (omega arith) in
      (n, l, e ∙ ap some (rounds_lem (suc n) r))
