-- ===== src/LargeSet/Writer/Received.antt =====
-- What a reader that has taken every message of a set's writer holds.
use umaa_cpp.Base.{
  ℕ, ◌≡◌, refl, sym, ◌∙◌, ap, Option, none, some, List, [], ◌∷◌, ◌++◌, arith, ◌==◌, if◌then◌else◌,
  Bool-cases, inl, inr, reverse,
}
use mathlib.Core.List.{reverse-cons}
use umaa_cpp.Base.Table.{lookup, insert, erase, lookup-insert, lookup-erase}
use umaa_cpp.LargeSet.{LargeSet, SetElement, new_by_id}
use umaa_cpp.LargeSet.Generate.{Sample, alive, disposed, accept, accept_all}
use umaa_cpp.LargeSet.Writer.Ids.{
  find_id, Ordered, entries, Ordered-insert, Ordered-erase, lookup-find_id,
}

module _ {E : Type 0} where
  -- The table of a reader that has taken the messages of a bus, the latest of which is first.
  abbrev pub received : ℕ → List (Sample E) → List (ℕ × SetElement E)
  received id [] = []
  received id (alive e ∷ bus) =
      if e.set_id == id then insert e.element_id e (received id bus) else received id bus
  received id (disposed e ∷ bus) =
      if e.set_id == id then erase e.element_id (received id bus) else received id bus

  pub received-Ordered : (id : ℕ) (bus : List (Sample E)) → Ordered (received id bus)
  received-Ordered id [] = tt
  received-Ordered id (alive e ∷ bus) = elim (Bool-cases (e.set_id == id)) [
    | inl h ↦ rw h (Ordered-insert e (received id bus) (received-Ordered id bus))
    | inr h ↦ rw h (received-Ordered id bus)
  ]
  received-Ordered id (disposed e ∷ bus) = elim (Bool-cases (e.set_id == id)) [
    | inl h ↦ rw h (Ordered-erase e.element_id (received id bus) (received-Ordered id bus))
    | inr h ↦ rw h (received-Ordered id bus)
  ]

  accept_all-append :
      (l : LargeSet E) (ss : List (Sample E)) (s : Sample E)
      → accept_all l (ss ++ s ∷ []) ≡ accept (accept_all l ss) s
  unfolding accept_all
  accept_all-append l [] s = refl
  accept_all-append l (x ∷ ss) s = accept_all-append (accept l x) ss s

  -- An id that a table lacks is erased by leaving the table alone.
  erase_missing :
      (k : ℕ) (table : List (ℕ × SetElement E)) → lookup k table ≡ none → erase k table ≡ table
  erase_missing k [] h = refl
  erase_missing k ((j, e) ∷ table) h = ground (arith, erase_missing k table)

  accept-received :
      (id : ℕ) (s : Sample E) (bus : List (Sample E))
      → accept (record (new_by_id id) { element_table = received id bus }) s
        ≡ record (new_by_id id) { element_table = received id (s ∷ bus) }
  unfolding accept umaa_cpp.LargeSet.receive_element umaa_cpp.LargeSet.dispose new_by_id
  accept-received id (alive e) bus = ground arith
  accept-received id (disposed e) bus = ground (arith, erase_missing e.element_id (received id bus))

  -- The set `id` of a reader that has taken the messages of a bus, the oldest first.
  pub reader_lem :
      (id : ℕ) (bus : List (Sample E))
      → accept_all (new_by_id id) (reverse bus)
        ≡ record (new_by_id id) { element_table = received id bus }
  reader_lem id [] = unfold accept_all new_by_id in refl
  reader_lem id (s ∷ bus) =
      ap (accept_all (new_by_id id)) (reverse-cons s bus)
      ∙ accept_all-append (new_by_id id) (reverse bus) s
      ∙ ap (λ l. accept l s) (reader_lem id bus)
      ∙ accept-received id s bus

  -- The element that the reader has under an id.
  abbrev pub held : ℕ → List (Sample E) → ℕ → Option (SetElement E)
  held id bus k = find_id k (entries (received id bus))

  held-lookup :
      (id : ℕ) (bus : List (Sample E)) (k : ℕ) → held id bus k ≡ lookup k (received id bus)
  held-lookup id bus k = sym (lookup-find_id k (received id bus) (received-Ordered id bus))

  pub held-alive :
      (id k : ℕ) (e : SetElement E) (bus : List (Sample E))
      → e.set_id ≡ id
      → held id (alive e ∷ bus) k ≡ (if e.element_id == k then some e else held id bus k)
  held-alive id k e bus h =
      held-lookup id (alive e ∷ bus) k
      ∙ ground (arith, held-lookup id bus k, lookup-insert e.element_id k e (received id bus))

  pub held-disposed :
      (id k : ℕ) (e : SetElement E) (bus : List (Sample E))
      → e.set_id ≡ id
      → held id (disposed e ∷ bus) k ≡ (if e.element_id == k then none else held id bus k)
  held-disposed id k e bus h =
      held-lookup id (disposed e ∷ bus) k
      ∙ ground (arith, held-lookup id bus k, lookup-erase e.element_id k (received id bus))
