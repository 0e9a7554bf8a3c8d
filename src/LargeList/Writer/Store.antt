-- ===== src/LargeList/Writer/Store.antt =====
-- What a reader that has taken every message of a writer holds, against the writer's elements.
use umaa_cpp.Base.{
  ℕ, ◌≡◌, refl, ◌∙◌, ap, Option, none, some, List, [], ◌∷◌, ◌++◌, reverse, ◌==◌, map, if◌then◌else◌,
  arith,
}
use mathlib.Core.List.{reverse-cons}
use umaa_cpp.Base.Table.{lookup, lookup-insert, lookup-erase}
use umaa_cpp.LargeList.{LargeList, LargeListMetadata, ListElement, new_by_id}
use umaa_cpp.LargeList.Generate.{Sample, alive, disposed, accept, accept_all}

abbrev pub ids : {E : Type 0} → List (ListElement E) → List ℕ
ids = map (λ e. e.element_id)

module _ {E : Type 0} where
  -- The reader of the list `id` that has taken the messages of a bus, the oldest first.
  unfoldable pub reader : ℕ → List (Sample E) → LargeList E
  reader id bus = accept_all (new_by_id id) (reverse bus)

  accept_all-append :
      (l : LargeList E) (ss : List (Sample E)) (s : Sample E)
      → accept_all l (ss ++ s ∷ []) ≡ accept (accept_all l ss) s
  unfolding accept_all
  accept_all-append l [] s = refl
  accept_all-append l (x ∷ ss) s = accept_all-append (accept l x) ss s

  reader-cons :
      (id : ℕ) (s : Sample E) (bus : List (Sample E))
      → reader id (s ∷ bus) ≡ accept (reader id bus) s
  unfolding reader
  reader-cons id s bus =
      ap (accept_all (new_by_id id)) (reverse-cons s bus)
      ∙ accept_all-append (new_by_id id) (reverse bus) s

  accept_same :
      (l : LargeList E) (s : Sample E)
      → ((accept l s).list_id ≡ l.list_id) × ((accept l s).latest_metadata ≡ l.latest_metadata)
  unfolding accept
  accept_same l (alive e) = ground arith
  accept_same l (disposed e) = ground arith

  accept_all_same :
      (l : LargeList E) (ss : List (Sample E))
      → ((accept_all l ss).list_id ≡ l.list_id)
        × ((accept_all l ss).latest_metadata ≡ l.latest_metadata)
  unfolding accept_all
  accept_all_same l [] = (refl, refl)
  accept_all_same l (s ∷ ss) =
      let (i, m) = accept_all_same (accept l s) ss in
      let (i', m') = accept_same l s in (i ∙ i', m ∙ m')

  pub reader_same :
      (id : ℕ) (bus : List (Sample E))
      → ((reader id bus).list_id ≡ id)
        × ((reader id bus).latest_metadata.update_element_timestamp ≡ none)
  unfolding reader new_by_id
  reader_same id bus =
      let (i, m) = accept_all_same (new_by_id id) (reverse bus) in
      (i, ap (λ (x : LargeListMetadata). x.update_element_timestamp) m)

  abbrev pub find : ℕ → List (Sample E) → ℕ → Option (ListElement E)
  find id bus j = lookup j (reader id bus).element_table

  pub find-alive :
      (id : ℕ) (e : ListElement E) (bus : List (Sample E)) (j : ℕ)
      → e.list_id ≡ id
      → find id (alive e ∷ bus) j ≡ (if e.element_id == j then some e else find id bus j)
  find-alive id e bus j h = rw (reader-cons id (alive e) bus) (
      unfold accept in
      ground
        (arith, reader_same id bus, lookup-insert e.element_id j e (reader id bus).element_table))

  pub find-disposed :
      (id : ℕ) (e : ListElement E) (bus : List (Sample E)) (j : ℕ)
      → e.list_id ≡ id
      → find id (disposed e ∷ bus) j ≡ (if e.element_id == j then none else find id bus j)
  find-disposed id e bus j h = rw (reader-cons id (disposed e) bus) (
      unfold accept in
      ground (arith, reader_same id bus, lookup-erase e.element_id j (reader id bus).element_table))
