-- ===== src/LargeList/Writer/Sync.antt =====
-- A writer whose links, metadata and messages agree, and what its reader makes of them.
use umaa_cpp.Base.{
  ℕ, suc, ◌≤◌, ◌≡◌, refl, sym, ◌∙◌, ap, true, false, Option, none, some, List, [], ◌∷◌, length, map,
  All, arith, inl, inr, Option-cases, length-map, subst,
}
use umaa_cpp.Base.Table.{NoRepeat}
use umaa_cpp.LargeList.{
  LargeList, LargeListMetadata, ListElement, LargeListResult, empty_list, is_late, receive_metadata,
  generate_list,
}
use umaa_cpp.LargeList.Loop.{Linked, stop, link, path, next_of}
use umaa_cpp.LargeList.Generate.{Sample, valid, generate_list-Spells}
use umaa_cpp.LargeList.Writer.{Env, Writer, head_id, described, start_of}
use umaa_cpp.LargeList.Writer.Store.{ids, reader, reader_same}
use umaa_cpp.LargeList.Writer.Stores.{IsReliable, Stored, Stores}

-- What a reader should make of a writer's elements.
abbrev pub view : {E : Type 0} → List (ListElement E) → LargeListResult E
view [] = record { status = empty_list; list = none }
view (e ∷ es) = valid (e.element ∷ map (λ x. x.element) es)

-- Each element names the next one, the last one none.
abbrev pub Links : {E : Type 0} → List (ListElement E) → Type 0
Links [] = Unit
Links (e ∷ es) = (e.next_element_id ≡ head_id es) × Links es

module _ {E : Type 0} (env : Env) (rely : IsReliable env) where
  pub record Synced (w : Writer E) : Type 0 where
    pub stores : Stores env rely w
    pub links : Links w.elements
    pub timely :
        All
          (λ e. is_late w.metadata.update_element_timestamp e.element_timestamp ≡ false)
          w.elements
    pub owner : w.metadata.list_id ≡ w.list_id
    pub size : w.metadata.size ≡ length w.elements
    pub starting : w.metadata.starting_element_id ≡ start_of w.elements

  next_of_link :
      (table : List (ℕ × ListElement E)) (limit : Option _) (e : ListElement E)
      (es : List (ListElement E))
      → e.next_element_id ≡ head_id es
      → next_of table limit e ≡ start_of es
  next_of_link table limit e [] h = ground arith
  next_of_link table limit e (x ∷ xs) h = ground arith

  Stored-Linked :
      (id : ℕ) (bus : List (Sample E)) (g s : ℕ) (limit : Option _) (es : List (ListElement E))
      → All (Stored env rely id bus g s) es
      → Links es
      → All (λ e. is_late limit e.element_timestamp ≡ false) es
      → Linked (reader id bus).element_table limit (start_of es) es
        × (path (reader id bus).element_table limit (start_of es) es ≡ ids es)
  Stored-Linked id bus g s limit [] a l t = (stop, refl)
  Stored-Linked id bus g s limit (e ∷ es) (a, rest) (l, ls) (t, ts) =
      let table = (reader id bus).element_table in
      let next = next_of_link table limit e es l in
      let (linked, p) = Stored-Linked id bus g s limit es rest ls ts in
      let (i, il, ie) = a.origin in
      (
        link (λ z. rely.not_nil i (sym ie ∙ z)) a.held t (rw next linked),
        ap (◌∷◌ e.element_id) (ap (λ n. path table limit n es) next ∙ p),
      )

  receive_generates :
      (l : LargeList E) (m : LargeListMetadata)
      → m.list_id ≡ l.list_id
      → l.latest_metadata.update_element_timestamp ≡ none
      → receive_metadata l m ≡ generate_list (record l { latest_metadata = m; cached_list = none })
  unfolding receive_metadata
  receive_generates l m h n = elim (Option-cases m.update_element_timestamp) [
    | inl e ↦ ground (arith, e)
    | inr (t, e) ↦ ground (arith, e)
  ]

  generate_empty :
      (l : LargeList E)
      → l.latest_metadata.size ≡ 0
      → (generate_list l).0 ≡ record { status = empty_list; list = none }
  unfolding generate_list
  generate_empty l h = ground arith

  -- A reader that has taken all messages of a synchronised writer and then its metadata has the
  -- writer's elements, in order.
  pub round_trip :
      (w : Writer E)
      → Synced w
      → (receive_metadata (reader w.list_id w.bus) w.metadata).0 ≡ view w.elements
  round_trip w s =
      let (i, m) = reader_same w.list_id w.bus in
      rw (receive_generates (reader w.list_id w.bus) w.metadata (s.owner ∙ sym i) m)
        (built w.elements refl)
    where
      fresh : LargeList E
      fresh = record (reader w.list_id w.bus) { latest_metadata = w.metadata; cached_list = none }

      built : (es : List (ListElement E)) → w.elements ≡ es → (generate_list fresh).0 ≡ view es
      built [] h = generate_empty fresh (s.size ∙ ap length h)
      built (e ∷ es) h =
          let table = (reader w.list_id w.bus).element_table in
          let limit = w.metadata.update_element_timestamp in
          let (linked, p) =
            Stored-Linked w.list_id w.bus w.guids_used w.stamps_used limit w.elements
              s.stores.stored s.links s.timely in
          let ids_path = ap (λ n. path table limit n w.elements) s.starting ∙ p in
          let same : length (map (λ x. x.element) w.elements) ≡ w.metadata.size =
            length-map w.elements (λ x. x.element) ∙ sym s.size in
          (generate_list-Spells fresh (map (λ x. x.element) w.elements)).1 (
            λ z. ground (arith, s.size, z, ap length h),
            same,
            (
              w.elements,
              subst (λ n. Linked table limit n w.elements) (sym s.starting) linked,
              subst NoRepeat (sym ids_path) s.stores.unique,
              refl,
            ),
          )
          ∙ ap (λ (xs : List (ListElement E)). valid (map (λ x. x.element) xs)) h

  timely_at :
      (id : ℕ) (bus : List (Sample E)) (g s j : ℕ) (es : List (ListElement E))
      → s ≤ suc j
      → All (Stored env rely id bus g s) es
      → All (λ e. is_late (some (env.clock j)) e.element_timestamp ≡ false) es
  timely_at id bus g s j [] h a = tt
  timely_at id bus g s j (e ∷ es) h (a, rest) =
      let (k, kl, ke) = a.moment in
      (rw ke (rely.forward k j (omega arith)), timely_at id bus g s j es h rest)

  timely_none : (es : List (ListElement E)) → All (λ e. is_late none e.element_timestamp ≡ false) es
  timely_none [] = tt
  timely_none (e ∷ es) = (refl, timely_none es)

  -- The metadata of the last step describes the writer.
  pub described-Synced :
      (w : Writer E) (e : ListElement E) (j : ℕ)
      → Stores env rely w
      → Links w.elements
      → w.metadata.list_id ≡ w.list_id
      → e.element_timestamp ≡ env.clock j
      → w.stamps_used ≤ suc j
      → Synced (described e false w)
  described-Synced w e j st l o t h = record {
    stores = record { stored = st.stored; unique = st.unique };
    links = l;
    timely = rw t (timely_at w.list_id w.bus w.guids_used w.stamps_used j w.elements h st.stored);
    owner = o;
    size = refl;
    starting = refl;
  }

  pub disposed-Synced :
      (w : Writer E) (e : ListElement E)
      → Stores env rely w
      → Links w.elements
      → w.metadata.list_id ≡ w.list_id
      → Synced (described e true w)
  disposed-Synced w e st l o = record {
    stores = record { stored = st.stored; unique = st.unique };
    links = l;
    timely = timely_none w.elements;
    owner = o;
    size = refl;
    starting = refl;
  }
