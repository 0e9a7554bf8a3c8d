-- ===== src/LargeList/Writer/Stores.antt =====
-- Every element of a writer is held by its reader under its id, with a GUID and a time stamp that
-- the writer has drawn, and no two share an id. How the parts of the writer's calls keep this.
use umaa_cpp.Base.{
  ℕ, ◌<◌, ◌≤◌, ◌≡◌, ◌≢◌, refl, false, some, List, [], ◌∷◌, ◌++◌, ◌==◌, All, arith, ◌||◌,
}
use umaa_cpp.Base.Table.{contains, NoRepeat}
use umaa_cpp.Time.{gt}
use umaa_cpp.LargeList.{ListElement, nil_guid}
use umaa_cpp.LargeList.Generate.{Sample, alive, disposed}
use umaa_cpp.LargeList.Writer.{Env, Writer}
use umaa_cpp.Transport.{success}
use umaa_cpp.LargeList.Writer.Store.{ids, find, find-alive, find-disposed}

-- What the writer relies on: the factory draws new GUIDs that are not NIL_GUID, the clock does not
-- go back, and every message is sent.
pub record IsReliable (env : Env) : Type 0 where
  pub distinct : (i j : ℕ) → i < j → env.guid i ≢ env.guid j
  pub not_nil : (i : ℕ) → env.guid i ≢ nil_guid
  pub forward : (i j : ℕ) → i ≤ j → gt (env.clock i) (env.clock j) ≡ false
  pub sent : (n : ℕ) → env.outcome n ≡ success

module _ {E : Type 0} (env : Env) (rely : IsReliable env) where
  -- `e` is drawn from the first `g` GUIDs and the first `s` time stamps, and held by the reader.
  pub record Stored (id : ℕ) (bus : List (Sample E)) (g s : ℕ) (e : ListElement E) : Type 0 where
    pub origin : (i : ℕ) × (i < g) × (e.element_id ≡ env.guid i)
    pub moment : (k : ℕ) × (k < s) × (e.element_timestamp ≡ env.clock k)
    pub owner : e.list_id ≡ id
    pub held : find id bus e.element_id ≡ some e

  pub record Stores (w : Writer E) : Type 0 where
    pub stored : All (Stored w.list_id w.bus w.guids_used w.stamps_used) w.elements
    pub unique : NoRepeat (ids w.elements)

  pub Stored-mono :
      (id : ℕ) (bus : List (Sample E)) (g h s t : ℕ) (es : List (ListElement E))
      → g ≤ h
      → s ≤ t
      → All (Stored id bus g s) es
      → All (Stored id bus h t) es
  Stored-mono id bus g h s t [] p q a = tt
  Stored-mono id bus g h s t (e ∷ es) p q (a, rest) =
      let (i, il, ie) = a.origin in
      let (k, kl, ke) = a.moment in
      (
        record {
          origin = (i, omega arith, ie);
          moment = (k, omega arith, ke);
          owner = a.owner;
          held = a.held;
        },
        Stored-mono id bus g h s t es p q rest,
      )

  -- A message about an id that no element of the list has leaves the list stored.
  pub Stored-alive :
      (id : ℕ) (bus : List (Sample E)) (g s : ℕ) (new : ListElement E) (es : List (ListElement E))
      → new.list_id ≡ id
      → contains new.element_id (ids es) ≡ false
      → All (Stored id bus g s) es
      → All (Stored id (alive new ∷ bus) g s) es
  Stored-alive id bus g s new [] o c a = tt
  Stored-alive id bus g s new (e ∷ es) o c (a, rest) = (
    record {
      origin = a.origin;
      moment = a.moment;
      owner = a.owner;
      held = ground (arith, find-alive id new bus e.element_id o, a.held);
    },
    Stored-alive id bus g s new es o (ground arith) rest,
  )

  pub Stored-disposed :
      (id : ℕ) (bus : List (Sample E)) (g s : ℕ) (old : ListElement E) (es : List (ListElement E))
      → old.list_id ≡ id
      → contains old.element_id (ids es) ≡ false
      → All (Stored id bus g s) es
      → All (Stored id (disposed old ∷ bus) g s) es
  Stored-disposed id bus g s old [] o c a = tt
  Stored-disposed id bus g s old (e ∷ es) o c (a, rest) = (
    record {
      origin = a.origin;
      moment = a.moment;
      owner = a.owner;
      held = ground (arith, find-disposed id old bus e.element_id o, a.held);
    },
    Stored-disposed id bus g s old es o (ground arith) rest,
  )

  -- A GUID that has not been drawn is no element's id.
  pub Stored-fresh :
      (id : ℕ) (bus : List (Sample E)) (g s n : ℕ) (es : List (ListElement E))
      → g ≤ n
      → All (Stored id bus g s) es
      → contains (env.guid n) (ids es) ≡ false
  Stored-fresh id bus g s n [] l a = refl
  Stored-fresh id bus g s n (e ∷ es) l (a, rest) =
      let (i, il, ie) = a.origin in
      let other = Stored-fresh id bus g s n es l rest in
      let ne = rely.distinct i n (omega arith) in ground (arith, other, ne, ie)

  pub Stored-append :
      (id : ℕ) (bus : List (Sample E)) (g s : ℕ) (es : List (ListElement E)) (e : ListElement E)
      → All (Stored id bus g s) es
      → Stored id bus g s e
      → All (Stored id bus g s) (es ++ e ∷ [])
  Stored-append id bus g s [] e a b = (b, tt)
  Stored-append id bus g s (x ∷ xs) e (a, rest) b = (a, Stored-append id bus g s xs e rest b)

  pub contains-append :
      (k : ℕ) (es : List (ListElement E)) (e : ListElement E)
      → contains k (ids (es ++ e ∷ [])) ≡ (contains k (ids es) || e.element_id == k)
  contains-append k [] e = ground arith
  contains-append k (x ∷ xs) e = ground (arith, contains-append k xs e)

  pub NoRepeat-append :
      (es : List (ListElement E)) (e : ListElement E)
      → NoRepeat (ids es)
      → contains e.element_id (ids es) ≡ false
      → NoRepeat (ids (es ++ e ∷ []))
  NoRepeat-append [] e n c = (refl, tt)
  NoRepeat-append (x ∷ xs) e n c =
      let rest = NoRepeat-append xs e n.1 in
      let c' = contains-append x.element_id xs e in (ground (arith, c', n.0), rest (ground arith))
