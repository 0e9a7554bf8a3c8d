-- ===== src/LargeList/Writer/Steps.antt =====
-- The parts of which the writer's calls are made keep every element stored.
use umaa_cpp.Base.{
  subst, ℕ, zero, suc, ◌<◌, ◌≡◌, ap, true, false, some, List, [], ◌∷◌, ◌++◌, get_elem?, set, All,
  arith,
}
use umaa_cpp.Base.Table.{contains, NoRepeat}
use umaa_cpp.LargeList.{ListElement}
use umaa_cpp.LargeList.Generate.{alive, disposed}
use umaa_cpp.LargeList.Writer.{Env, Writer}
use umaa_cpp.LargeList.Writer.Store.{ids, find-alive}
use umaa_cpp.LargeList.Writer.Stores.{
  IsReliable, Stored, Stores, Stored-mono, Stored-alive, Stored-disposed, Stored-append,
  NoRepeat-append,
}

module _ {E : Type 0} (env : Env) (rely : IsReliable env) where
  -- A new element that has been stamped and sent is stored.
  abbrev pub Drawn : Writer E → ListElement E → Type 0
  Drawn w e =
      ((i : ℕ) × (i < w.guids_used) × (e.element_id ≡ env.guid i))
      × (e.element_timestamp ≡ env.clock w.stamps_used)
      × (e.list_id ≡ w.list_id)

  abbrev pub sent_with : Writer E → ListElement E → List (ListElement E) → Writer E
  sent_with w e es = record w {
    elements = es;
    stamps_used = suc w.stamps_used;
    sends = suc w.sends;
    bus = alive e ∷ w.bus;
  }

  Stored-now :
      (w : Writer E) (e : ListElement E)
      → Drawn w e
      → Stored env rely w.list_id (alive e ∷ w.bus) w.guids_used (suc w.stamps_used) e
  Stored-now w e (o, t, l) = record {
    origin = o;
    moment = (w.stamps_used, omega arith, t);
    owner = l;
    held = ground (arith, find-alive w.list_id e w.bus e.element_id l);
  }

  Stored-others :
      (w : Writer E) (e : ListElement E) (es : List (ListElement E))
      → e.list_id ≡ w.list_id
      → contains e.element_id (ids es) ≡ false
      → All (Stored env rely w.list_id w.bus w.guids_used w.stamps_used) es
      → All (Stored env rely w.list_id (alive e ∷ w.bus) w.guids_used (suc w.stamps_used)) es
  Stored-others w e es l c a =
      Stored-mono env rely w.list_id (alive e ∷ w.bus) w.guids_used w.guids_used w.stamps_used
        (suc w.stamps_used) es (omega arith) (omega arith)
        (Stored-alive env rely w.list_id w.bus w.guids_used w.stamps_used e es l c a)

  pub Stores-front :
      (w : Writer E) (e : ListElement E)
      → Stores env rely w
      → Drawn w e
      → contains e.element_id (ids w.elements) ≡ false
      → Stores env rely (sent_with w e (e ∷ w.elements))
  Stores-front w e s d c = record {
    stored = (Stored-now w e d, Stored-others w e w.elements d.2 c s.stored);
    unique = (c, s.unique);
  }

  pub Stores-back :
      (w : Writer E) (e : ListElement E)
      → Stores env rely w
      → Drawn w e
      → contains e.element_id (ids w.elements) ≡ false
      → Stores env rely (sent_with w e (w.elements ++ e ∷ []))
  Stores-back w e s d c = record {
    stored =
        Stored-append env rely w.list_id (alive e ∷ w.bus) w.guids_used (suc w.stamps_used)
          w.elements e (Stored-others w e w.elements d.2 c s.stored) (Stored-now w e d);
    unique = NoRepeat-append env rely w.elements e s.unique c;
  }

  set_at :
      (w : Writer E) (i : ℕ) (e : ListElement E) (es : List (ListElement E)) (old : ListElement E)
      → get_elem? es i ≡ some old
      → e.element_id ≡ old.element_id
      → Drawn w e
      → All (Stored env rely w.list_id w.bus w.guids_used w.stamps_used) es
      → NoRepeat (ids es)
      → All
          (Stored env rely w.list_id (alive e ∷ w.bus) w.guids_used (suc w.stamps_used))
          (set es i e)
        × (ids (set es i e) ≡ ids es)
        × (contains e.element_id (ids es) ≡ true)
  set_at w i e [] old g same d a n = cc
  set_at w zero e (x ∷ xs) old g same d (a, rest) n = (
    (Stored-now w e d, Stored-others w e xs d.2 (ground (arith, n.0)) rest),
    ground arith,
    ground arith,
  )
  set_at w (suc i) e (x ∷ xs) old g same d (a, rest) n =
      let (s, k, c) = set_at w i e xs old g same d rest n.1 in
      let other : contains e.element_id (x.element_id ∷ []) ≡ false = ground (arith, c, n.0) in
      (
        ((Stored-others w e (x ∷ []) d.2 other (a, tt)).0, s),
        ap (◌∷◌ x.element_id) k,
        ground (arith, c),
      )

  -- The change of an element in place, under its id.
  pub Stores-set :
      (w : Writer E) (i : ℕ) (e old : ListElement E)
      → Stores env rely w
      → get_elem? w.elements i ≡ some old
      → e.element_id ≡ old.element_id
      → Drawn w e
      → Stores env rely (sent_with w e (set w.elements i e))
  Stores-set w i e old s g same d =
      let (a, k, _) = set_at w i e w.elements old g same d s.stored s.unique in
      record { stored = a; unique = rw k s.unique }

  -- The disposal of the first element.
  pub Stores-rest :
      (w : Writer E) (e : ListElement E) (rest : List (ListElement E))
      → w.elements ≡ e ∷ rest
      → Stores env rely w
      → Stores env rely
          (record w { elements = rest; sends = suc w.sends; bus = disposed e ∷ w.bus })
  Stores-rest w e rest h s =
      let a = subst (All (Stored env rely w.list_id w.bus w.guids_used w.stamps_used)) h s.stored in
      let u = subst (λ es. NoRepeat (ids es)) h s.unique in
      record {
        stored =
            Stored-disposed env rely w.list_id w.bus w.guids_used w.stamps_used e rest a.0.owner u.0
              a.1;
        unique = u.1;
      }

  pub Stores-guid :
      (w : Writer E)
      → Stores env rely w
      → Stores env rely (record w { guids_used = suc w.guids_used })
  Stores-guid w s = record {
    stored =
        Stored-mono env rely w.list_id w.bus w.guids_used (suc w.guids_used) w.stamps_used
          w.stamps_used w.elements (omega arith) (omega arith) s.stored;
    unique = s.unique;
  }
