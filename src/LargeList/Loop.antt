-- ===== src/LargeList/Loop.antt =====
-- The loop of `generateList`: it ends, and it returns the list that the links spell.
use umaa_cpp.Base.{
  ℕ, zero, suc, ◌<◌, ◌≡◌, ◌≢◌, refl, sym, ◌∙◌, ap, false, Option, none, some, List, [], ◌∷◌, ◌++◌,
  map, ◌==◌, arith, ◌⊎◌, inl, inr, Bool-cases, Option-cases,
}
use mathlib.Core.List.{append-nil, append_assoc}
use umaa_cpp.Base.Table.{lookup, contains, NoRepeat, unvisited, unvisited-lt}
use umaa_cpp.Time.{DateTime}
use umaa_cpp.LargeList.{nil_guid, ListElement, done, broken, unfinished, is_late, walk}

module _ {E : Type 0} (table : List (ℕ × ListElement E)) (limit : Option DateTime) where
  -- The id that follows an element; no id is NIL_GUID.
  abbrev pub next_of : ListElement E → ℕ
  next_of e = elim e.next_element_id [ none ↦ nil_guid | some n ↦ n ]

  -- `Linked id es`: from `id` the links pass through the elements `es`, each stored under its id
  -- and no later than the limit, and end.
  pub data Linked : ℕ → List (ListElement E) → Type 0 where
    stop : Linked nil_guid []
    link :
        {id : ℕ} {e : ListElement E} {es : List (ListElement E)}
        → id ≢ nil_guid
        → lookup id table ≡ some e
        → is_late limit e.element_timestamp ≡ false
        → Linked (next_of e) es
        → Linked id (e ∷ es)

  -- The ids of the elements that the links pass through.
  abbrev pub path : ℕ → List (ListElement E) → List ℕ
  path id [] = []
  path id (e ∷ es) = id ∷ path (next_of e) es

  -- No id of the first list is in the second.
  abbrev pub Avoids : List ℕ → List ℕ → Type 0
  Avoids [] ks = Unit
  Avoids (j ∷ js) ks = (contains j ks ≡ false) × Avoids js ks

  -- What one round of the loop can do.
  abbrev Round : ℕ → List ℕ → ℕ → List E → Type 0
  Round fuel visited next_id list =
      ((next_id ≡ nil_guid) × (walk table limit (suc fuel) visited next_id list ≡ done list))
      ⊎ ((next_id ≢ nil_guid) × (walk table limit (suc fuel) visited next_id list ≡ broken))
      ⊎ ((v : ListElement E) × (next_id ≢ nil_guid)
          × (lookup next_id table ≡ some v)
          × (is_late limit v.element_timestamp ≡ false)
          × ((next_of v ≡ nil_guid) ⊎ (contains (next_of v) (next_id ∷ visited) ≡ false))
          × (walk table limit (suc fuel) visited next_id list
              ≡ walk table limit fuel (next_id ∷ visited) (next_of v) (list ++ v.element ∷ [])))

  round :
      (fuel : ℕ) (visited : List ℕ) (next_id : ℕ) (list : List E) → Round fuel visited next_id list
  unfolding walk
  round fuel visited next_id list = elim (Option-cases (lookup next_id table)) [
    | inl e ↦ ground (arith, e)
    | inr (v, e) ↦ elim (Bool-cases (next_id == nil_guid)) [
      | inl z ↦ inl (ground (arith, z), ground (arith, z))
      | inr z ↦ elim (Bool-cases (is_late limit v.element_timestamp)) [
        | inl late ↦ inr (inl (ground (arith, z), ground (arith, z, e, late)))
        | inr early ↦ elim (Option-cases v.next_element_id) [
          | inl x ↦ inr (
              inr (
                v,
                ground (arith, z),
                e,
                early,
                inl (ground (arith, x)),
                ground (arith, z, e, early, x),
              ))
          | inr (m, x) ↦ elim (Bool-cases (contains m (next_id ∷ visited))) [
            | inl seen ↦ inr (inl (ground (arith, z), ground (arith, z, e, early, x, seen)))
            | inr new ↦ inr (
                inr (
                  v,
                  ground (arith, z),
                  e,
                  early,
                  inr (ground (arith, x, new)),
                  ground (arith, z, e, early, x, new),
                ))
          ]
        ]
      ]
    ]
  ]

  -- The loop ends before the fuel does.
  pub walk_ends :
      (fuel : ℕ) (visited : List ℕ) (next_id : ℕ) (list : List E)
      → unvisited table visited < fuel
      → (next_id ≡ nil_guid) ⊎ (contains next_id visited ≡ false)
      → walk table limit fuel visited next_id list ≢ unfinished
  walk_ends zero visited next_id list h n = elim h [ ]
  walk_ends (suc fuel) visited next_id list h n = elim (round fuel visited next_id list) [
    | inl (z, e) ↦ rw e (λ x. cc)
    | inr (inl (z, e)) ↦ rw e (λ x. cc)
    | inr (inr (v, z, found, ok, m, e)) ↦ rw e (
        walk_ends fuel (next_id ∷ visited) (next_of v) (list ++ v.element ∷ [])
          (ground (arith, unvisited-lt next_id table visited v found)) m)
  ]

  Avoids-tail :
      (k : ℕ) (js ks : List ℕ) → Avoids js (k ∷ ks) → (contains k js ≡ false) × Avoids js ks
  Avoids-tail k [] ks h = (refl, tt)
  Avoids-tail k (j ∷ js) ks h = let rest = Avoids-tail k js ks h.1 in ground (arith, rest)

  Avoids-cons : (k : ℕ) (js ks : List ℕ) → contains k js ≡ false → Avoids js ks → Avoids js (k ∷ ks)
  Avoids-cons k [] ks c h = tt
  Avoids-cons k (j ∷ js) ks c h = ground (arith, Avoids-cons k js ks)

  pub Avoids-nil : (js : List ℕ) → Avoids js []
  Avoids-nil [] = tt
  Avoids-nil (j ∷ js) = (refl, Avoids-nil js)

  -- What a loop from `id` has walked that ends regularly with `r`.
  abbrev pub Walked : ℕ → List ℕ → List E → List E → Type 0
  Walked id visited list r =
      (es : List (ListElement E)) × Linked id es
      × (r ≡ list ++ map (λ e. e.element) es)
      × NoRepeat (path id es)
      × Avoids (path id es) visited

  -- A loop that ends regularly has walked a chain of links without meeting an id twice.
  pub walk_sound :
      (fuel : ℕ) (visited : List ℕ) (next_id : ℕ) (list r : List E)
      → walk table limit fuel visited next_id list ≡ done r
      → (next_id ≡ nil_guid) ⊎ (contains next_id visited ≡ false)
      → Walked next_id visited list r
  walk_sound zero visited next_id list r h n = unfold walk in cc
  walk_sound (suc fuel) visited next_id list r h n = elim (round fuel visited next_id list) [
    | inl (z, e) ↦ ([], rw z stop, cc (append-nil list), tt, tt)
    | inr (inl (z, e)) ↦ cc
    | inr (inr (v, z, found, ok, m, e)) ↦
        let (es, linked, r', nr, av) =
          walk_sound fuel (next_id ∷ visited) (next_of v) (list ++ v.element ∷ []) r (sym e ∙ h)
            m in
        let (fresh, av') = Avoids-tail next_id (path (next_of v) es) visited av in
        (
          v ∷ es,
          link z found ok linked,
          r' ∙ append_assoc list (v.element ∷ []) (map (λ e. e.element) es),
          (fresh, nr),
          (ground (arith, n), av'),
        )
  ]

  walk_step :
      (fuel : ℕ) (visited : List ℕ) (id : ℕ) (list : List E) (v : ListElement E)
      → id ≢ nil_guid
      → lookup id table ≡ some v
      → is_late limit v.element_timestamp ≡ false
      → contains (next_of v) (id ∷ visited) ≡ false
      → walk table limit (suc fuel) visited id list
        ≡ walk table limit fuel (id ∷ visited) (next_of v) (list ++ v.element ∷ [])
  unfolding walk
  walk_step fuel visited id list v nn found ok new = elim (Option-cases v.next_element_id) [
    | inl x ↦ ground (arith, found, ok, x)
    | inr (m, x) ↦ ground (arith, found, ok, x, new)
  ]

  head_fresh :
      {id : ℕ} {es : List (ListElement E)}
      → Linked id es
      → (prev : ℕ) (visited : List ℕ) → prev ≢ nil_guid
      → contains nil_guid visited ≡ false
      → contains prev (path id es) ≡ false
      → Avoids (path id es) visited
      → contains id (prev ∷ visited) ≡ false
  head_fresh stop prev visited nn nil_out c av = ground arith
  head_fresh (link z found ok rest) prev visited nn nil_out c av = ground arith

  -- A chain of links without a repeated id is walked to its end.
  pub walk_complete :
      {id : ℕ} {es : List (ListElement E)}
      → Linked id es
      → (fuel : ℕ) (visited : List ℕ) (list : List E) → contains nil_guid visited ≡ false
      → NoRepeat (path id es)
      → Avoids (path id es) visited
      → walk table limit fuel visited id list ≢ unfinished
      → walk table limit fuel visited id list ≡ done (list ++ map (λ e. e.element) es)
  walk_complete stop zero visited list out nr av h = absurd (h (unfold walk in refl))
  walk_complete stop (suc fuel) visited list out nr av h =
      unfold walk in ap done (sym (append-nil list))
  walk_complete (link nn found ok rest) zero visited list out nr av h =
      absurd (h (unfold walk in refl))
  walk_complete (link {id} {e} {es} nn found ok rest) (suc fuel) visited list out nr av h =
      let step =
        walk_step fuel visited id list e nn found ok
          (head_fresh rest id visited nn out nr.0 av.1) in
      let rec =
        walk_complete rest fuel (id ∷ visited) (list ++ e.element ∷ []) (ground arith) nr.1
          (Avoids-cons id (path (next_of e) es) visited nr.0 av.1) (λ x. h (step ∙ x)) in
      step ∙ rec ∙ ap done (append_assoc list (e.element ∷ []) (map (λ x. x.element) es))
