-- ===== src/LargeList/Writer/Append.antt =====
-- The call `append` of the writer keeps it synchronised, and pushes the value.
use umaa_cpp.Base.{
  All-get_elem?, ℕ, zero, suc, ◌≡◌, refl, sym, ◌∙◌, ap, false, none, some, List, [], ◌∷◌, ◌++◌,
  get_elem?, set, arith, subst,
}
use mathlib.Core.List.{map-append}
use umaa_cpp.Base.Table.{contains}
use umaa_cpp.LargeList.{ListElement}
use umaa_cpp.LargeList.Writer.{Env, Writer, head_id, described}
use umaa_cpp.LargeList.Writer.Add.{append, get_last?, map_last}
use umaa_cpp.LargeList.Writer.Store.{ids}
use umaa_cpp.LargeList.Writer.Stores.{IsReliable, Stored, Stores, Stored-fresh}
use umaa_cpp.LargeList.Writer.Steps.{sent_with, Stores-back, Stores-set, Stores-guid}
use umaa_cpp.LargeList.Writer.Sync.{Synced, Links, described-Synced}
use umaa_cpp.LargeList.Writer.Sound.{values, Leaves}

module _ {E : Type 0} where
  last_index : List (ListElement E) → ℕ
  last_index [] = 0
  last_index (x ∷ []) = 0
  last_index (x ∷ y ∷ ys) = suc (last_index (y ∷ ys))

  get_last?_lem : (es : List (ListElement E)) → get_elem? es (last_index es) ≡ get_last? es
  unfolding last_index
  get_last?_lem [] = refl
  get_last?_lem (x ∷ []) = refl
  get_last?_lem (x ∷ y ∷ ys) = get_last?_lem (y ∷ ys)

  map_last_lem :
      (es : List (ListElement E)) (e : ListElement E)
      → set es (last_index es) e ≡ map_last (λ _. e) es
  unfolding last_index
  map_last_lem [] e = refl
  map_last_lem (x ∷ []) e = refl
  map_last_lem (x ∷ y ∷ ys) e = ap (◌∷◌ x) (map_last_lem (y ∷ ys) e)

  pub get_last?-cons :
      (x : ListElement E) (xs : List (ListElement E))
      → (b : ListElement E) × (get_last? (x ∷ xs) ≡ some b)
  get_last?-cons x [] = (x, refl)
  get_last?-cons x (y ∷ ys) = get_last?-cons y ys

  values-map_last :
      (es : List (ListElement E)) (old e : ListElement E)
      → get_last? es ≡ some old
      → e.element ≡ old.element
      → values (map_last (λ _. e) es) ≡ values es
  values-map_last [] old e h p = refl
  values-map_last (x ∷ []) old e h p = ground arith
  values-map_last (x ∷ y ∷ ys) old e h p = ap (◌∷◌ x.element) (values-map_last (y ∷ ys) old e h p)

  -- The last element linked to a new last one.
  Links-append :
      (es : List (ListElement E)) (old back e : ListElement E)
      → get_last? es ≡ some old
      → back.element_id ≡ old.element_id
      → back.next_element_id ≡ some e.element_id
      → e.next_element_id ≡ none
      → Links es
      → Links (map_last (λ _. back) es ++ e ∷ [])
        × (head_id (map_last (λ _. back) es ++ e ∷ []) ≡ head_id es)
  Links-append [] old back e h p q n l = cc
  Links-append (x ∷ []) old back e h p q n l = ((q, (n, tt)), ground arith)
  Links-append (x ∷ y ∷ ys) old back e h p q n (l, ls) =
      let (k, g) = Links-append (y ∷ ys) old back e h p q n ls in ((l ∙ sym g, k), refl)

  ids-set :
      (es : List (ListElement E)) (i : ℕ) (e old : ListElement E)
      → get_elem? es i ≡ some old
      → e.element_id ≡ old.element_id
      → ids (set es i e) ≡ ids es
  ids-set [] i e old h p = refl
  ids-set (x ∷ xs) zero e old h p = ground arith
  ids-set (x ∷ xs) (suc i) e old h p = ap (◌∷◌ x.element_id) (ids-set xs i e old h p)

module _ {E : Type 0} (env : Env) (rely : IsReliable env) (w : Writer E) (v : E)
    (s : Synced env rely w) where
  drawn : Writer E
  drawn = record w { guids_used = suc w.guids_used }

  fresh_id : contains (env.guid w.guids_used) (ids w.elements) ≡ false
  fresh_id =
      Stored-fresh env rely w.list_id w.bus w.guids_used w.stamps_used w.guids_used w.elements
        (omega arith) s.stores.stored

  new_at : ℕ → ListElement E
  new_at k = record {
    list_id = w.list_id;
    element_id = env.guid w.guids_used;
    element = v;
    next_element_id = none;
    element_timestamp = env.clock k;
  }

  pub append_to_empty :
      w.elements ≡ [] → Leaves env rely (append env v) w (values w.elements ++ v ∷ [])
  unfolding new_at drawn
  append_to_empty h = record {
    after = described e false sent;
    runs = unfold append in ground (arith, rely.sent w.sends);
    synced =
        described-Synced env rely sent e w.stamps_used
          (Stores-back env rely drawn e (Stores-guid env rely w s.stores)
            ((w.guids_used, omega arith, refl), refl, refl) fresh_id)
          (rw h (refl, tt)) s.owner refl (omega arith);
    same_id = refl;
    left = map-append (λ (x : ListElement E). x.element) w.elements (e ∷ []);
  }
    where
      e : ListElement E
      e = new_at w.stamps_used

      sent : Writer E
      sent = sent_with env rely drawn e (w.elements ++ e ∷ [])

  pub append_to_list :
      (back : ListElement E)
      → get_last? w.elements ≡ some back
      → Leaves env rely (append env v) w (values w.elements ++ v ∷ [])
  unfolding new_at drawn
  append_to_list back h = record {
    after = described e false sent;
    runs = unfold append in ground (arith, rely.sent w.sends, rely.sent (suc w.sends), h);
    synced =
        described-Synced env rely sent e (suc w.stamps_used)
          (Stores-back env rely linked e linked_Stores
            ((w.guids_used, omega arith, refl), refl, refl) fresh_after)
          (Links-append w.elements back back' e h refl refl refl s.links).0 s.owner refl
          (omega arith);
    same_id = refl;
    left =
        map-append (λ (x : ListElement E). x.element) (map_last (λ _. back') w.elements) (e ∷ [])
        ∙ ap (λ xs. xs ++ v ∷ []) (values-map_last w.elements back back' h refl);
  }
    where
      back' : ListElement E
      back' = record back {
        next_element_id = some (env.guid w.guids_used);
        element_timestamp = env.clock w.stamps_used;
      }

      i : ℕ
      i = last_index w.elements

      at : get_elem? w.elements i ≡ some back
      at = get_last?_lem w.elements ∙ h

      e : ListElement E
      e = new_at (suc w.stamps_used)

      linked : Writer E
      linked = sent_with env rely drawn back' (map_last (λ _. back') w.elements)

      kept : Stored env rely w.list_id w.bus w.guids_used w.stamps_used back
      kept =
          All-get_elem? (Stored env rely w.list_id w.bus w.guids_used w.stamps_used) w.elements i
            back at s.stores.stored

      linked_Stores : Stores env rely linked
      linked_Stores =
          let (k, kl, ke) = kept.origin in
          subst (λ es. Stores env rely (sent_with env rely drawn back' es))
            (map_last_lem w.elements back')
            (Stores-set env rely drawn i back' back (Stores-guid env rely w s.stores) at refl
              ((k, omega arith, ke), refl, kept.owner))

      fresh_after :
          contains (env.guid w.guids_used) (ids (map_last (λ _. back') w.elements)) ≡ false
      fresh_after =
          subst (λ es. contains (env.guid w.guids_used) (ids es) ≡ false)
            (map_last_lem w.elements back') (rw (ids-set w.elements i back' back at refl) fresh_id)

      sent : Writer E
      sent = sent_with env rely linked e (map_last (λ _. back') w.elements ++ e ∷ [])
