-- ===== src/LargeList/Writer/Sound.antt =====
-- The writer's calls that keep it synchronised, and the lists that they leave.
use umaa_cpp.Base.{
  All-get_elem?, ℕ, zero, suc, ◌≡◌, refl, sym, ◌∙◌, ap, true, false, some, List, [], ◌∷◌, map,
  get_elem?, set, arith, subst,
}
use umaa_cpp.LargeList.{ListElement}
use umaa_cpp.LargeList.Generate.{disposed}
use umaa_cpp.LargeList.Writer.{Env, Writer, M, ok, head_id, described}
use umaa_cpp.LargeList.Writer.Add.{update, prepend}
use umaa_cpp.LargeList.Writer.Remove.{pop_front}
use umaa_cpp.LargeList.Writer.Stores.{IsReliable, Stored, Stored-fresh}
use umaa_cpp.LargeList.Writer.Steps.{sent_with, Stores-front, Stores-set, Stores-rest, Stores-guid}
use umaa_cpp.LargeList.Writer.Sync.{Synced, Links, described-Synced, disposed-Synced}

abbrev pub values : {E : Type 0} → List (ListElement E) → List E
values = map (λ e. e.element)

module _ {E : Type 0} (env : Env) (rely : IsReliable env) where
  -- The call succeeds, keeps the writer synchronised under its id, and leaves the values `xs`.
  pub record Leaves (m : M E (Unit {0})) (w : Writer E) (xs : List E) : Type 0 where
    pub after : Writer E
    pub runs : m w ≡ ok tt after
    pub synced : Synced env rely after
    pub same_id : after.list_id ≡ w.list_id
    pub left : values after.elements ≡ xs

  pub prepend-Leaves :
      (w : Writer E) (v : E) → Synced env rely w → Leaves (prepend env v) w (v ∷ values w.elements)
  prepend-Leaves w v s = record {
    after = described e false sent;
    runs = unfold prepend in ground (arith, rely.sent w.sends);
    synced =
        described-Synced env rely sent e w.stamps_used
          (Stores-front env rely drawn e (Stores-guid env rely w s.stores)
            ((w.guids_used, omega arith, refl), refl, refl)
            (Stored-fresh env rely w.list_id w.bus w.guids_used w.stamps_used w.guids_used
              w.elements (omega arith) s.stores.stored))
          (refl, s.links) s.owner refl (omega arith);
    same_id = refl;
    left = refl;
  }
    where
      drawn : Writer E
      drawn = record w { guids_used = suc w.guids_used }

      e : ListElement E
      e = record {
        list_id = w.list_id;
        element_id = env.guid w.guids_used;
        element = v;
        next_element_id = head_id w.elements;
        element_timestamp = env.clock w.stamps_used;
      }

      sent : Writer E
      sent = sent_with env rely drawn e (e ∷ w.elements)

  pub pop_front-Leaves :
      (w : Writer E) (e : ListElement E) (rest : List (ListElement E))
      → w.elements ≡ e ∷ rest
      → Synced env rely w
      → Leaves (pop_front env) w (values rest)
  pop_front-Leaves w e rest h s = record {
    after = described e true sent;
    runs = unfold pop_front in ground (arith, rely.sent w.sends);
    synced =
        disposed-Synced env rely sent e (Stores-rest env rely w e rest h s.stores)
          (subst Links h s.links).1 s.owner;
    same_id = refl;
    left = refl;
  }
    where
      sent : Writer E
      sent = record w { elements = rest; sends = suc w.sends; bus = disposed e ∷ w.bus }

  Links-set :
      (es : List (ListElement E)) (i : ℕ) (e old : ListElement E)
      → get_elem? es i ≡ some old
      → e.element_id ≡ old.element_id
      → e.next_element_id ≡ old.next_element_id
      → Links es
      → Links (set es i e) × (head_id (set es i e) ≡ head_id es)
  Links-set [] i e old g p q l = cc
  Links-set (x ∷ xs) zero e old g p q (l, ls) = ((ground arith, ls), ground arith)
  Links-set (x ∷ xs) (suc i) e old g p q (l, ls) =
      let (k, h) = Links-set xs i e old g p q ls in ((l ∙ sym h, k), refl)

  values-set :
      (es : List (ListElement E)) (i : ℕ) (e : ListElement E)
      → values (set es i e) ≡ set (values es) i e.element
  values-set [] i e = refl
  values-set (x ∷ xs) zero e = refl
  values-set (x ∷ xs) (suc i) e = ap (◌∷◌ x.element) (values-set xs i e)

  pub update-Leaves :
      (w : Writer E) (v : E) (pos : ℕ) (old : ListElement E)
      → get_elem? w.elements pos ≡ some old
      → Synced env rely w
      → Leaves (update env v pos) w (set (values w.elements) pos v)
  update-Leaves w v pos old h s = record {
    after = described e false sent;
    runs = unfold update in ground (arith, rely.sent w.sends);
    synced =
        described-Synced env rely sent e w.stamps_used
          (Stores-set env rely w pos e old s.stores h refl (kept.origin, refl, kept.owner))
          (Links-set w.elements pos e old h refl refl s.links).0 s.owner refl (omega arith);
    same_id = refl;
    left = values-set w.elements pos e;
  }
    where
      e : ListElement E
      e = record old { element = v; element_timestamp = env.clock w.stamps_used }

      sent : Writer E
      sent = sent_with env rely w e (set w.elements pos e)

      kept : Stored env rely w.list_id w.bus w.guids_used w.stamps_used old
      kept =
          All-get_elem? (Stored env rely w.list_id w.bus w.guids_used w.stamps_used) w.elements pos
            old h s.stores.stored
