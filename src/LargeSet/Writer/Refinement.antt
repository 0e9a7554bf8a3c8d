-- ===== src/LargeSet/Writer/Refinement.antt =====
-- Writer and reader of a large set meet.
use umaa_cpp.Base.{
  ℕ, suc, ◌≡◌, refl, sym, ◌∙◌, ap, subst, Bool, true, false, ◌||◌, Option, none, List, [], ◌∷◌,
  arith, ◌==◌, if◌then◌else◌, length, reverse,
}
use umaa_cpp.Base.Sets.{Equality, has, SameMembers}
use umaa_cpp.Time.{DateTime}
use umaa_cpp.LargeList.{is_late}
use umaa_cpp.LargeList.Writer.{Env}
use umaa_cpp.LargeList.Writer.Stores.{IsReliable}
use umaa_cpp.LargeSet.{
  LargeSet, LargeSetResult, SetElement, new_by_id, receive_metadata, generate_set, empty_set,
  valid_set,
}
use umaa_cpp.LargeSet.Generate.{accept_all, any_late, Holds, status_of, generate_set_report, Sample}
use umaa_cpp.LargeSet.Generate as G
use umaa_cpp.LargeSet.Writer.{Writer}
use umaa_cpp.LargeSet.Writer.Batch.{new_with}
use umaa_cpp.LargeSet.Writer.Ids.{any, any_by_ids, entries, Ordered-NoRepeat}
use umaa_cpp.LargeSet.Writer.Elements.{values}
use umaa_cpp.LargeSet.Writer.Received.{received, received-Ordered, reader_lem}
use umaa_cpp.LargeSet.Writer.Sync.{Kept}
use umaa_cpp.LargeSet.Writer.Steps.{Sync}
use umaa_cpp.LargeSet.Writer.History.{
  Call, spec_all, add_each, are_plain, perform_all, history-Spelled,
}

module _ {E : Type 0} where
  -- What a reader that has taken every message of a writer makes of its metadata.
  abbrev pub read_back : Equality E → Writer E → LargeSetResult E
  read_back q w =
      (receive_metadata q (accept_all (new_by_id w.set_id) (reverse w.bus)) w.metadata).0

  any_late-entries :
      (limit : Option DateTime) (table : List (ℕ × SetElement E))
      → any_late limit table ≡ any (λ e. is_late limit e.element_timestamp) (entries table)
  any_late-entries limit [] = refl
  any_late-entries limit ((k, e) ∷ table) =
      ap (λ b. is_late limit e.element_timestamp || b) (any_late-entries limit table)

  pub length-values : (es : List (SetElement E)) → length (values es) ≡ length es
  length-values [] = refl
  length-values (e ∷ es) = ap suc (length-values es)

  module _ (q : Equality E) where
    has-values :
        (x : E) (es : List (SetElement E)) → has q x (values es) ≡ any (λ e. q.same e.element x) es
    has-values x [] = refl
    has-values x (e ∷ es) = ap (λ b. q.same e.element x || b) (has-values x es)

    has-entries :
        (x : E) (table : List (ℕ × SetElement E))
        → has q x (G.values table) ≡ any (λ e. q.same e.element x) (entries table)
    has-entries x [] = refl
    has-entries x ((k, e) ∷ table) = ap (λ b. q.same e.element x || b) (has-entries x table)

-- The reader's set, with the metadata of the writer.
abbrev pub informed : {E : Type 0} → Writer E → LargeSet E
informed w = record {
  set_id = w.set_id;
  latest_metadata = w.metadata;
  element_table = received w.set_id w.bus;
  cached_set = none;
}

module _ {E : Type 0} (q : Equality E) (env : Env) where
  pub read_back_lem :
      (w : Writer E)
      → w.metadata.set_id ≡ w.set_id
      → read_back q w ≡ (generate_set q (informed w)).0
  unfolding receive_metadata new_by_id
  read_back_lem w m =
      ap (λ l. (receive_metadata q l w.metadata).0) (reader_lem w.set_id w.bus) ∙ ground (arith, m)

  -- The elements that the reader holds are those of the writer.
  pub same_any :
      (w : Writer E) (p : SetElement E → Bool)
      → Kept q env w.set_id w.bus w.guids_used w.stamps_used w.elements
      → any p (entries (received w.set_id w.bus)) ≡ any p w.elements
  same_any w p k =
      any_by_ids p (entries (received w.set_id w.bus)) w.elements
        (Ordered-NoRepeat (received w.set_id w.bus) (received-Ordered w.set_id w.bus)) k.unique
        k.known

  -- The reader's elements and their time stamps are those of the writer.
  pub members_lem :
      (w : Writer E) (x : E)
      → Kept q env w.set_id w.bus w.guids_used w.stamps_used w.elements
      → has q x (G.values (received w.set_id w.bus)) ≡ has q x (values w.elements)
  members_lem w x k =
      has-entries q x (received w.set_id w.bus)
      ∙ same_any w (λ e. q.same e.element x) k
      ∙ sym (has-values q x w.elements)

  pub late_lem :
      (w : Writer E) (limit : Option DateTime)
      → Kept q env w.set_id w.bus w.guids_used w.stamps_used w.elements
      → any_late limit (received w.set_id w.bus)
        ≡ any (λ e. is_late limit e.element_timestamp) w.elements
  late_lem w limit k =
      any_late-entries limit (received w.set_id w.bus)
      ∙ same_any w (λ e. is_late limit e.element_timestamp) k

  Sync-read_back :
      (w : Writer E)
      → Sync q env w
      → ((read_back q w).status
          ≡ (if length (values w.elements) == 0 then empty_set else valid_set))
        × Holds q (values w.elements) (read_back q w)
  Sync-read_back w y =
      let table = received w.set_id w.bus in
      let limit = w.metadata.update_element_timestamp in
      let members : SameMembers q (values w.elements) (G.values table) =
        λ x. sym (members_lem w x y.held.kept) in
      let on_time : any_late limit table ≡ false = late_lem w limit y.held.kept ∙ y.meta_time in
      let (status, holds) =
        generate_set_report q (informed w) (values w.elements) y.held.different members in
      rw (read_back_lem w y.meta_id)
        (status ∙ ground (arith, on_time, y.meta_size, length-values w.elements), holds)

  -- A new writer of the values `start` that draws new GUIDs, reads a clock that does not go back and
  -- sends every message takes any sequence of single and multiple insertions with ids of its own,
  -- updates, removals by value and `clear`, in which no update moves a value onto another one that is
  -- there. Its elements are then the set that the calls spell. A reader that has taken its messages
  -- in order and then its metadata reports EMPTY_SET if that set is empty, and otherwise VALID_SET
  -- with just its members, each once.
  pub set_reader_follows_writer :
      (rely : IsReliable env) (start : List E) (cs : List (Call E))
      → are_plain q cs (add_each q start []) ≡ true
      → SameMembers q
          (values (perform_all q env cs (new_with q env start)).elements)
          (spec_all q cs (add_each q start []))
        × ((read_back q (perform_all q env cs (new_with q env start))).status
            ≡ (if length (spec_all q cs (add_each q start [])) == 0 then empty_set else valid_set))
        × Holds q
            (spec_all q cs (add_each q start []))
            (read_back q (perform_all q env cs (new_with q env start)))
  set_reader_follows_writer rely start cs plain =
      let (y, same) = history-Spelled q env rely start cs plain in
      let w = perform_all q env cs (new_with q env start) in
      let (status, holds) = Sync-read_back w y in
      (
        λ x. ap (has q x) same,
        subst (λ vs. (read_back q w).status ≡ (if length vs == 0 then empty_set else valid_set))
            same status,
        subst (λ vs. Holds q vs (read_back q w)) same holds,
      )
