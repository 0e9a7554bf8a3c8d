-- ===== src/LargeList/Writer/Delivery.antt =====
-- The writer's messages among those of other lists, taken by umaa/LargeListReader.h.
use umaa_cpp.Base.{ℕ, ◌≡◌, sym, ◌∙◌, ap, subst, none, List, [], reverse, arith}
use umaa_cpp.Base.Table.{lookup}
use umaa_cpp.LargeList.{LargeList, new_by_id, receive_metadata}
use umaa_cpp.LargeList.Generate.{accept_all}
use umaa_cpp.LargeList.Reader.{Envelope, fetch, process_all}
use umaa_cpp.LargeList.Reader.Updates.{own, lists_do_not_interfere}
use umaa_cpp.LargeList.Writer.{Env, Writer, new_writer}
use umaa_cpp.LargeList.Writer.Store.{reader}
use umaa_cpp.LargeList.Writer.Stores.{IsReliable}
use umaa_cpp.LargeList.Writer.History.{Call, spec_all, report, perform_all}
use umaa_cpp.LargeList.Writer.Refinement.{reader_follows_writer}

module _ {E : Type 0} (env : Env) (rely : IsReliable env) where
  -- A new writer that draws new GUIDs, reads a clock that does not go back and sends every message
  -- takes any sequence of prepends, single appends, updates, `popFront` and `clear`. A reader of the
  -- topic that does not know the list takes samples of any lists, invalid ones included, among which
  -- those of this list are the writer's messages in their order. The list that it then keeps reports,
  -- at the writer's metadata, the list that the calls spell.
  pub delivery :
      (cs : List (Call E)) (w : Writer E) (xs : List (Envelope E)) (table : List (ℕ × LargeList E))
      → w ≡ perform_all env (new_writer env) cs
      → lookup w.list_id table ≡ none
      → own w.list_id xs ≡ reverse w.bus
      → (receive_metadata (fetch w.list_id (process_all xs table)) w.metadata).0
        ≡ report (spec_all cs [])
  unfolding reader
  delivery cs w xs table same unknown messages =
      let id = w.list_id in
      let empty : fetch id table ≡ new_by_id id = ground (arith, unknown) in
      let kept : fetch id (process_all xs table) ≡ reader id w.bus =
        lists_do_not_interfere id xs table
        ∙ ap (accept_all (fetch id table)) messages
        ∙ ap (λ l. accept_all l (reverse w.bus)) empty in
      ap (λ l. (receive_metadata l w.metadata).0) kept
      ∙ subst
          (λ (v : Writer E).
            (receive_metadata (reader v.list_id v.bus) v.metadata).0 ≡ report (spec_all cs []))
          (sym same) (reader_follows_writer env rely cs).1
