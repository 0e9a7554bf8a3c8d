-- ===== src/LargeList/Writer/Refinement.antt =====
-- The writer and its reader refine a list.
use umaa_cpp.Base.{◌≡◌, refl, ◌∙◌, ap, List, [], ◌∷◌}
use umaa_cpp.LargeList.{ListElement, receive_metadata}
use umaa_cpp.LargeList.Writer.{Env, Writer, new_writer}
use umaa_cpp.LargeList.Writer.Store.{reader}
use umaa_cpp.LargeList.Writer.Stores.{IsReliable}
use umaa_cpp.LargeList.Writer.Sync.{Synced, view, round_trip}
use umaa_cpp.LargeList.Writer.Sound.{values}
use umaa_cpp.LargeList.Writer.History.{
  Call, spec, spec_all, report, perform, perform_all, perform-Becomes,
}

view-report : {E : Type 0} (es : List (ListElement E)) → view es ≡ report (values es)
view-report [] = refl
view-report (e ∷ es) = refl

module _ {E : Type 0} (env : Env) (rely : IsReliable env) where
  new_writer-Synced : Synced {E = E} env rely (new_writer env)
  unfolding new_writer
  new_writer-Synced = record {
    stores = record { stored = tt; unique = tt };
    links = tt;
    timely = tt;
    owner = refl;
    size = refl;
    starting = refl;
  }

  perform_all-Synced :
      (cs : List (Call E)) (w : Writer E) (xs : List E)
      → values w.elements ≡ xs
      → Synced env rely w
      → Synced env rely (perform_all env w cs)
        × (values (perform_all env w cs).elements ≡ spec_all cs xs)
  perform_all-Synced [] w xs h s = (s, h)
  perform_all-Synced (c ∷ cs) w xs h s =
      let (s', _, e) = perform-Becomes env rely c w s in
      perform_all-Synced cs (perform env w c) (spec c xs) (e ∙ ap (spec c) h) s'

  -- Take any sequence of single and multiple prepends, single appends, updates, `popFront` and
  -- `clear`, some of which may return ERROR, on a new writer that draws new GUIDs, reads a clock
  -- that does not go back and sends every message. The writer's own list is the one that the calls
  -- spell, and a reader that takes the element messages in order and then the metadata reports that
  -- list, in order: EMPTY_LIST if it is empty and VALID_LIST otherwise.
  pub reader_follows_writer :
      (cs : List (Call E))
      → let w = perform_all env (new_writer env) cs in
        (values w.elements ≡ spec_all cs [])
        × ((receive_metadata (reader w.list_id w.bus) w.metadata).0 ≡ report (spec_all cs []))
  reader_follows_writer cs =
      let (s, e) =
        perform_all-Synced cs (new_writer env) [] (unfold new_writer in refl) new_writer-Synced in
      (
        e,
        round_trip env rely (perform_all env (new_writer env) cs) s
            ∙ view-report (perform_all env (new_writer env) cs).elements
            ∙ ap report e,
      )
