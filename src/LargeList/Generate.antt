-- ===== src/LargeList/Generate.antt =====
-- What `generateList` returns, and the cache of LargeList.h.
use umaa_cpp.Base.{
  suc, ◌≡◌, ◌≢◌, ◌↔◌, refl, sym, ◌∙◌, ap, Option, none, some, List, [], ◌∷◌, map, length, arith,
  inr,
}
use umaa_cpp.Base.Table.{NoRepeat, unvisited-nil}
use umaa_cpp.Time.{DateTime}
use umaa_cpp.LargeList.{
  ListElement, LargeList, LargeListResult, valid_list, done, unfinished, walk_all, generate_list,
}
use umaa_cpp.LargeList.Loop.{Linked, path, walk_ends, walk_sound, walk_complete, Avoids-nil}
use umaa_cpp.LargeList.{LargeListMetadata, get_list, receive_element, receive_metadata, dispose}

abbrev pub valid : {E : Type 0} → List E → LargeListResult E
valid xs = record { status = valid_list; list = some xs }

module _ {E : Type 0} (l : LargeList E) where
  open l use {element_table as table}
  open l use {latest_metadata as metadata}

  abbrev limit : Option DateTime
  limit = metadata.update_element_timestamp

  -- The list that the links spell from the metadata's starting id: each element stored under its
  -- id and not newer than the metadata, no id met twice, the last link empty or NIL_GUID.
  abbrev pub Spells : List E → Type 0
  Spells xs =
      (es : List (ListElement E)) × Linked table limit metadata.starting_element_id es
      × NoRepeat (path table limit metadata.starting_element_id es)
      × (xs ≡ map (λ e. e.element) es)

  -- The loop always ends by itself: the size of the table and one are fuel enough.
  pub walk_all_ends : walk_all l ≢ unfinished
  unfolding walk_all
  walk_all_ends =
      walk_ends table limit (suc (length table)) [] metadata.starting_element_id []
        (omega (arith, unvisited-nil table)) (inr refl)

  walk_all-Spells : (xs : List E) → (walk_all l ≡ done xs) ↔ Spells xs
  unfolding walk_all
  walk_all-Spells xs = (
    λ h.
        let (es, linked, e, nr, _) =
          walk_sound table limit (suc (length table)) [] metadata.starting_element_id [] xs h
            (inr refl) in
        (es, linked, nr, e),
    λ (es, linked, nr, e).
        walk_complete table limit linked (suc (length table)) [] [] refl nr
          (Avoids-nil table limit (path table limit metadata.starting_element_id es)) walk_all_ends
        ∙ ap done (sym e),
  )

  generate_done :
      (xs : List E)
      → ((generate_list l).0 ≡ valid xs)
        ↔ ((metadata.size ≢ 0) × (length xs ≡ metadata.size) × (walk_all l ≡ done xs))
  unfolding generate_list
  generate_done xs = (λ h. ground arith, λ h. ground arith)

  -- The result is VALID_LIST with the list `xs` exactly when the metadata states a size other
  -- than 0, `xs` has that size and the links spell `xs`.
  pub generate_list-Spells :
      (xs : List E)
      → ((generate_list l).0 ≡ valid xs)
        ↔ ((metadata.size ≢ 0) × (length xs ≡ metadata.size) × Spells xs)
  generate_list-Spells xs = (
    λ h. let (nz, size, w) = (generate_done xs).0 h in (nz, size, (walk_all-Spells xs).0 w),
    λ (nz, size, spells). (generate_done xs).1 (nz, size, (walk_all-Spells xs).1 spells),
  )

-- A cached list has the size that the metadata states, which is not 0.
abbrev pub IsValid : {E : Type 0} → LargeList E → Type 0
IsValid l = elim l.cached_list [
  | none ↦ Unit
  | some list ↦ (length list ≡ l.latest_metadata.size) × (l.latest_metadata.size ≢ 0)
]

generate_list-IsValid :
    {E : Type 0} (l : LargeList E) → l.cached_list ≡ none → IsValid (generate_list l).1
unfolding generate_list
generate_list-IsValid l h = ground arith

-- Every operation keeps it, in a list made from an id or from metadata: the cache is never of a
-- size that the latest metadata contradicts.
operations-IsValid :
    {E : Type 0} (l : LargeList E) (e : ListElement E) (m : LargeListMetadata)
    → IsValid l
    → IsValid (get_list l).1
      × IsValid (receive_element l e).1
      × IsValid (receive_metadata l m).1
      × IsValid (dispose l e).1
unfolding get_list receive_element receive_metadata dispose
operations-IsValid l e m v = (
  ground (arith, generate_list-IsValid l),
  ground arith,
  ground (arith, generate_list-IsValid (record l { latest_metadata = m; cached_list = none })),
  ground arith,
)

-- An element message.
pub data Sample (E : Type 0) : Type 0 where
  alive disposed : ListElement E → Sample E

module _ {E : Type 0} where
  unfoldable pub accept : LargeList E → Sample E → LargeList E
  unfolding receive_element dispose
  accept l (alive e) = (receive_element l e).1
  accept l (disposed e) = (dispose l e).1

  unfoldable pub accept_all : LargeList E → List (Sample E) → LargeList E
  accept_all l [] = l
  accept_all l (s ∷ ss) = accept_all (accept l s) ss

  cached-accept : (l : LargeList E) (s : Sample E) → (accept l s).cached_list ≡ l.cached_list
  unfolding accept
  cached-accept l (alive e) = ground arith
  cached-accept l (disposed e) = ground arith

  cached-accept_all :
      (l : LargeList E) (ss : List (Sample E)) → (accept_all l ss).cached_list ≡ l.cached_list
  unfolding accept_all
  cached-accept_all l [] = refl
  cached-accept_all l (s ∷ ss) = cached-accept_all (accept l s) ss ∙ cached-accept l s

  -- Once metadata has produced the list `xs`, `getList` goes on to return `xs` through any element
  -- messages, until metadata is received again.
  pub get_list_stable :
      (l : LargeList E) (m : LargeListMetadata) (xs : List E) (ss : List (Sample E))
      → (receive_metadata l m).0 ≡ valid xs
      → (get_list (accept_all (receive_metadata l m).1 ss)).0 ≡ valid xs
  unfolding get_list receive_metadata generate_list
  get_list_stable l m xs ss h = ground (arith, cached-accept_all (receive_metadata l m).1 ss)
