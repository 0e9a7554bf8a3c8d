-- ===== src/LargeSet/Writer/Sync.antt =====
-- A reader that has taken every message of a set's writer holds the writer's elements, after each
-- change that the calls make.
use umaa_cpp.Base.{ℕ, suc, ◌<◌, ◌≤◌, ◌≡◌, refl, ◌∙◌, false, some, List, [], ◌∷◌, ◌++◌, arith, All}
use umaa_cpp.Base.Table.{contains, NoRepeat}
use umaa_cpp.Base.Sets.{Equality, has, Distinct, Distinct-snoc, Distinct-remove}
use umaa_cpp.LargeList.Writer.{Env}
use umaa_cpp.LargeList.Writer.Stores.{IsReliable}
use umaa_cpp.LargeSet.{SetElement}
use umaa_cpp.LargeSet.Generate.{Sample, alive, disposed}
use umaa_cpp.LargeSet.Writer.Ids.{ids, find_id}
use umaa_cpp.LargeSet.Writer.{find}
use umaa_cpp.LargeSet.Writer.Elements.{
  values, by_value, without, NoRepeat-snoc, find_id-snoc, All-snoc, values-snoc, found-All,
  values-without, All-without, NoRepeat-without, find_id-without, id_without,
}
use umaa_cpp.LargeSet.Writer.Received.{held, held-alive, held-disposed}

-- An element with a GUID from the first `g` and a time stamp from the first `s`.
pub record Made {E : Type 0} (env : Env) (id g s : ℕ) (e : SetElement E) : Type 0 where
  pub owner : e.set_id ≡ id
  pub origin : (i : ℕ) × (i < g) × (e.element_id ≡ env.guid i)
  pub moment : (k : ℕ) × (k < s) × (e.element_timestamp ≡ env.clock k)

module _ {E : Type 0} (q : Equality E) (env : Env) where
  -- The elements `es` have different ids, and the reader holds them alone.
  pub record Kept (id : ℕ) (bus : List (Sample E)) (g s : ℕ) (es : List (SetElement E))
      : Type 0 where
    pub unique : NoRepeat (ids es)
    pub made : All (Made env id g s) es
    pub known : (k : ℕ) → held id bus k ≡ find_id k es

  -- Their values are different as well.
  pub record Held (id : ℕ) (bus : List (Sample E)) (g s : ℕ) (es : List (SetElement E))
      : Type 0 where
    pub different : Distinct q (values es)
    pub kept : Kept id bus g s es

module _ {E : Type 0} (q : Equality E) (env : Env) (rely : IsReliable env) where
  pub Made-mono :
      (id g h s t : ℕ) (es : List (SetElement E))
      → g ≤ h
      → s ≤ t
      → All (Made env id g s) es
      → All (Made env id h t) es
  Made-mono id g h s t [] p r a = tt
  Made-mono id g h s t (e ∷ es) p r (a, rest) =
      let (i, il, ie) = a.origin in
      let (k, kl, ke) = a.moment in
      (
        record { owner = a.owner; origin = (i, omega arith, ie); moment = (k, omega arith, ke) },
        Made-mono id g h s t es p r rest,
      )

  fresh_id :
      (id g s : ℕ) (es : List (SetElement E))
      → All (Made env id g s) es
      → contains (env.guid g) (ids es) ≡ false
  fresh_id id g s [] a = refl
  fresh_id id g s (e ∷ es) (a, rest) =
      let (i, l, o) = a.origin in ground (arith, rely.distinct i g l, o, fresh_id id g s es rest)

  -- A new element at the end, announced to the reader.
  pub Held-insert :
      (id : ℕ) (bus : List (Sample E)) (g s : ℕ) (es : List (SetElement E)) (e : SetElement E)
      → e.set_id ≡ id
      → e.element_id ≡ env.guid g
      → e.element_timestamp ≡ env.clock s
      → has q e.element (values es) ≡ false
      → Held q env id bus g s es
      → Held q env id (alive e ∷ bus) (suc g) (suc s) (es ++ e ∷ [])
  Held-insert id bus g s es e o i t new h =
      let fresh : contains e.element_id (ids es) ≡ false = rw i (fresh_id id g s es h.kept.made) in
      record {
        different = rw (values-snoc e es) (Distinct-snoc q e.element (values es) new h.different);
        kept = record {
          unique = NoRepeat-snoc e es fresh h.kept.unique;
          made =
              All-snoc (Made env id (suc g) (suc s)) e es
                (record { owner = o; origin = (g, omega arith, i); moment = (s, omega arith, t) })
                (Made-mono id g (suc g) s (suc s) es (omega arith) (omega arith) h.kept.made);
          known = λ k.
              held-alive id k e bus o ∙ ground (arith, h.kept.known k, find_id-snoc k e es fresh);
        };
      }

  -- An element with the id of an old one in its place.
  pub Kept-update :
      (id : ℕ) (bus : List (Sample E)) (g s : ℕ) (es : List (SetElement E)) (prev : E)
      (old e : SetElement E)
      → find q prev (by_value es) ≡ some old
      → e.set_id ≡ old.set_id
      → e.element_id ≡ old.element_id
      → e.element_timestamp ≡ env.clock s
      → Held q env id bus g s es
      → Kept q env id (alive e ∷ bus) g (suc s) (without q prev es ++ e ∷ [])
  Kept-update id bus g s es prev old e found o i t h =
      let fs = without q prev es in
      let m = found-All q (Made env id g s) prev es old found h.kept.made in
      let fresh : contains e.element_id (ids fs) ≡ false =
        rw i (id_without q prev es old h.different h.kept.unique found) in
      record {
        unique = NoRepeat-snoc e fs fresh (NoRepeat-without q prev es h.kept.unique);
        made =
            All-snoc (Made env id g (suc s)) e fs
              (record {
                owner = o ∙ m.owner;
                origin = (m.origin.0, m.origin.1, i ∙ m.origin.2);
                moment = (s, omega arith, t);
              })
              (Made-mono id g g s (suc s) fs (omega arith) (omega arith)
                (All-without q (Made env id g s) prev es h.kept.made));
        known = λ k.
            held-alive id k e bus (o ∙ m.owner)
            ∙ ground (
              arith,
              h.kept.known k,
              find_id-snoc k e fs fresh,
              find_id-without q k prev es old h.different h.kept.unique found,
            );
      }

  pub Held-update :
      (id : ℕ) (bus : List (Sample E)) (g s : ℕ) (es : List (SetElement E)) (prev : E)
      (old e : SetElement E)
      → find q prev (by_value es) ≡ some old
      → e.set_id ≡ old.set_id
      → e.element_id ≡ old.element_id
      → e.element_timestamp ≡ env.clock s
      → has q e.element (values (without q prev es)) ≡ false
      → Held q env id bus g s es
      → Held q env id (alive e ∷ bus) g (suc s) (without q prev es ++ e ∷ [])
  Held-update id bus g s es prev old e found o i t new h =
      let fs = without q prev es in
      record {
        different = rw (values-snoc e fs) (
            Distinct-snoc q e.element (values fs) new
              (rw (values-without q prev es) (Distinct-remove q prev (values es) h.different)));
        kept = Kept-update id bus g s es prev old e found o i t h;
      }

  -- An element taken away, with its disposal.
  pub Held-remove :
      (id : ℕ) (bus : List (Sample E)) (g s : ℕ) (es : List (SetElement E)) (v : E)
      (old : SetElement E)
      → find q v (by_value es) ≡ some old
      → Held q env id bus g s es
      → Held q env id (disposed old ∷ bus) g s (without q v es)
  Held-remove id bus g s es v old found h =
      let m = found-All q (Made env id g s) v es old found h.kept.made in
      record {
        different = rw (values-without q v es) (Distinct-remove q v (values es) h.different);
        kept = record {
          unique = NoRepeat-without q v es h.kept.unique;
          made = All-without q (Made env id g s) v es h.kept.made;
          known = λ k.
              held-disposed id k old bus m.owner
              ∙ ground (
                arith,
                h.kept.known k,
                find_id-without q k v es old h.different h.kept.unique found,
              );
        };
      }
