-- ===== src/Provider/Sweep.antt =====
-- What the loop of `cycle` over the active sessions and the erasure of the final ones leave.
use umaa_cpp.Base.{
  ltb, ℕ, ◌≡◌, ◌∙◌, subst, Bool, true, false, none, some, List, [], ◌∷◌, ◌==◌, not, ◌||◌, All,
  if◌then◌else◌, arith, Option-cases, Bool-cases, inl, inr,
}
use umaa_cpp.Base.Table.{contains, lookup, insert, erase}
use umaa_cpp.Provider.{Session, World, Env, destroy}
use umaa_cpp.Provider.Cycle.{Sweep, cycle_all, erase_all, max_rounds}
use umaa_cpp.Provider.Sessions.{is_listed}
use umaa_cpp.Provider.Rounds.{rounds_settle, session_rounds}

module _ {A : Type 0} where
  -- Every session stands under its own id.
  abbrev pub Keyed : List (ℕ × Session A) → Type 0
  Keyed = All (λ e. e.1.id ≡ e.0)

  -- Every session in a final state stands under one of the ids.
  abbrev pub Listed : List ℕ → List (ℕ × Session A) → Type 0
  Listed ids = All (λ e. is_listed e.0 e.1 ids ≡ true)

  Listed-mono :
      (ids js : List ℕ) (ss : List (ℕ × Session A))
      → ((k : ℕ) → (not (contains k ids) || contains k js) ≡ true)
      → Listed ids ss
      → Listed js ss
  Listed-mono ids js [] kept l = tt
  Listed-mono ids js ((id, s) ∷ ss) kept (l, ls) =
      (ground (arith, l, kept id), Listed-mono ids js ss kept ls)

  All-if :
      (P : ℕ × Session A → Type 0) (b : Bool) (xs ys : List (ℕ × Session A))
      → All P xs
      → All P ys
      → All P (if b then xs else ys)
  All-if P true xs ys a c = a
  All-if P false xs ys a c = c

  pub insert-All :
      (P : ℕ × Session A → Type 0) (k : ℕ) (s : Session A) (ss : List (ℕ × Session A))
      → P (k, s)
      → All P ss
      → All P (insert k s ss)
  insert-All P k s [] p a = (p, tt)
  insert-All P k s ((j, v) ∷ ss) p (q, a) =
      All-if P (j == k) _ _ (p, a) (All-if P (ltb k j) _ _ (p, (q, a)) (q, insert-All P k s ss p a))

  pub erase-All :
      (P : ℕ × Session A → Type 0) (k : ℕ) (ss : List (ℕ × Session A))
      → All P ss
      → All P (erase k ss)
  erase-All P k [] a = tt
  erase-All P k ((j, v) ∷ ss) (q, a) =
      All-if P (j == k) _ _ (erase-All P k ss a) (q, erase-All P k ss a)

  pub lookup-All :
      (P : ℕ × Session A → Type 0) (k : ℕ) (s : Session A) (ss : List (ℕ × Session A))
      → lookup k ss ≡ some s
      → All P ss
      → P (k, s)
  lookup-All P k s [] h a = absurd (cc)
  lookup-All P k s ((j, v) ∷ ss) h (q, a) = elim (Bool-cases (j == k)) [
    | inl e ↦
        let same : j ≡ k = ground (arith, e) in
        let found : v ≡ s = ground (arith, e, h) in
        subst (λ i. P (i, s)) same (subst (λ u. P (j, u)) found q)
    | inr e ↦ lookup-All P k s ss (ground (arith, e, h)) a
  ]

  -- An id less: the sessions that stand under it are gone.
  Listed-erase :
      (id : ℕ) (ids : List ℕ) (ss : List (ℕ × Session A))
      → Listed (id ∷ ids) ss
      → Listed ids (erase id ss)
  Listed-erase id ids [] l = tt
  Listed-erase id ids ((j, s) ∷ ss) (l, ls) = elim (Bool-cases (j == id)) [
    | inl h ↦ rw h (Listed-erase id ids ss ls)
    | inr h ↦ rw h (ground (arith, l, h), Listed-erase id ids ss ls)
  ]

  Listed-absent :
      (id : ℕ) (ids : List ℕ) (ss : List (ℕ × Session A))
      → lookup id ss ≡ none
      → Listed (id ∷ ids) ss
      → Listed ids ss
  Listed-absent id ids [] h l = tt
  Listed-absent id ids ((j, s) ∷ ss) h (l, ls) =
      (ground (arith, h, l), Listed-absent id ids ss (ground (arith, h)) ls)

module _ {A : Type 0} (env : Env A) where
  pub erase_all-Listed :
      (ids : List ℕ) (ss : List (ℕ × Session A)) (w : World A)
      → Listed ids ss
      → Listed [] (erase_all env ids ss w).0
  unfolding erase_all
  erase_all-Listed [] ss w l = l
  erase_all-Listed (id ∷ ids) ss w l = elim (Option-cases (lookup id ss)) [
    | inl h ↦ rw (h, erase_all) (erase_all-Listed ids ss w (Listed-absent id ids ss h l))
    | inr (s, h) ↦
        rw (h, erase_all)
          (erase_all-Listed ids (erase id ss) (destroy env s w) (Listed-erase id ids ss l))
  ]

  pub erase_all-Keyed :
      (ids : List ℕ) (ss : List (ℕ × Session A)) (w : World A)
      → Keyed ss
      → Keyed (erase_all env ids ss w).0
  unfolding erase_all
  erase_all-Keyed [] ss w l = l
  erase_all-Keyed (id ∷ ids) ss w l = elim (Option-cases (lookup id ss)) [
    | inl h ↦ rw (h, erase_all) (erase_all-Keyed ids ss w l)
    | inr (s, h) ↦
        rw (h, erase_all)
          (erase_all-Keyed ids (erase id ss) (destroy env s w) (erase-All _ id ss l))
  ]

  -- What the sweep over `ss` leaves.
  pub record Swept (ss : List (ℕ × Session A)) (finals : List ℕ) (sweep : Sweep A) : Type 0 where
    pub keyed : Keyed sweep.sessions
    pub listed : sweep.result ≡ true → Listed sweep.finals sweep.sessions
    pub kept : (k : ℕ) → (not (contains k finals) || contains k sweep.finals) ≡ true

  pub cycle_all-Swept :
      (ss : List (ℕ × Session A)) (finals : List ℕ) (w : World A)
      → Keyed ss
      → Swept ss finals (cycle_all env ss finals w)
  unfolding cycle_all
  cycle_all-Swept [] finals w k = record { keyed = tt; listed = λ h. tt; kept = λ i. ground arith }
  cycle_all-Swept ((id, s) ∷ ss) finals w (same, ks) =
      let (t, finals', h, _, _) = session_rounds env finals s w in
      let settles = rounds_settle env max_rounds finals s w t finals' h in
      let rest = cycle_all-Swept ss finals' t.world ks in
      rw (h, cycle_all)
        (elim (Bool-cases t.result) [
          | inl ok ↦ rw ok (record {
            keyed = (settles.same_id ∙ same, rest.keyed);
            listed = λ r. (
              ground (arith, ok, same, settles.same_id, settles.listed, rest.kept id),
              rest.listed r,
            );
            kept = λ i. ground (arith, settles.kept i, rest.kept i);
          })
          | inr bad ↦ rw bad (record {
            keyed = (settles.same_id ∙ same, ks);
            listed = λ r. absurd (cc);
            kept = settles.kept;
          })
        ])
