-- ===== src/Conditional/Clearing.antt =====
-- ConditionalDeleteProvider.cpp: the deletion of all conditionals.
use umaa_cpp.Base.{◌≡◌, List}
use umaa_cpp.Base.Sets.{Equality, remove as take_out}
use umaa_cpp.Transport.{success}
use umaa_cpp.LargeList.Writer.Stores.{IsReliable}
use umaa_cpp.LargeSet.Writer.{Writer, remove}
use umaa_cpp.LargeSet.Writer.Elements.{values}
use umaa_cpp.LargeSet.Writer.Steps.{Sync}
use umaa_cpp.Conditional.{ConditionalType, Env, Service, remove_specialization}

module _ {P S : Type 0} (q : Equality (ConditionalType P)) (env : Env P S)
    (rely : IsReliable env.set) where
  -- What the removal of the first conditional leaves.
  Leading : ConditionalType P → List (ConditionalType P) → Service P S → Type 0
  Leading c cs r =
      ((remove_specialization q env c.conditional_id r).0 ≡ success)
      × Sync q env.set (remove_specialization q env c.conditional_id r).1.set
      × (values (remove_specialization q env c.conditional_id r).1.set.elements ≡ cs)
