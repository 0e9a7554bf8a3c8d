-- ===== src/Base/Batches.antt =====
-- A loop that reads batches until one is empty or more than a number of samples were read.
use Prim.Native.Nat.{ℕ, zero, suc, ◌+◌, ◌<◌}
use mathlib.Core.Path.{◌≡◌}
use mathlib.Core.Logic.{inl, inr}
use mathlib.Core.Option.{Option, some}
use mathlib.Core.List.{List}
use native.Mathlib.Omega.{arith}
use umaa_cpp.Base.Tests.{ltb, ◌==◌, if◌then◌else◌, Bool-cases}
use umaa_cpp.Base.Lists.{length}

module _ {X R : Type 0} (limit : ℕ) (loop : ℕ → ℕ → R → Option R) (batch : R → List X)
    (next : R → R) where
  abbrev pub times : ℕ → R → R
  times zero r = r
  times (suc n) r = times n (next r)

  -- One round, with fuel for it.
  abbrev pub Round : ℕ → ℕ → R → Type 0
  Round fuel total r = loop (suc fuel) total r ≡ (
      if length (batch r) == 0
      then some (next r)
      else (if ltb limit (total + length (batch r))
          then some (next r)
          else loop fuel (total + length (batch r)) (next r)))

  -- The loop ends after at least one round, since every round but the last reads a sample.
  pub loop_ends :
      ((fuel total : ℕ) (r : R) → Round fuel total r)
      → (fuel total : ℕ) (r : R) → limit + 1 < fuel + total
      → 0 < fuel
      → (n : ℕ) × (n < fuel) × (loop fuel total r ≡ some (times (suc n) r))
  loop_ends round zero total r h k = absurd (omega (arith, k))
  loop_ends round (suc fuel) total r h k = elim (Bool-cases (length (batch r) == 0)) [
    | inl a ↦ (0, omega arith, ground (arith, a, round fuel total r))
    | inr a ↦ elim (Bool-cases (ltb limit (total + length (batch r)))) [
      | inl b ↦ (0, omega arith, ground (arith, a, b, round fuel total r))
      | inr b ↦
          let (n, l, e) =
            loop_ends round fuel (total + length (batch r)) (next r) (ground (arith, a, h))
              (ground (arith, a, b, h)) in
          (suc n, omega (arith, l), ground (arith, a, b, e, round fuel total r))
    ]
  ]
