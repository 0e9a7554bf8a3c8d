-- ===== src/Base/Machine.antt =====
-- A machine is a step function on states and events that also gives an answer.
use mathlib.Core.Path.{◌≡◌, refl}
use mathlib.Core.List.{List, [], ◌∷◌, ◌++◌}

module _ {S E A : Type 0} (step : S → E → S × A) where
  abbrev pub run : S → List E → S
  run s [] = s
  run s (e ∷ es) = run (step s e).0 es

  -- An invariant of every step is one of every run.
  pub run-Inv :
      (P : S → Type 0)
      → ((s : S) (e : E) → P s → P (step s e).0)
      → (s : S) (es : List E) → P s
      → P (run s es)
  run-Inv P keep s [] h = h
  run-Inv P keep s (e ∷ es) h = run-Inv P keep (step s e).0 es (keep s e h)

  -- A state that every event leaves alone is left alone by every run.
  pub run_fixed : (s : S) → ((e : E) → (step s e).0 ≡ s) → (es : List E) → run s es ≡ s
  run_fixed s still [] = refl
  run_fixed s still (e ∷ es) = rw (still e) (run_fixed s still es)

  pub run-append : (s : S) (es fs : List E) → run s (es ++ fs) ≡ run (run s es) fs
  run-append s [] fs = refl
  run-append s (e ∷ es) fs = run-append (step s e).0 es fs
