-- ===== src/Conditional/Payloads.antt =====
-- umaa/SpecializationCache.h: the samples of a specialized type, by their reference ids. `next` are
-- the answers of the reader; the loop of `update` is on fuel.
use umaa_cpp.Base.{
  ℕ, zero, suc, ◌+◌, ◌<◌, ◌≡◌, Bool, true, false, Option, none, some, List, ◌==◌, if◌then◌else◌,
}
use umaa_cpp.Base.Table as T
use umaa_cpp.Time.{DateTime, eq}
use umaa_cpp.Transport.Reading.{ReadStatus, no_data, error, disposed}
use umaa_cpp.Conditional.{Specialized, ConditionalType}

-- The condition of the `while` loop, negated.
abbrev pub is_last : ReadStatus → Bool
is_last no_data = true
is_last error = true
is_last _ = false

module _ {S : Type 0} where
  -- The body of the loop.
  abbrev pub handle :
      ReadStatus × Specialized S → List (ℕ × Specialized S) → List (ℕ × Specialized S)
  handle (disposed, s) table = T.erase s.reference_id table
  handle (_, s) table = T.insert s.reference_id s table

  abbrev pub is_valid : Option DateTime → Specialized S → Bool
  is_valid none s = true
  is_valid (some timestamp) s = eq s.reference_timestamp timestamp

  -- What `find` has, if its time stamp is the right one.
  abbrev pub checked : Option DateTime → Option (Specialized S) → Option (Specialized S)
  checked timestamp none = none
  checked timestamp (some s) = if is_valid timestamp s then some s else none

module _ {S : Type 0} (next : ℕ → ReadStatus × Specialized S) where
  -- With the table, the number of the next sample; none without enough fuel.
  unfoldable pub update : ℕ → ℕ → List (ℕ × Specialized S) → Option (List (ℕ × Specialized S) × ℕ)
  update zero at table = none
  update (suc fuel) at table =
      let rest = update fuel (suc at) (handle (next at) table) in
      if is_last (next at).0 then some (table, suc at) else rest

  unfoldable pub get_specialization_by_ref_id :
      ℕ
      → ℕ
      → ℕ
      → Option DateTime
      → List (ℕ × Specialized S)
      → Option (Option (Specialized S) × List (ℕ × Specialized S) × ℕ)
  get_specialization_by_ref_id fuel at id timestamp table = elim (update fuel at table) [
    | none ↦ none
    | some (table', at') ↦ some (checked timestamp (T.lookup id table'), table', at')
  ]

  unfoldable pub get_specialization :
      {P : Type 0}
      → ℕ
      → ℕ
      → ConditionalType P
      → List (ℕ × Specialized S)
      → Option (Option (Specialized S) × List (ℕ × Specialized S) × ℕ)
  get_specialization fuel at base table = elim (update fuel at table) [
    | none ↦ none
    | some (table', at') ↦ some (
      checked (some base.specialization_timestamp) (T.lookup base.specialization_id table'),
      table',
      at',
    )
  ]

  module _ (at : ℕ) (table : List (ℕ × Specialized S)) where
    -- The last word of the first `n` samples from `at` on about `id`, and else that of the table.
    unfoldable pub last_word : ℕ → ℕ → Option (Specialized S)
    last_word zero id = T.lookup id table
    last_word (suc n) id =
        let before = last_word n id in
        if (next (at + n)).1.reference_id == id
        then (elim (next (at + n)).0 [ disposed ↦ none | _ ↦ some (next (at + n)).1 ])
        else before

    tables : ℕ → List (ℕ × Specialized S)
    tables zero = table
    tables (suc n) = handle (next (at + n)) (tables n)

    -- `Pauses n`: the samples from `at` on go to the `n`th, which says NO_DATA or ERROR.
    abbrev pub Pauses : ℕ → Type 0
    Pauses n =
        ((i : ℕ) → i < n → is_last (next (at + i)).0 ≡ false) × (is_last (next (at + n)).0 ≡ true)
