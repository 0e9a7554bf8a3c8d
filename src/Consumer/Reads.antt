-- ===== src/Consumer/Reads.antt =====
-- When the reads of CommandConsumerBase.h return, and with what.
use umaa_cpp.Base.{
  ℕ, zero, suc, ◌+◌, ◌<◌, ◌≤◌, ◌≡◌, ◌↔◌, ◌⊎◌, inl, inr, refl, subst, true, false, Option, none,
  some, arith, Bool-cases,
}
use mathlib.Core.Option.{some-injective}
use umaa_cpp.Transport.Reading.{ReadStatus, is_sample, is_no_data}
use umaa_cpp.Consumer.{CommandHeader, Report, is_own, read_loop}

module _ {B : Type 0} (next : ℕ → ReadStatus × Report B) (header : CommandHeader) where
  -- `Ends at n r`: the samples from `at` on are skipped, all foreign or faulty, up to the one before
  -- the `n`th; that one is for the consumer or says NO_DATA, and `r` is what the read makes of it.
  data Ends : ℕ → ℕ → ReadStatus × Option (Report B) × ℕ → Type 0 where
    own :
        {at : ℕ}
        → is_own header (next at) ≡ true
        → Ends at 1 ((next at).0, some (next at).1, suc at)
    dry :
        {at : ℕ}
        → is_own header (next at) ≡ false
        → is_no_data (next at).0 ≡ true
        → Ends at 1 ((next at).0, none, suc at)
    skip :
        {at n : ℕ} {r : ReadStatus × Option (Report B) × ℕ}
        → is_own header (next at) ≡ false
        → is_no_data (next at).0 ≡ false
        → Ends (suc at) n r
        → Ends at (suc n) r

  Ends-loop :
      {at n : ℕ} {r : ReadStatus × Option (Report B) × ℕ}
      → Ends at n r
      → (fuel : ℕ) → n ≤ fuel
      → read_loop next header fuel at ≡ some r
  unfolding read_loop
  Ends-loop (own h) zero l = absurd (omega arith)
  Ends-loop (own h) (suc fuel) l = ground (arith, h)
  Ends-loop (dry h d) zero l = absurd (omega arith)
  Ends-loop (dry h d) (suc fuel) l = ground (arith, h, d)
  Ends-loop (skip h d e) zero l = absurd (omega arith)
  Ends-loop (skip h d e) (suc fuel) l = ground (arith, h, d, Ends-loop e fuel (omega (arith, l)))

  loop-Ends :
      (fuel at : ℕ) (r : ReadStatus × Option (Report B) × ℕ)
      → read_loop next header fuel at ≡ some r
      → (n : ℕ) × (n ≤ fuel) × Ends at n r
  unfolding read_loop
  loop-Ends zero at r h = absurd (cc)
  loop-Ends (suc fuel) at r h = elim (Bool-cases (is_own header (next at))) [
    | inl o ↦
        let e : some ((next at).0, some (next at).1, suc at) ≡ some r = ground (arith, h, o) in
        (1, omega arith, subst (Ends at 1) (some-injective _ _ e) (own o))
    | inr o ↦ elim (Bool-cases (is_no_data (next at).0)) [
      | inl d ↦
          let e : some ((next at).0, none, suc at) ≡ some r = ground (arith, h, o, d) in
          (1, omega arith, subst (Ends at 1) (some-injective _ _ e) (dry o d))
      | inr d ↦
          let e : read_loop next header fuel (suc at) ≡ some r = ground (arith, h, o, d) in
          let (n, l, ends) = loop-Ends fuel (suc at) r e in (suc n, omega (arith, l), skip o d ends)
    ]
  ]

  -- A read returns within some number of samples exactly when it comes to one that is for the
  -- consumer or to NO_DATA within it, and it returns the first of them. What comes before, messages
  -- of other providers and of other sessions and failed reads, has no part in the result.
  read_loop-Ends :
      (fuel at : ℕ) (r : ReadStatus × Option (Report B) × ℕ)
      → (read_loop next header fuel at ≡ some r) ↔ ((n : ℕ) × (n ≤ fuel) × Ends at n r)
  read_loop-Ends fuel at r = (loop-Ends fuel at r, λ (n, l, e). Ends-loop e fuel l)

  own-no_data : (x : ReadStatus × Report B) → is_no_data x.0 ≡ true → is_own header x ≡ false
  own-no_data (s, m) d = ground arith

  own_sample : (x : ReadStatus × Report B) → is_own header x ≡ true → is_sample x.0 ≡ true
  own_sample (s, m) h = ground arith

  -- What a read comes to whose sample `k` says NO_DATA: it has no message, or it is one of those
  -- before, with `j` left.
  abbrev pub Returned : ℕ → ℕ → ℕ → Type 0
  Returned fuel k at =
      (j : ℕ) × (r : ReadStatus × Option (Report B) × ℕ) × (read_loop next header fuel at ≡ some r)
      × (((r.1 ≡ none) × (is_sample r.0 ≡ false))
          ⊎ ((j < k) × (r.2 + j ≡ at + k) × (is_sample r.0 ≡ true)))

  pub loop_returns :
      (fuel k at : ℕ) → k < fuel → is_no_data (next (at + k)).0 ≡ true → Returned fuel k at
  unfolding read_loop
  loop_returns zero k at l d = absurd (omega (arith, l))
  loop_returns (suc fuel) zero at l d =
      let here : is_no_data (next at).0 ≡ true =
        subst (λ i. is_no_data (next i).0 ≡ true) (omega arith) d in
      let o = own-no_data (next at) here in
      (0, ((next at).0, none, suc at), ground (arith, o, here), inl (refl, ground arith))
  loop_returns (suc fuel) (suc k) at l d = elim (Bool-cases (is_own header (next at))) [
    | inl o ↦ (
      k,
      ((next at).0, some (next at).1, suc at),
      ground (arith, o),
      inr (omega arith, omega arith, own_sample (next at) o),
    )
    | inr o ↦ elim (Bool-cases (is_no_data (next at).0)) [
      | inl e ↦
          (0, ((next at).0, none, suc at), ground (arith, o, e), inl (refl, ground (arith, e)))
      | inr e ↦
          let later : is_no_data (next (suc at + k)).0 ≡ true =
            subst (λ i. is_no_data (next i).0 ≡ true) (omega arith) d in
          let (j, r, h, c) = loop_returns fuel k (suc at) (omega (arith, l)) later in
          (
            j,
            r,
            ground (arith, o, e, h),
            elim c [ inl x ↦ inl x | inr (x, y, z) ↦ inr (omega (arith, x), omega (arith, y), z) ],
          )
    ]
  ]
