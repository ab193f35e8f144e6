-- ===== src/Fib/Count.antt =====
-- Counting the entries of rt-fib.c, with the rehash of a table that is too full or too empty.
use active_bgp_measurement.Base.{ℕ, suc, ◌+◌, ◌-◌, ◌%◌, ◌^◌, ◌<◌, ◌≤◌, ◌≡◌, refl}
use active_bgp_measurement.Base.{Bool, true, false, arith}
use active_bgp_measurement.Base.{ltb, if◌then◌else◌, Bool-cases, inl, inr, ltb→lt}
use active_bgp_measurement.Fib.{Fib, fib_rehash, fib_find, count_up, count_down}
use active_bgp_measurement.Fib.Invariant.{IsFib}
use active_bgp_measurement.Fib.Resize.{fib_rehash_lem}

module _ {V : Type 0} (ipa_hash : ℕ → ℕ) where
  -- A rehash under a condition keeps the lookups and the invariant.
  rehash-under :
      ((a : ℕ) → ipa_hash a < 2 ^ 16)
      → (b : Bool) (f : Fib V) (order : ℕ) → (b ≡ true → order ≤ 16)
      → IsFib ipa_hash f
      → ((a len : ℕ)
          → fib_find ipa_hash (if b then fib_rehash ipa_hash f order else f) a len
            ≡ fib_find ipa_hash f a len)
        × IsFib ipa_hash (if b then fib_rehash ipa_hash f order else f)
  rehash-under hashed true f order small h =
      let rehashed = fib_rehash_lem ipa_hash hashed f order (small refl) h in
      (rehashed.1, rehashed.2)
  rehash-under hashed false f order small h = (λ a len. refl, h)

  -- Counting an entry keeps the lookups and the invariant, also where it rehashes.
  pub count_up_lem :
      ((a : ℕ) → ipa_hash a < 2 ^ 16)
      → (f : Fib V) → f.entries < 2 ^ 32 - 1
      → IsFib ipa_hash (record f { entries = f.entries + 1 })
      → ((a len : ℕ)
          → fib_find ipa_hash (count_up ipa_hash f) a len
            ≡ fib_find ipa_hash (record f { entries = f.entries + 1 }) a len)
        × IsFib ipa_hash (count_up ipa_hash f)
  unfolding count_up
  count_up_lem hashed f few h =
      let plain : (f.entries + 1) % 2 ^ 32 ≡ f.entries + 1 = omega arith in
      rw plain (
        rehash-under hashed (ltb f.entries_max f.entries) (record f { entries = f.entries + 1 })
          (f.hash_order + 2)
          (λ over. elim (Bool-cases (ltb 14 f.hash_order)) [
            | inl y ↦ absurd (omega (arith, few, ltb→lt _ _ over, h.6 (ltb→lt 14 f.hash_order y)))
            | inr n ↦ ground arith
          ])
          h)

  pub count_down_lem :
      ((a : ℕ) → ipa_hash a < 2 ^ 16)
      → (f : Fib V) (n : ℕ) → f.entries ≡ suc n
      → n < 2 ^ 32 - 1
      → IsFib ipa_hash (record f { entries = n })
      → ((a len : ℕ)
          → fib_find ipa_hash (count_down ipa_hash f) a len
            ≡ fib_find ipa_hash (record f { entries = n }) a len)
        × IsFib ipa_hash (count_down ipa_hash f)
  unfolding count_down
  count_down_lem hashed f n some_left few h =
      let plain : (f.entries + (2 ^ 32 - 1)) % 2 ^ 32 ≡ n = omega arith in
      rw plain (
        rehash-under hashed (ltb f.entries f.entries_min) (record f { entries = n })
          (f.hash_order - 2) (λ _. omega (arith, h.0)) h)
