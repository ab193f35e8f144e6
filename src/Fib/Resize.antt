-- ===== src/Fib/Resize.antt =====
-- The effect of `fib_rehash` of rt-fib.c on the whole table.
use active_bgp_measurement.Base.{ℕ, ◌-◌, ◌^◌, ◌<◌, ◌≤◌, ◌≡◌, refl, sym, ap, ◌∙◌}
use active_bgp_measurement.Base.{List, [], ◌∷◌, arith}
use active_bgp_measurement.Base.{lt→ltb, All, All-weaken}
use active_bgp_measurement.Fib.{
  FibNode, Fib, find_in, fib_hash, flatten, fib_ht_alloc, fib_rehash, rehash_loop, fib_find,
}
use active_bgp_measurement.Fib.Invariant.{IsTable, IsFib, fib_hash-lt, pow_pos}
use active_bgp_measurement.Fib.Rehash.{flatten-rehash_loop, length-rehash_loop, IsTable-rehash_loop}
use active_bgp_measurement.Fib.Lookup.{Later-flatten, IsNodes-flatten, find_in-chain_at}

module _ {V : Type 0} (ipa_hash : ℕ → ℕ) where
  -- Any number of buckets that a 16-bit hash can name serves.
  pub IsTable-rehash :
      (shift order : ℕ) (table : List (List (FibNode V)))
      → ((a : ℕ) → ipa_hash a < 2 ^ 16)
      → order ≤ 16
      → IsTable ipa_hash shift 0 table
      → IsTable ipa_hash
          (16 - order)
          0
          (rehash_loop ipa_hash (16 - order) (2 ^ order) 0 [] (flatten table))
  IsTable-rehash shift order table hashed small h =
      IsTable-rehash_loop ipa_hash (16 - order) (2 ^ order) 0 [] (flatten table)
        (IsNodes-flatten ipa_hash shift 0 table h) tt
        (All-weaken _ _ (flatten table) (λ e k. (omega arith, k.1, k.2))
          (Later-flatten ipa_hash shift 0 table h))

  All-hashed :
      (order : ℕ)
      → ((a : ℕ) → ipa_hash a < 2 ^ 16)
      → order ≤ 16
      → (es : List (FibNode V))
      → All (λ (e : FibNode V). fib_hash ipa_hash (16 - order) e.prefix < 2 ^ order) es
  All-hashed order hashed small [] = tt
  All-hashed order hashed small (e ∷ es) = (
    fib_hash-lt ipa_hash order e.prefix small (hashed e.prefix),
    All-hashed order hashed small es,
  )

  pub flatten-rehash :
      (order : ℕ) (es : List (FibNode V))
      → ((a : ℕ) → ipa_hash a < 2 ^ 16)
      → order ≤ 16
      → flatten (rehash_loop ipa_hash (16 - order) (2 ^ order) 0 [] es) ≡ es
  flatten-rehash order es hashed small =
      flatten-rehash_loop ipa_hash (16 - order) (2 ^ order) 0 [] es (pow_pos order)
        (All-hashed order hashed small es)

  -- `fib_rehash` keeps the invariant and the nodes in their order.
  pub IsFib-fib_rehash :
      (f : Fib V) (order : ℕ)
      → ((a : ℕ) → ipa_hash a < 2 ^ 16)
      → order ≤ 16
      → IsFib ipa_hash f
      → IsFib ipa_hash (fib_rehash ipa_hash f order)
  unfolding fib_rehash fib_ht_alloc
  IsFib-fib_rehash f order hashed small h = (
    small,
    refl,
    refl,
    omega (
      arith,
      length-rehash_loop ipa_hash (16 - order) (2 ^ order) 0 [] (flatten f.hash_table)
          (pow_pos order) (All-hashed order hashed small (flatten f.hash_table)),
    ),
    IsTable-rehash f.hash_shift order f.hash_table hashed small h.4,
    rw (flatten-rehash order (flatten f.hash_table) hashed small) h.5,
    λ more. rw (lt→ltb 14 order more) refl,
    λ less. rw (lt→ltb order 12 less) refl,
  )

  pub fib_find-flatten :
      (f : Fib V) (a len : ℕ)
      → IsFib ipa_hash f
      → fib_find ipa_hash f a len ≡ find_in a len (flatten f.hash_table)
  unfolding fib_find
  fib_find-flatten f a len h =
      find_in-chain_at ipa_hash f.hash_shift 0 (fib_hash ipa_hash f.hash_shift a) a len f.hash_table
        (omega arith) h.4

  -- Rehashing a table to any order of at most 16 keeps its nodes in their order, finds under every
  -- prefix the node that was found before, and keeps the invariant of the table, when the primary
  -- hashes have 16 bits.
  pub fib_rehash_lem :
      (hashed : (a : ℕ) → ipa_hash a < 2 ^ 16) (f : Fib V) (order : ℕ)
      → order ≤ 16
      → IsFib ipa_hash f
      → (flatten (Fib.hash_table (fib_rehash ipa_hash f order)) ≡ flatten f.hash_table)
        × ((a len : ℕ)
            → fib_find ipa_hash (fib_rehash ipa_hash f order) a len ≡ fib_find ipa_hash f a len)
        × IsFib ipa_hash (fib_rehash ipa_hash f order)
  unfolding fib_rehash fib_ht_alloc
  fib_rehash_lem hashed f order small h =
      let kept = flatten-rehash order (flatten f.hash_table) hashed small in
      let good = IsFib-fib_rehash f order hashed small h in
      (
        kept,
        λ a len.
            fib_find-flatten (fib_rehash ipa_hash f order) a len good
            ∙ ap (λ (es : List (FibNode V)). find_in a len es) kept
            ∙ sym (fib_find-flatten f a len h),
        good,
      )
