-- ===== src/Fib/Update.antt =====
-- Changes of one bucket of rt-fib.c, and of the count of its entries.
use active_bgp_measurement.Base.{ℕ, zero, suc, ◌+◌, ◌^◌, ◌<◌, ◌≤◌, ◌≡◌, refl, ap, ◌∙◌, subst}
use active_bgp_measurement.Base.{
  List, [], ◌∷◌, length, length-append, length-set, set, false, ◌&&◌, Option, arith,
}
use active_bgp_measurement.Base.{◌==◌, if◌then◌else◌, All, Bool-cases, inl, inr, ==_iff}
use active_bgp_measurement.Fib.{FibNode, Fib, find_in, fib_hash, chain_at, flatten, fib_find}
use active_bgp_measurement.Fib.Chain.{IsNodes}
use active_bgp_measurement.Fib.Invariant.{Belongs, IsTable, IsFib, fib_hash-lt}

module _ {V : Type 0} where
  pub chain_at-set :
      (table : List (List (FibNode V))) (i j : ℕ) (c : List (FibNode V))
      → i < length table
      → chain_at (set table i c) j ≡ (if i == j then c else chain_at table j)
  chain_at-set [] i j c h = absurd (omega arith)
  chain_at-set (d ∷ table) zero zero c h = refl
  chain_at-set (d ∷ table) zero (suc j) c h = ground arith
  chain_at-set (d ∷ table) (suc i) zero c h = ground arith
  chain_at-set (d ∷ table) (suc i) (suc j) c h =
      ground (arith, chain_at-set table i j c (omega arith))

  pub length-flatten-set :
      (table : List (List (FibNode V))) (i : ℕ) (c : List (FibNode V))
      → i < length table
      → length (flatten (set table i c)) + length (chain_at table i)
        ≡ length (flatten table) + length c
  length-flatten-set [] i c h = absurd (omega arith)
  length-flatten-set (d ∷ table) zero c h =
      omega (arith, length-append c (flatten table), length-append d (flatten table))
  length-flatten-set (d ∷ table) (suc i) c h = omega (
    arith,
    length-append d (flatten (set table i c)),
    length-append d (flatten table),
    length-flatten-set table i c (omega arith),
  )

module _ {V : Type 0} (ipa_hash : ℕ → ℕ) where
  pub IsTable-set :
      (shift n i : ℕ) (c : List (FibNode V)) (table : List (List (FibNode V)))
      → IsTable ipa_hash shift n table
      → IsNodes c
      → All (Belongs ipa_hash shift (n + i)) c
      → IsTable ipa_hash shift n (set table i c)
  IsTable-set shift n i c [] h good all = tt
  IsTable-set shift n zero c (d ∷ table) h good all = (
    good,
    subst (λ (k : ℕ). All (Belongs ipa_hash shift k) c) {x = n + 0} {y = n} (omega arith) all,
    h.2,
  )
  IsTable-set shift n (suc i) c (d ∷ table) h good all = (
    h.0,
    h.1,
    IsTable-set shift (n + 1) i c table h.2 good (
        subst (λ (k : ℕ). All (Belongs ipa_hash shift k) c) {x = n + suc i} {y = n + 1 + i}
          (omega arith) all),
  )

  pub IsTable-chain_at :
      (shift n i : ℕ) (table : List (List (FibNode V)))
      → IsTable ipa_hash shift n table
      → IsNodes (chain_at table i) × All (Belongs ipa_hash shift (n + i)) (chain_at table i)
  IsTable-chain_at shift n i [] h = (tt, tt)
  IsTable-chain_at shift n zero (d ∷ table) h = (
    h.0,
    subst (λ (k : ℕ). All (Belongs ipa_hash shift k) d) {x = n} {y = n + 0} (omega arith) h.1,
  )
  IsTable-chain_at shift n (suc i) (d ∷ table) h =
      let rest = IsTable-chain_at shift (n + 1) i table h.2 in
      (
        rest.0,
        subst (λ (k : ℕ). All (Belongs ipa_hash shift k) (chain_at table i)) {x = n + 1 + i}
            {y = n + suc i} (omega arith) rest.1,
      )

  -- The bucket of the prefix.
  abbrev pub bucket : Fib V → ℕ → List (FibNode V)
  bucket f a = chain_at f.hash_table (fib_hash ipa_hash f.hash_shift a)

  -- Another chain in the bucket of the prefix, and another count.
  abbrev pub with_bucket : Fib V → ℕ → List (FibNode V) → ℕ → Fib V
  with_bucket f a c n = record f {
    hash_table = set f.hash_table (fib_hash ipa_hash f.hash_shift a) c;
    entries = n;
  }

  bucket-lt :
      ((a : ℕ) → ipa_hash a < 2 ^ 16)
      → (f : Fib V) (a : ℕ) → IsFib ipa_hash f
      → fib_hash ipa_hash f.hash_shift a < length f.hash_table
  bucket-lt hashed f a h = rw (h.1, h.3, h.2) (fib_hash-lt ipa_hash f.hash_order a h.0 (hashed a))

  -- A bucket has no more nodes than the table.
  pub length-bucket :
      ((a : ℕ) → ipa_hash a < 2 ^ 16)
      → (f : Fib V) (a : ℕ) → IsFib ipa_hash f
      → length (bucket f a) ≤ f.entries
  length-bucket hashed f a h = omega (
    arith,
    length-flatten-set f.hash_table (fib_hash ipa_hash f.hash_shift a) [] (bucket-lt hashed f a h),
    h.5,
  )

  pub IsNodes-bucket : (f : Fib V) (a : ℕ) → IsFib ipa_hash f → IsNodes (bucket f a)
  IsNodes-bucket f a h =
      (IsTable-chain_at f.hash_shift 0 (fib_hash ipa_hash f.hash_shift a) f.hash_table h.4).0

  pub Belongs-bucket :
      (f : Fib V) (a : ℕ)
      → IsFib ipa_hash f
      → All (Belongs ipa_hash f.hash_shift (fib_hash ipa_hash f.hash_shift a)) (bucket f a)
  Belongs-bucket f a h =
      let i = fib_hash ipa_hash f.hash_shift a in
      subst (λ (k : ℕ). All (Belongs ipa_hash f.hash_shift k) (bucket f a)) {x = 0 + i} {y = i}
        (omega arith) (IsTable-chain_at f.hash_shift 0 i f.hash_table h.4).1

  pub IsFib-with_bucket :
      ((a : ℕ) → ipa_hash a < 2 ^ 16)
      → (f : Fib V) (a : ℕ) (c : List (FibNode V)) (n : ℕ) → IsFib ipa_hash f
      → IsNodes c
      → All (Belongs ipa_hash f.hash_shift (fib_hash ipa_hash f.hash_shift a)) c
      → n + length (bucket f a) ≡ f.entries + length c
      → IsFib ipa_hash (with_bucket f a c n)
  IsFib-with_bucket hashed f a c n h good all counted =
      let i = fib_hash ipa_hash f.hash_shift a in
      (
        h.0,
        h.1,
        h.2,
        length-set f.hash_table i c ∙ h.3,
        IsTable-set f.hash_shift 0 i c f.hash_table h.4 good (
            subst (λ (k : ℕ). All (Belongs ipa_hash f.hash_shift k) c) {x = i} {y = 0 + i}
              (omega arith) all),
        omega (arith, length-flatten-set f.hash_table i c (bucket-lt hashed f a h), h.5, counted),
        h.6,
        h.7,
      )

  pub fib_find-with_bucket :
      ((a : ℕ) → ipa_hash a < 2 ^ 16)
      → (f : Fib V) (a : ℕ) (c : List (FibNode V)) (n x l : ℕ) → IsFib ipa_hash f
      → fib_find ipa_hash (with_bucket f a c n) x l ≡ (
          if fib_hash ipa_hash f.hash_shift a == fib_hash ipa_hash f.hash_shift x
          then find_in x l c
          else fib_find ipa_hash f x l)
  unfolding fib_find
  fib_find-with_bucket hashed f a c n x l h =
      let i = fib_hash ipa_hash f.hash_shift a in
      let j = fib_hash ipa_hash f.hash_shift x in
      ap (λ (d : List (FibNode V)). find_in x l d)
        (chain_at-set f.hash_table i j c (bucket-lt hashed f a h))
      ∙ elim (Bool-cases (i == j)) [ inl y ↦ rw y refl | inr n' ↦ rw n' refl ]

  -- A prefix with another hash is another prefix.
  other-prefix :
      (f : Fib V) (a len x l : ℕ)
      → (fib_hash ipa_hash f.hash_shift a == fib_hash ipa_hash f.hash_shift x) ≡ false
      → (len == l && x == a) ≡ false
  other-prefix f a len x l n = elim (Bool-cases (x == a)) [
    | inl y ↦
        let same = ap (λ (p : ℕ). fib_hash ipa_hash f.hash_shift p) ((==_iff x a).0 y) in
        absurd (ground (arith, same, n))
    | inr m ↦ ground arith
  ]

  -- A change of the bucket at the prefix alone is a change of the table at the prefix alone.
  pub fib_find-at_key :
      (f : Fib V) (a len x l : ℕ) (new : Option (FibNode V))
      → (if fib_hash ipa_hash f.hash_shift a == fib_hash ipa_hash f.hash_shift x
          then (if len == l && x == a then new else find_in x l (bucket f a))
          else fib_find ipa_hash f x l)
        ≡ (if len == l && x == a then new else fib_find ipa_hash f x l)
  unfolding fib_find
  fib_find-at_key f a len x l new =
      let i = fib_hash ipa_hash f.hash_shift a in
      let j = fib_hash ipa_hash f.hash_shift x in
      elim (Bool-cases (i == j)) [
        | inl y ↦ rw (y, (==_iff i j).0 y) refl
        | inr n ↦ rw (n, other-prefix f a len x l n) refl
      ]
