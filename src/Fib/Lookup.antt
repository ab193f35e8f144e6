-- ===== src/Fib/Lookup.antt =====
-- Lookups of rt-fib.c: the bucket of the hash has the node exactly when the table has it, however
-- many buckets there are.
use active_bgp_measurement.Base.{ℕ, zero, suc, ◌+◌, ◌/◌, ◌^◌, ◌<◌, ◌≤◌, ◌≡◌, refl, sym, ap, ◌∙◌}
use active_bgp_measurement.Base.{List, [], ◌∷◌, ◌++◌, ◌&&◌, none, arith}
use active_bgp_measurement.Base.{◌==◌, All, All-append, All-weaken, Bool-cases, inl, inr}
use active_bgp_measurement.Fib.{FibNode, find_in, fib_hash, chain_at, flatten}
use active_bgp_measurement.Fib.Chain.{IsNodes}
use active_bgp_measurement.Fib.Invariant.{Belongs, IsTable, div-lt}
use active_bgp_measurement.Fib.Rehash.{find_in-append}

module _ {V : Type 0} (ipa_hash : ℕ → ℕ) where
  -- The nodes from bucket `i` on, with their numbers' primary hashes.
  abbrev pub Later : ℕ → ℕ → FibNode V → Type 0
  Later shift i e =
      (i ≤ fib_hash ipa_hash shift e.prefix)
      × (e.uid / 2 ^ 16 ≡ ipa_hash e.prefix)
      × (e.pxlen < 2 ^ 8)

  pub Later-flatten :
      (shift i : ℕ) (table : List (List (FibNode V)))
      → IsTable ipa_hash shift i table
      → All (Later shift i) (flatten table)
  Later-flatten shift i [] h = tt
  Later-flatten shift i (c ∷ table) h =
      All-append _ c (flatten table) (All-weaken _ _ c (λ e k. (omega (arith, k.0), k.1, k.2)) h.1)
        (All-weaken _ _ (flatten table) (λ e k. (omega (arith, k.0), k.1, k.2))
          (Later-flatten shift (i + 1) table h.2))

  -- No node of a later bucket has the prefix.
  find_in-Later :
      (shift i a len : ℕ) (es : List (FibNode V))
      → fib_hash ipa_hash shift a < i
      → All (Later shift i) es
      → find_in a len es ≡ none
  unfolding find_in
  find_in-Later shift i a len [] less h = refl
  find_in-Later shift i a len (e ∷ es) less h =
      elim (Bool-cases (e.pxlen == len && a == e.prefix)) [
        | inl y ↦
            let same : a ≡ e.prefix = ground arith in
            absurd (omega (arith, less, h.0.0, ap (λ (x : ℕ). fib_hash ipa_hash shift x) same))
        | inr n ↦ rw n (find_in-Later shift i a len es less h.1)
      ]

  -- Nor has an earlier bucket.
  find_in-earlier :
      (shift i a len : ℕ) (es : List (FibNode V))
      → i < fib_hash ipa_hash shift a
      → All (Belongs ipa_hash shift i) es
      → find_in a len es ≡ none
  unfolding find_in
  find_in-earlier shift i a len [] less h = refl
  find_in-earlier shift i a len (e ∷ es) less h =
      elim (Bool-cases (e.pxlen == len && a == e.prefix)) [
        | inl y ↦
            let same : a ≡ e.prefix = ground arith in
            absurd (omega (arith, less, h.0.0, ap (λ (x : ℕ). fib_hash ipa_hash shift x) same))
        | inr n ↦ rw n (find_in-earlier shift i a len es less h.1)
      ]

  find_in-append_none :
      (a len : ℕ) (c d : List (FibNode V))
      → find_in a len d ≡ none
      → find_in a len (c ++ d) ≡ find_in a len c
  unfolding find_in
  find_in-append_none a len [] d h = h
  find_in-append_none a len (g ∷ c) d h = rw (find_in-append_none a len c d h) refl

  -- The bucket of the hash is looked up in place of the table.
  pub find_in-chain_at :
      (shift i k a len : ℕ) (table : List (List (FibNode V)))
      → fib_hash ipa_hash shift a ≡ i + k
      → IsTable ipa_hash shift i table
      → find_in a len (chain_at table k) ≡ find_in a len (flatten table)
  find_in-chain_at shift i k a len [] e h = refl
  find_in-chain_at shift i zero a len (c ∷ table) e h = sym (
      find_in-append_none a len c (flatten table) (
        find_in-Later shift (i + 1) a len (flatten table) (omega arith)
          (Later-flatten shift (i + 1) table h.2)))
  find_in-chain_at shift i (suc k) a len (c ∷ table) e h =
      find_in-chain_at shift (i + 1) k a len table (omega arith) h.2
      ∙ sym (
          find_in-append a len c (flatten table)
            (find_in-earlier shift i a len c (omega arith) h.1))

  IsNodes-append :
      (c d : List (FibNode V))
      → IsNodes c
      → IsNodes d
      → All
          (λ (e : FibNode V).
            All (λ (g : FibNode V). e.uid < g.uid) d × (find_in e.prefix e.pxlen d ≡ none))
          c
      → IsNodes (c ++ d)
  IsNodes-append [] d hc hd apart = hd
  IsNodes-append (e ∷ c) d hc hd apart = (
    All-append _ c d hc.0 apart.0.0,
    find_in-append e.prefix e.pxlen c d hc.1 ∙ apart.0.1,
    IsNodes-append c d hc.2 hd apart.1,
  )

  -- A node of an earlier bucket has a smaller number.
  uid-less :
      (shift i : ℕ) (e g : FibNode V)
      → Belongs ipa_hash shift i e
      → Later shift (i + 1) g
      → e.uid < g.uid
  unfolding fib_hash
  uid-less shift i e g he hg = div-lt e.uid g.uid 16 (
      rw (he.1, hg.1)
        (div-lt (ipa_hash e.prefix) (ipa_hash g.prefix) shift (omega (arith, he.0, hg.0))))

  pub IsNodes-flatten :
      (shift i : ℕ) (table : List (List (FibNode V)))
      → IsTable ipa_hash shift i table
      → IsNodes (flatten table)
  IsNodes-flatten shift i [] h = tt
  IsNodes-flatten shift i (c ∷ table) h =
      let later = Later-flatten shift (i + 1) table h.2 in
      IsNodes-append c (flatten table) h.0 (IsNodes-flatten shift (i + 1) table h.2) (
        All-weaken (Belongs ipa_hash shift i) _ c
          (λ e k. (
            All-weaken (Later shift (i + 1)) _ (flatten table) (λ g l. uid-less shift i e g k l)
                later,
            find_in-Later shift (i + 1) e.prefix e.pxlen (flatten table) (omega (arith, k.0)) later,
          ))
          h.1)
