-- ===== src/Fib/Route.antt =====
-- `fib_init` and `fib_route` of rt-fib.c: the empty table, and the longest prefix that matches.
use active_bgp_measurement.Base.{ℕ, zero, suc, ◌+◌, ◌-◌, ◌^◌, ◌<◌, ◌≤◌, ◌≡◌, refl, ap, ◌∙◌, subst}
use active_bgp_measurement.Base.{[], length, none, some, arith}
use active_bgp_measurement.Base.{
  leb, leb→le, ◌==◌, if◌then◌else◌, Bool-cases, Option-cases, ◌⊎◌, inl, inr, lt→ltb,
}
use active_bgp_measurement.Fib.{
  FibNode, Fib, flatten, empty_chains, fib_ht_alloc, fib_init, fib_find, fib_route, find_in,
}
use active_bgp_measurement.Fib.Invariant.{IsTable, IsFib}
use active_bgp_measurement.Fib.Resize.{fib_find-flatten}

flatten-empty_chains : (V : Type 0) (n : ℕ) → flatten {V = V} (empty_chains n) ≡ []
flatten-empty_chains V zero = refl
flatten-empty_chains V (suc n) = flatten-empty_chains V n

length-empty_chains : (V : Type 0) (n : ℕ) → length (empty_chains {V = V} n) ≡ n
length-empty_chains V zero = refl
length-empty_chains V (suc n) = ap suc (length-empty_chains V n)

IsTable-empty_chains :
    (V : Type 0) (ipa_hash : ℕ → ℕ) (shift i n : ℕ)
    → IsTable {V = V} ipa_hash shift i (empty_chains n)
IsTable-empty_chains V ipa_hash shift i zero = tt
IsTable-empty_chains V ipa_hash shift i (suc n) =
    (tt, tt, IsTable-empty_chains V ipa_hash shift (i + 1) n)

module _ {V : Type 0} (ipa_hash : ℕ → ℕ) where
  IsFib-empty :
      (f : Fib V) (order : ℕ)
      → order ≤ 16
      → IsFib ipa_hash (record (fib_ht_alloc f order (empty_chains (2 ^ order))) {
        entries = 0;
        entries_min = 0;
      })
  unfolding fib_ht_alloc
  IsFib-empty f order small = (
    small,
    refl,
    refl,
    length-empty_chains V (2 ^ order),
    IsTable-empty_chains V ipa_hash (16 - order) 0 (2 ^ order),
    rw (flatten-empty_chains V (2 ^ order)) refl,
    λ more. rw (lt→ltb 14 order more) refl,
    λ _. refl,
  )

  -- For an order of at most 16, 0 included, fib_init makes a table in which no prefix is found and
  -- whose invariant holds.
  pub fib_init_lem :
      (f : Fib V) (hash_order : ℕ)
      → hash_order ≤ 16
      → IsFib ipa_hash (fib_init f hash_order)
        × ((a len : ℕ) → fib_find ipa_hash (fib_init f hash_order) a len ≡ none)
  unfolding fib_init fib_ht_alloc find_in
  fib_init_lem f hash_order small =
      let order = if hash_order == 0 then 10 else hash_order in
      let good = IsFib-empty f order (ground arith) in
      (
        good,
        λ a len.
            fib_find-flatten ipa_hash (fib_init f hash_order) a len good
            ∙ rw (flatten-empty_chains V (2 ^ order)) refl,
      )

  -- A node is the longest match of the prefixes of at most `len` bits.
  abbrev pub Longest : (ℕ → ℕ → ℕ) → Fib V → ℕ → ℕ → FibNode V → Type 0
  Longest network f a len e =
      (n : ℕ) × (n ≤ len)
      × (fib_find ipa_hash f (network a n) n ≡ some e)
      × ((m : ℕ) → n < m → m ≤ len → fib_find ipa_hash f (network a m) m ≡ none)

  -- A length of at most one more.
  fib_find-below :
      (network : ℕ → ℕ → ℕ) (f : Fib V) (a len m : ℕ)
      → m ≤ suc len
      → fib_find ipa_hash f (network a (suc len)) (suc len) ≡ none
      → (m ≤ len → fib_find ipa_hash f (network a m) m ≡ none)
      → fib_find ipa_hash f (network a m) m ≡ none
  fib_find-below network f a len m less nothing shorter = elim (Bool-cases (leb m len)) [
    | inl y ↦ shorter (leb→le m len y)
    | inr n ↦
        subst (λ (k : ℕ). fib_find ipa_hash f (network a k) k ≡ none) {x = suc len} {y = m}
          (ground arith) nothing
  ]

  fib_route-shorter :
      (network : ℕ → ℕ → ℕ) (f : Fib V) (a len : ℕ)
      → fib_find ipa_hash f (network a (suc len)) (suc len) ≡ none
      → fib_route ipa_hash network f a (suc len) ≡ fib_route ipa_hash network f a len
  unfolding fib_route
  fib_route-shorter network f a len nothing = rw (fib_route, nothing) refl

  fib_route-here :
      (network : ℕ → ℕ → ℕ) (f : Fib V) (a len : ℕ) (e : FibNode V)
      → fib_find ipa_hash f (network a (suc len)) (suc len) ≡ some e
      → fib_route ipa_hash network f a (suc len) ≡ some e
  unfolding fib_route
  fib_route-here network f a len e found = rw (fib_route, found) refl

  -- fib_route returns the node of the longest network of the address, of at most the given number
  -- of bits, that the table finds, and none exactly when the table finds none of these networks.
  pub fib_route_lem :
      (network : ℕ → ℕ → ℕ) (f : Fib V) (a len : ℕ)
      → ((fib_route ipa_hash network f a len ≡ none)
          × ((m : ℕ) → m ≤ len → fib_find ipa_hash f (network a m) m ≡ none))
        ⊎ ((e : FibNode V) × (fib_route ipa_hash network f a len ≡ some e)
            × Longest network f a len e)
  unfolding fib_route
  fib_route_lem network f a zero = elim (Option-cases (fib_find ipa_hash f (network a 0) 0)) [
    | inl nothing ↦ inl (
      nothing,
      λ m h.
          subst (λ (k : ℕ). fib_find ipa_hash f (network a k) k ≡ none) {x = 0} {y = m}
            (omega arith) nothing,
    )
    | inr (e, found) ↦ inr (e, found, (0, omega arith, found, λ m more less. absurd (omega arith)))
  ]
  fib_route_lem network f a (suc len) =
      elim (Option-cases (fib_find ipa_hash f (network a (suc len)) (suc len))) [
        | inl nothing ↦ elim (fib_route_lem network f a len) [
          | inl (shorter, all) ↦ inl (
            fib_route-shorter network f a len nothing ∙ shorter,
            λ m h. fib_find-below network f a len m h nothing (all m),
          )
          | inr (e, shorter, (n, less, found, longer)) ↦ inr (
            e,
            fib_route-shorter network f a len nothing ∙ shorter,
            (
              n,
              omega arith,
              found,
              λ m more most. fib_find-below network f a len m most nothing (longer m more),
            ),
          )
        ]
        | inr (e, found) ↦ inr (
          e,
          fib_route-here network f a len e found,
          (suc len, omega arith, found, λ m more less. absurd (omega arith)),
        )
      ]
