-- ===== src/Fib/Unlink.antt =====
-- Unlinking a node of a chain of rt-fib.c, as `fib_delete` does.
use active_bgp_measurement.Base.{ℕ, suc, ◌≡◌, refl, ap, ◌∙◌}
use active_bgp_measurement.Base.{List, [], ◌∷◌, length, true, false, ◌&&◌, none, some, arith}
use active_bgp_measurement.Base.{◌==◌, if◌then◌else◌, All, Bool-cases, Option-cases, ◌⊎◌, inl, inr}
use active_bgp_measurement.Fib.{FibNode, same_key, find_in, unlink}
use active_bgp_measurement.Fib.Chain.{IsNodes, same_key-find_in}

module _ {V : Type 0} where
  -- Unlinking the node of a key leaves the other nodes, in their order.
  pub unlink-some :
      (a len : ℕ) (g : FibNode V) (c d : List (FibNode V))
      → unlink a len (g ∷ c) ≡ some d
      → ((same_key a len g ≡ true) × (d ≡ c))
        ⊎ ((same_key a len g ≡ false)
            × ((d' : List (FibNode V)) × (unlink a len c ≡ some d') × (d ≡ g ∷ d')))
  unfolding unlink
  unlink-some a len g c d h = elim (Bool-cases (same_key a len g)) [
    | inl y ↦ inl (y, ground arith)
    | inr n ↦ elim (Option-cases (unlink a len c)) [
      | inl nothing ↦ ground arith
      | inr (d', e) ↦ inr (n, (d', e, ground arith))
    ]
  ]

  pub All-unlink {κ} :
      (P : FibNode V → Type κ) (a len : ℕ) (c d : List (FibNode V))
      → unlink a len c ≡ some d
      → All P c
      → All P d
  unfolding unlink
  All-unlink P a len [] d h all = ground arith
  All-unlink P a len (g ∷ c) d h all = elim (unlink-some a len g c d h) [
    | inl (_, e) ↦ rw e all.1
    | inr (_, (d', k, e)) ↦ rw e (all.0, All-unlink P a len c d' k all.1)
  ]

  pub unlink-none :
      (a len : ℕ) (c : List (FibNode V)) → unlink a len c ≡ none → find_in a len c ≡ none
  unfolding unlink find_in
  unlink-none a len [] h = refl
  unlink-none a len (g ∷ c) h = elim (Bool-cases (same_key a len g)) [
    | inl y ↦ ground arith
    | inr n ↦ elim (Option-cases (unlink a len c)) [
      | inl nothing ↦ rw n (unlink-none a len c nothing)
      | inr (d', e) ↦ ground arith
    ]
  ]

  pub length-unlink :
      (a len : ℕ) (c d : List (FibNode V)) → unlink a len c ≡ some d → length c ≡ suc (length d)
  unfolding unlink
  length-unlink a len [] d h = ground arith
  length-unlink a len (g ∷ c) d h = elim (unlink-some a len g c d h) [
    | inl (_, e) ↦ rw e refl
    | inr (_, (d', k, e)) ↦ rw e (ap suc (length-unlink a len c d' k))
  ]

  -- After it the key is absent and every other key is found as before.
  pub find_in-unlink :
      (a len : ℕ) (c d : List (FibNode V))
      → IsNodes c
      → unlink a len c ≡ some d
      → (x l : ℕ) → find_in x l d ≡ (if len == l && x == a then none else find_in x l c)
  unfolding find_in unlink
  find_in-unlink a len [] d good h x l = ground arith
  find_in-unlink a len (g ∷ c) d good h x l = elim (unlink-some a len g c d h) [
    | inl (y, e) ↦ rw e (elim (Bool-cases (len == l && x == a)) [
      | inl k ↦
          let same : same_key x l g ≡ true = ground arith in
          rw (k, same_key-find_in x l g c same) good.1
      | inr k ↦ let other : same_key x l g ≡ false = ground arith in rw (k, other) refl
    ])
    | inr (n, (d', k, e)) ↦
        let rest = find_in-unlink a len c d' good.2 k x l in
        rw (e, rest)
          (elim (Bool-cases (same_key x l g)) [
            | inl y ↦ let other : (len == l && x == a) ≡ false = ground arith in rw (y, other) refl
            | inr other ↦ rw other refl
          ])
  ]

  pub IsNodes-unlink :
      (a len : ℕ) (c d : List (FibNode V)) → IsNodes c → unlink a len c ≡ some d → IsNodes d
  unfolding unlink
  IsNodes-unlink a len [] d good h = ground arith
  IsNodes-unlink a len (g ∷ c) d good h = elim (unlink-some a len g c d h) [
    | inl (_, e) ↦ rw e good.2
    | inr (n, (d', k, e)) ↦ rw e (
      All-unlink _ a len c d' k good.0,
      find_in-unlink a len c d' good.2 k g.prefix g.pxlen ∙ rw good.1 (ground arith),
      IsNodes-unlink a len c d' good.2 k,
    )
  ]

  pub unlink-found :
      (a len : ℕ) (c d : List (FibNode V))
      → unlink a len c ≡ some d
      → (e : FibNode V) × (find_in a len c ≡ some e)
  unfolding unlink find_in
  unlink-found a len [] d h = ground arith
  unlink-found a len (g ∷ c) d h = elim (unlink-some a len g c d h) [
    | inl (y, _) ↦ (g, rw y refl)
    | inr (n, (d', k, _)) ↦ let (e, found) = unlink-found a len c d' k in (e, rw n found)
  ]
