-- ===== src/Fib/Rehash.antt =====
-- `fib_rehash` of rt-fib.c: its loops spread the nodes over the new buckets in their order.
use active_bgp_measurement.Base.{
  ℕ, zero, suc, ◌+◌, ◌-◌, ◌/◌, ◌^◌, ◌<◌, ◌≤◌, ◌≡◌, refl, sym, ap, ◌∙◌, subst,
}
use active_bgp_measurement.Base.{List, [], ◌∷◌, ◌++◌, length, append-nil, append_assoc, none, arith}
use active_bgp_measurement.Base.{All, All-append, All-append_left}
use active_bgp_measurement.Fib.{FibNode, find_in, fib_hash, flatten, close_chains, rehash_loop}
use active_bgp_measurement.Fib.Chain.{IsNodes, find_in-none}
use active_bgp_measurement.Fib.Invariant.{Belongs, IsTable, div_mono}

module _ {V : Type 0} where
  -- Closing chains keeps every node in its place.
  flatten-close_chains :
      (k : ℕ) (cur rest : List (FibNode V)) (continue : List (FibNode V) → List (List (FibNode V)))
      → ((c : List (FibNode V)) → flatten (continue c) ≡ c ++ rest)
      → flatten (close_chains k cur continue) ≡ cur ++ rest
  flatten-close_chains zero cur rest continue h = h cur
  flatten-close_chains (suc k) cur rest continue h =
      ap (λ (es : List (FibNode V)). cur ++ es) (flatten-close_chains k [] rest continue h)

  length-close_chains :
      (k n : ℕ) (cur : List (FibNode V)) (continue : List (FibNode V) → List (List (FibNode V)))
      → ((c : List (FibNode V)) → length (continue c) ≡ n)
      → length (close_chains k cur continue) ≡ k + n
  length-close_chains zero n cur continue h = omega (arith, h cur)
  length-close_chains (suc k) n cur continue h =
      omega (arith, length-close_chains k n [] continue h)

  -- The last chains.
  flatten-last :
      (k : ℕ) (cur : List (FibNode V)) → 0 < k → flatten (close_chains k cur (λ _. [])) ≡ cur
  flatten-last zero cur h = absurd (omega arith)
  flatten-last (suc zero) cur h = append-nil cur
  flatten-last (suc (suc k)) cur h =
      ap (λ (es : List (FibNode V)). cur ++ es) (flatten-last (suc k) [] (omega arith))
      ∙ append-nil cur

  All-both {κ} :
      {P Q R : FibNode V → Type κ} (c : List (FibNode V))
      → All P c
      → All Q c
      → ((e : FibNode V) → P e → Q e → R e)
      → All R c
  All-both [] hp hq f = tt
  All-both (e ∷ c) hp hq f = (f e hp.0 hq.0, All-both c hp.1 hq.1 f)

  pub find_in-append :
      (a len : ℕ) (c d : List (FibNode V))
      → find_in a len c ≡ none
      → find_in a len (c ++ d) ≡ find_in a len d
  unfolding find_in
  find_in-append a len [] d h = refl
  find_in-append a len (g ∷ c) d h =
      let apart = find_in-none a len g c h in rw apart.0 (find_in-append a len c d apart.1)

  find_in-append_left :
      (a len : ℕ) (c d : List (FibNode V)) → find_in a len (c ++ d) ≡ none → find_in a len c ≡ none
  unfolding find_in
  find_in-append_left a len [] d h = refl
  find_in-append_left a len (g ∷ c) d h =
      let apart = find_in-none a len g (c ++ d) h in
      rw apart.0 (find_in-append_left a len c d apart.1)

  IsNodes-left : (c d : List (FibNode V)) → IsNodes (c ++ d) → IsNodes c
  IsNodes-left [] d h = tt
  IsNodes-left (g ∷ c) d h = (
    All-append_left _ c d h.0,
    find_in-append_left g.prefix g.pxlen c d h.1,
    IsNodes-left c d h.2,
  )

  IsNodes-right : (c d : List (FibNode V)) → IsNodes (c ++ d) → IsNodes d
  IsNodes-right [] d h = h
  IsNodes-right (g ∷ c) d h = IsNodes-right c d h.2

module _ {V : Type 0} (ipa_hash : ℕ → ℕ) where
  pub flatten-rehash_loop :
      (shift newn ni : ℕ) (cur es : List (FibNode V))
      → ni < newn
      → All (λ (e : FibNode V). fib_hash ipa_hash shift e.prefix < newn) es
      → flatten (rehash_loop ipa_hash shift newn ni cur es) ≡ cur ++ es
  unfolding rehash_loop
  flatten-rehash_loop shift newn ni cur [] h all =
      flatten-last (newn - ni) cur (omega arith) ∙ sym (append-nil cur)
  flatten-rehash_loop shift newn ni cur (e ∷ es) h all =
      let k = fib_hash ipa_hash shift e.prefix - ni in
      flatten-close_chains k cur (e ∷ es) _ (λ c.
        flatten-rehash_loop shift newn (ni + k) (c ++ (e ∷ [])) es (omega arith) all.1
        ∙ append_assoc c (e ∷ []) es)

  pub length-rehash_loop :
      (shift newn ni : ℕ) (cur es : List (FibNode V))
      → ni < newn
      → All (λ (e : FibNode V). fib_hash ipa_hash shift e.prefix < newn) es
      → ni + length (rehash_loop ipa_hash shift newn ni cur es) ≡ newn
  unfolding rehash_loop
  length-rehash_loop shift newn ni cur [] h all =
      omega (arith, length-close_chains (newn - ni) 0 cur (λ _. []) (λ c. refl))
  length-rehash_loop shift newn ni cur (e ∷ es) h all =
      let k = fib_hash ipa_hash shift e.prefix - ni in
      let counted =
        length-close_chains k (newn - (ni + k)) cur
          (λ c. rehash_loop ipa_hash shift newn (ni + k) (c ++ (e ∷ [])) es)
          (λ c. omega (
            arith,
            length-rehash_loop shift newn (ni + k) (c ++ (e ∷ [])) es (omega arith) all.1,
          )) in
      omega (arith, counted)

  -- Closing chains of their buckets, the rest of the table behind them.
  IsTable-close_chains :
      (shift k i : ℕ) (cur : List (FibNode V))
      (continue : List (FibNode V) → List (List (FibNode V)))
      → IsNodes cur
      → All (Belongs ipa_hash shift i) cur
      → (k ≡ 0 → IsTable ipa_hash shift i (continue cur))
      → IsTable ipa_hash shift (i + k) (continue [])
      → IsTable ipa_hash shift i (close_chains k cur continue)
  IsTable-close_chains shift zero i cur continue good all first rest = first refl
  IsTable-close_chains shift (suc k) i cur continue good all first rest =
      let at : (j : ℕ) → i + suc k ≡ j → IsTable ipa_hash shift j (continue []) =
        λ j e. subst (λ (n : ℕ). IsTable ipa_hash shift n (continue [])) e rest in
      (
        good,
        all,
        IsTable-close_chains shift k (i + 1) [] continue tt tt (λ e. at (i + 1) (omega arith))
            (at (i + 1 + k) (omega arith)),
      )

  -- Nodes with greater numbers have no smaller hash.
  fib_hash_mono :
      (shift : ℕ) (e g : FibNode V)
      → e.uid / 2 ^ 16 ≡ ipa_hash e.prefix
      → g.uid / 2 ^ 16 ≡ ipa_hash g.prefix
      → e.uid < g.uid
      → fib_hash ipa_hash shift e.prefix ≤ fib_hash ipa_hash shift g.prefix
  unfolding fib_hash
  fib_hash_mono shift e g he hg less =
      div_mono (ipa_hash e.prefix) (ipa_hash g.prefix) shift (omega arith)

  pub IsTable-rehash_loop :
      (shift newn ni : ℕ) (cur es : List (FibNode V))
      → IsNodes (cur ++ es)
      → All (Belongs ipa_hash shift ni) cur
      → All
          (λ (e : FibNode V).
            (ni ≤ fib_hash ipa_hash shift e.prefix)
            × (e.uid / 2 ^ 16 ≡ ipa_hash e.prefix)
            × (e.pxlen < 2 ^ 8))
          es
      → IsTable ipa_hash shift ni (rehash_loop ipa_hash shift newn ni cur es)
  unfolding rehash_loop
  IsTable-rehash_loop shift newn ni cur [] good all later =
      IsTable-close_chains shift (newn - ni) ni cur _ (IsNodes-left cur [] good) all (λ _. tt) tt
  IsTable-rehash_loop shift newn ni cur (e ∷ es) good all later =
      let k = fib_hash ipa_hash shift e.prefix - ni in
      let here : fib_hash ipa_hash shift e.prefix ≡ ni + k = omega (arith, later.0.0) in
      let order = (IsNodes-right cur (e ∷ es) good).0 in
      let later' = All-both es order later.1 (λ g less old. (
        subst (λ (n : ℕ). n ≤ fib_hash ipa_hash shift g.prefix) here
            (fib_hash_mono shift e g later.0.1 old.1 less),
        old.1,
        old.2,
      )) in
      IsTable-close_chains shift k ni cur _ (IsNodes-left cur (e ∷ es) good) all
        (λ (still : k ≡ 0).
          let same : ni + k ≡ ni = omega arith in
          subst
            (λ (n : ℕ).
              IsTable ipa_hash shift n
                (rehash_loop ipa_hash shift newn (ni + k) (cur ++ (e ∷ [])) es))
            same
            (IsTable-rehash_loop shift newn (ni + k) (cur ++ (e ∷ [])) es
              (subst (λ (c : List (FibNode V)). IsNodes c) (sym (append_assoc cur (e ∷ []) es))
                good)
              (All-append _ cur (e ∷ [])
                (subst (λ (n : ℕ). All (Belongs ipa_hash shift n) cur) (sym same) all)
                ((here, later.0.1, later.0.2), tt))
              later'))
        (IsTable-rehash_loop shift newn (ni + k) (e ∷ []) es (IsNodes-right cur (e ∷ es) good)
          ((here, later.0.1, later.0.2), tt) later')
