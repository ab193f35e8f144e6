-- ===== src/Fib/Chain.antt =====
-- The chains of rt-fib.c: their nodes have distinct prefixes and ascending numbers, which
-- `fib_get` and `fib_delete` keep.
use active_bgp_measurement.Base.{ℕ, ◌+◌, ◌%◌, ◌^◌, ◌<◌, ◌≤◌, ◌≡◌, refl, sym, ap, ◌∙◌}
use active_bgp_measurement.Base.{List, [], ◌∷◌, length, true, false, none, some, arith, tests}
use active_bgp_measurement.Base.{
  ltb, ◌==◌, if◌then◌else◌, All, All-weaken, Bool-cases, inl, inr, ==_self,
}
use active_bgp_measurement.Fib.{FibNode, same_key, find_in, link_free, link_node}

module _ {V : Type 0} where
  -- Distinct prefixes and strictly ascending numbers.
  abbrev pub IsNodes : List (FibNode V) → Type 0
  IsNodes [] = Unit
  IsNodes (e ∷ es) =
      All (λ (g : FibNode V). e.uid < g.uid) es × (find_in e.prefix e.pxlen es ≡ none) × IsNodes es

  -- The test of a node at its own key.
  same_key_self : (e : FibNode V) → same_key e.prefix e.pxlen e ≡ true
  same_key_self e = rw (==_self e.pxlen, ==_self e.prefix) refl

  pub same_key_sym : (e g : FibNode V) → same_key e.prefix e.pxlen g ≡ same_key g.prefix g.pxlen e
  same_key_sym e g = ground arith

  -- Nodes with the same key as one are found alike.
  pub same_key-find_in :
      (a len : ℕ) (e : FibNode V) (c : List (FibNode V))
      → same_key a len e ≡ true
      → find_in a len c ≡ find_in e.prefix e.pxlen c
  same_key-find_in a len e c h =
      ap (λ (x : ℕ). find_in x len c) (ground arith)
      ∙ ap (λ (l : ℕ). find_in e.prefix l c) (ground arith)

  -- The node at the number it gets.
  abbrev pub numbered : FibNode V → ℕ → FibNode V
  numbered e n = record e { uid = n }

  -- What holds of a chain's nodes and of the new one at each number it may get holds of all.
  pub All-link_free {κ} :
      (P : FibNode V → Type κ) (e : FibNode V) (c : List (FibNode V))
      → e.uid + length c < 2 ^ 32
      → All P c
      → ((n : ℕ) → e.uid ≤ n → n ≤ e.uid + length c → P (numbered e n))
      → All P (link_free e c).0
  unfolding link_free
  All-link_free P e [] bound all new = (new e.uid (omega arith) (omega arith), tt)
  All-link_free P e (g ∷ c) bound all new = elim (Bool-cases (g.uid == e.uid)) [
    | inl y ↦
        let rest : All P (link_free (numbered e ((e.uid + 1) % 2 ^ 32)) c).0 =
          All-link_free P (numbered e ((e.uid + 1) % 2 ^ 32)) c (omega arith) all.1
            (λ n low high. new n (omega arith) (omega arith)) in
        rw y (all.0, rest)
    | inr n ↦ rw n (new e.uid (omega arith) (omega arith), all)
  ]

  pub All-link_node {κ} :
      (P : FibNode V → Type κ) (e : FibNode V) (c : List (FibNode V))
      → e.uid + length c < 2 ^ 32
      → All P c
      → ((n : ℕ) → e.uid ≤ n → n ≤ e.uid + length c → P (numbered e n))
      → All P (link_node e c).0
  unfolding link_node
  All-link_node P e [] bound all new = (new e.uid (omega arith) (omega arith), tt)
  All-link_node P e (g ∷ c) bound all new = elim (Bool-cases (ltb g.uid e.uid)) [
    | inl y ↦
        let rest : All P (link_node e c).0 =
          All-link_node P e c (omega arith) all.1
            (λ n low high. new n (omega arith) (omega arith)) in
        rw y (all.0, rest)
    | inr n ↦ rw n (All-link_free P e (g ∷ c) bound all new)
  ]

  -- The number is at most one more for each node of the chain.
  pub link_free-bound :
      (e : FibNode V) (c : List (FibNode V))
      → e.uid + length c < 2 ^ 32
      → (e.uid ≤ (link_free e c).1) × ((link_free e c).1 ≤ e.uid + length c)
  unfolding link_free
  link_free-bound e [] bound = (omega arith, omega arith)
  link_free-bound e (g ∷ c) bound = elim (Bool-cases (g.uid == e.uid)) [
    | inl y ↦
        let rest = link_free-bound (numbered e ((e.uid + 1) % 2 ^ 32)) c (omega arith) in
        rw y (omega arith, omega arith)
    | inr n ↦ rw n (omega arith, omega arith)
  ]

  pub link_node-bound :
      (e : FibNode V) (c : List (FibNode V))
      → e.uid + length c < 2 ^ 32
      → (e.uid ≤ (link_node e c).1) × ((link_node e c).1 ≤ e.uid + length c)
  unfolding link_node
  link_node-bound e [] bound = (omega arith, omega arith)
  link_node-bound e (g ∷ c) bound = elim (Bool-cases (ltb g.uid e.uid)) [
    | inl y ↦ let rest = link_node-bound e c (omega arith) in rw y (omega arith, omega arith)
    | inr n ↦ rw n (link_free-bound e (g ∷ c) bound)
  ]

  pub find_in-none :
      (a len : ℕ) (g : FibNode V) (c : List (FibNode V))
      → find_in a len (g ∷ c) ≡ none
      → (same_key a len g ≡ false) × (find_in a len c ≡ none)
  unfolding find_in
  find_in-none a len g c h = elim (Bool-cases (same_key a len g)) [
    | inl y ↦ ground arith
    | inr n ↦ (n, rw n refl ∙ h)
  ]

  apart_self :
      (a len : ℕ) (e g : FibNode V)
      → same_key a len g ≡ true
      → same_key e.prefix e.pxlen g ≡ false
      → same_key a len e ≡ false
  apart_self a len e g k h = ground arith

  -- Two nodes with different keys may be tested in either order.
  same_key_comm {κ} :
      {A : Type κ} (a len : ℕ) (e g : FibNode V) (x y z : A)
      → same_key e.prefix e.pxlen g ≡ false
      → (if same_key a len g then y else (if same_key a len e then x else z))
        ≡ (if same_key a len e then x else (if same_key a len g then y else z))
  same_key_comm a len e g x y z h = elim (Bool-cases (same_key a len g)) [
    | inl k ↦ rw (k, apart_self a len e g k h) refl
    | inr n ↦ rw n refl
  ]

  -- The new node is found under its key, and the others as before.
  find_in-link_free :
      (a len : ℕ) (e : FibNode V) (c : List (FibNode V))
      → find_in e.prefix e.pxlen c ≡ none
      → find_in a len (link_free e c).0
        ≡ (if same_key a len e then some (numbered e (link_free e c).1) else find_in a len c)
  unfolding link_free find_in
  find_in-link_free a len e [] h = refl
  find_in-link_free a len e (g ∷ c) h =
      let apart = find_in-none e.prefix e.pxlen g c h in
      let rest = find_in-link_free a len (numbered e ((e.uid + 1) % 2 ^ 32)) c apart.1 in
      elim (Bool-cases (g.uid == e.uid)) [
        | inl y ↦ rw (y, rest) (same_key_comm a len e g _ _ _ apart.0)
        | inr n ↦ rw n refl
      ]

  pub find_in-link_node :
      (a len : ℕ) (e : FibNode V) (c : List (FibNode V))
      → find_in e.prefix e.pxlen c ≡ none
      → find_in a len (link_node e c).0
        ≡ (if same_key a len e then some (numbered e (link_node e c).1) else find_in a len c)
  unfolding link_node find_in
  find_in-link_node a len e [] h = refl
  find_in-link_node a len e (g ∷ c) h =
      let apart = find_in-none e.prefix e.pxlen g c h in
      elim (Bool-cases (ltb g.uid e.uid)) [
        | inl y ↦
            rw (y, find_in-link_node a len e c apart.1) (same_key_comm a len e g _ _ _ apart.0)
        | inr n ↦ rw n (find_in-link_free a len e (g ∷ c) h)
      ]

  -- A chain behind a node with a smaller number and another key.
  IsNodes-cons :
      (g e : FibNode V) (c d : List (FibNode V))
      → IsNodes d
      → All (λ (x : FibNode V). g.uid < x.uid) d
      → find_in g.prefix g.pxlen d
        ≡ (if same_key g.prefix g.pxlen e then some e else find_in g.prefix g.pxlen c)
      → same_key g.prefix g.pxlen e ≡ false
      → find_in g.prefix g.pxlen c ≡ none
      → IsNodes (g ∷ d)
  IsNodes-cons g e c d good all found other absent = (all, found ∙ rw (other, absent) refl, good)

  IsNodes-link_free :
      (e : FibNode V) (c : List (FibNode V))
      → e.uid + length c < 2 ^ 32
      → IsNodes c
      → All (λ (g : FibNode V). e.uid ≤ g.uid) c
      → find_in e.prefix e.pxlen c ≡ none
      → IsNodes (link_free e c).0
  unfolding link_free find_in
  IsNodes-link_free e [] bound good low h = (tt, refl, tt)
  IsNodes-link_free e (g ∷ c) bound good low h =
      let apart = find_in-none e.prefix e.pxlen g c h in
      let next = numbered e ((e.uid + 1) % 2 ^ 32) in
      elim (Bool-cases (g.uid == e.uid)) [
        | inl y ↦
            let rest =
              IsNodes-link_free next c (omega arith) good.2
                (All-weaken _ _ c (λ x k. omega arith) good.0) apart.1 in
            let all =
              All-link_free (λ (x : FibNode V). g.uid < x.uid) next c (omega arith) good.0
                (λ n low' high. ground arith) in
            rw y (
              IsNodes-cons g (numbered next (link_free next c).1) c (link_free next c).0 rest all
                (find_in-link_free g.prefix g.pxlen next c apart.1)
                (sym (same_key_sym e g) ∙ apart.0) good.1)
        | inr n ↦
            let less : e.uid < g.uid = ground arith in
            rw n ((less, All-weaken _ _ c (λ x k. omega arith) good.0), h, good)
      ]

  pub IsNodes-link_node :
      (e : FibNode V) (c : List (FibNode V))
      → e.uid + length c < 2 ^ 32
      → IsNodes c
      → find_in e.prefix e.pxlen c ≡ none
      → IsNodes (link_node e c).0
  unfolding link_node find_in
  IsNodes-link_node e [] bound good h = (tt, refl, tt)
  IsNodes-link_node e (g ∷ c) bound good h =
      let apart = find_in-none e.prefix e.pxlen g c h in
      elim (Bool-cases (ltb g.uid e.uid)) [
        | inl y ↦
            let all =
              All-link_node (λ (x : FibNode V). g.uid < x.uid) e c (omega arith) good.0
                (λ n low high. omega (tests, y)) in
            rw y (
              IsNodes-cons g (numbered e (link_node e c).1) c (link_node e c).0
                (IsNodes-link_node e c (omega arith) good.2 apart.1) all
                (find_in-link_node g.prefix g.pxlen e c apart.1) (sym (same_key_sym e g) ∙ apart.0)
                good.1)
        | inr n ↦
            let less : e.uid ≤ g.uid = ground arith in
            rw n (
              IsNodes-link_free e (g ∷ c) bound good
                (less, All-weaken _ _ c (λ x k. omega arith) good.0) h)
      ]
