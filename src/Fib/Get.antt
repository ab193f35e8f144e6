-- ===== src/Fib/Get.antt =====
-- `fib_get` of rt-fib.c finds or creates the node of a prefix.
use active_bgp_measurement.Base.{
  ℕ, suc, ◌+◌, ◌-◌, ◌*◌, ◌/◌, ◌%◌, ◌^◌, ◌<◌, ◌≡◌, refl, sym, ap, ◌∙◌, subst, List, [], ◌∷◌, length,
  Bool, true, false, ◌&&◌, none, some, arith, ltb, ◌==◌, if◌then◌else◌, not, Bool-cases,
  Option-cases, inl, inr, ==_self, Res, ok, bug, ◌||◌, ◌≤◌,
}
use active_bgp_measurement.Fib.{
  FibNode, Fib, find_in, fib_hash, link_node, chain_at, fib_find, fib_get, count_up, same_key,
  link_free,
}
use active_bgp_measurement.Fib.Chain.{
  find_in-link_node, IsNodes-link_node, All-link_node, link_node-bound, numbered,
}
use active_bgp_measurement.Fib.Invariant.{Belongs, IsFib}
use active_bgp_measurement.Fib.Update.{
  bucket, with_bucket, IsNodes-bucket, Belongs-bucket, IsFib-with_bucket, fib_find-with_bucket,
  fib_find-at_key,
}
use active_bgp_measurement.Fib.Count.{count_up_lem}

module _ {V : Type 0} where
  length-link_free :
      (e : FibNode V) (c : List (FibNode V)) → length (link_free e c).0 ≡ suc (length c)
  unfolding link_free
  length-link_free e [] = refl
  length-link_free e (g ∷ c) = elim (Bool-cases (g.uid == e.uid)) [
    | inl y ↦ rw y (ap suc (length-link_free (numbered e ((e.uid + 1) % 2 ^ 32)) c))
    | inr n ↦ rw n refl
  ]

  length-link_node :
      (e : FibNode V) (c : List (FibNode V)) → length (link_node e c).0 ≡ suc (length c)
  unfolding link_node
  length-link_node e [] = refl
  length-link_node e (g ∷ c) = elim (Bool-cases (ltb g.uid e.uid)) [
    | inl y ↦ rw y (ap suc (length-link_node e c))
    | inr n ↦ rw n (length-link_free e (g ∷ c))
  ]

  find_in-same_key :
      (a len : ℕ) (c : List (FibNode V)) (e : FibNode V)
      → find_in a len c ≡ some e
      → same_key a len e ≡ true
  unfolding find_in
  find_in-same_key a len [] e h = ground arith
  find_in-same_key a len (g ∷ c) e h = elim (Bool-cases (same_key a len g)) [
    | inl y ↦ subst (λ (x : FibNode V). same_key a len x ≡ true) {x = g} {y = e} (ground arith) y
    | inr n ↦ find_in-same_key a len c e (ground arith)
  ]

module _ {V : Type 0} (ipa_hash : ℕ → ℕ) where
  -- The node that is linked in.
  abbrev new_node : (ℕ → ℕ → V) → ℕ → ℕ → FibNode V
  new_node init a len = record {
    prefix = a;
    pxlen = len;
    uid = ipa_hash a * 2 ^ 16;
    content = init a len;
  }

  IsNodes-new_node :
      ((a : ℕ) → ipa_hash a < 2 ^ 16)
      → (init : ℕ → ℕ → V) (f : Fib V) (a len : ℕ) → length (bucket ipa_hash f a) < 2 ^ 16
      → IsFib ipa_hash f
      → find_in a len (bucket ipa_hash f a) ≡ none
      → len < 2 ^ 8
      → IsFib ipa_hash (
          with_bucket ipa_hash f a
            (link_node (new_node init a len) (bucket ipa_hash f a)).0
            (f.entries + 1))
  IsNodes-new_node hashed init f a len short h absent byte =
      let e = new_node init a len in
      let c = bucket ipa_hash f a in
      IsFib-with_bucket ipa_hash hashed f a (link_node e c).0 (f.entries + 1) h
        (IsNodes-link_node e c (omega (arith, hashed a)) (IsNodes-bucket ipa_hash f a h) absent)
        (All-link_node (Belongs ipa_hash f.hash_shift (fib_hash ipa_hash f.hash_shift a)) e c
          (omega (arith, hashed a)) (Belongs-bucket ipa_hash f a h)
          (λ n low high. (refl, omega (arith, hashed a, low, high, short), byte)))
        (omega (arith, length-link_node e c))

  find-new_node :
      ((a : ℕ) → ipa_hash a < 2 ^ 16)
      → (init : ℕ → ℕ → V) (f : Fib V) (a len x l : ℕ) → IsFib ipa_hash f
      → find_in a len (bucket ipa_hash f a) ≡ none
      → fib_find ipa_hash
          (with_bucket ipa_hash f a
            (link_node (new_node init a len) (bucket ipa_hash f a)).0
            (f.entries + 1))
          x
          l
        ≡ (if len == l && x == a
            then some (
                numbered
                  (new_node init a len)
                  (link_node (new_node init a len) (bucket ipa_hash f a)).1)
            else fib_find ipa_hash f x l)
  unfolding fib_find
  find-new_node hashed init f a len x l h absent =
      let linked = find_in-link_node x l (new_node init a len) (bucket ipa_hash f a) absent in
      fib_find-with_bucket ipa_hash hashed f a _ (f.entries + 1) x l h
      ∙ rw linked (fib_find-at_key ipa_hash f a len x l _)

  -- The high half of the new number is the primary hash, so that no error is logged.
  no-error :
      (init : ℕ → ℕ → V) (a len : ℕ) (c : List (FibNode V))
      → ipa_hash a < 2 ^ 16
      → length c < 2 ^ 16
      → not ((link_node (new_node init a len) c).1 / 2 ^ 16 == ipa_hash a) ≡ false
  no-error init a len c small short =
      let bound = link_node-bound (new_node init a len) c (omega arith) in
      let same : (link_node (new_node init a len) c).1 / 2 ^ 16 ≡ ipa_hash a = omega arith in
      rw same (ground arith)

  fib_get-found :
      (debugging : Bool) (bits : ℕ) (ip_is_prefix : ℕ → ℕ → Bool) (init : ℕ → ℕ → V) (f : Fib V)
      (a len : ℕ) (old : FibNode V)
      → find_in a len (bucket ipa_hash f a) ≡ some old
      → fib_get ipa_hash debugging bits ip_is_prefix init f a len ≡ ok (old, f, false)
  unfolding fib_get fib_hash
  fib_get-found debugging bits ip_is_prefix init f a len old found = rw (fib_get, found) refl

  -- What `fib_get` makes of a prefix that the table does not have.
  abbrev created : (ℕ → ℕ → V) → Fib V → ℕ → ℕ → FibNode V × Fib V × Bool
  created init f a len =
      let linked = link_node (new_node init a len) (bucket ipa_hash f a) in
      (
        numbered (new_node init a len) linked.1,
        count_up ipa_hash (with_bucket ipa_hash f a linked.0 f.entries),
        not (linked.1 / 2 ^ 16 == ipa_hash a),
      )

  fib_get-absent :
      (debugging : Bool) (bits : ℕ) (ip_is_prefix : ℕ → ℕ → Bool) (init : ℕ → ℕ → V) (f : Fib V)
      (a len : ℕ)
      → find_in a len (bucket ipa_hash f a) ≡ none
      → fib_get ipa_hash debugging bits ip_is_prefix init f a len ≡ (
          if debugging && (ltb bits len || not (ip_is_prefix a len))
          then bug
          else ok (created init f a (len % 2 ^ 8)))
  unfolding fib_get fib_hash
  fib_get-absent debugging bits ip_is_prefix init f a len absent = rw (fib_get, absent) refl

  -- What a result of `fib_get` is to be.
  abbrev pub Got : Fib V → ℕ → ℕ → FibNode V × Fib V × Bool → Type 0
  Got f a len r =
      (same_key a len r.0 ≡ true)
      × (r.2 ≡ false)
      × ((x l : ℕ)
          → fib_find ipa_hash r.1 x l
            ≡ (if len == l && x == a then some r.0 else fib_find ipa_hash f x l))
      × IsFib ipa_hash r.1

  Got-found :
      (f : Fib V) (a len : ℕ) (old : FibNode V)
      → find_in a len (bucket ipa_hash f a) ≡ some old
      → IsFib ipa_hash f
      → Got f a len (old, f, false)
  unfolding fib_find
  Got-found f a len old found h = (
    find_in-same_key a len (bucket ipa_hash f a) old found,
    refl,
    λ x l. elim (Bool-cases (len == l && x == a)) [
      | inl y ↦ rw y (
          ap (λ (p : ℕ). fib_find ipa_hash f p l) {x = x} {y = a} (ground arith)
          ∙ ap (λ (m : ℕ). fib_find ipa_hash f a m) {x = l} {y = len} (ground arith)
          ∙ found)
      | inr n ↦ rw n refl
    ],
    h,
  )

  -- The outcome of a call for a prefix that is valid: a result as it is to be.
  abbrev pub Gets : Fib V → ℕ → ℕ → Res (FibNode V × Fib V × Bool) → Type 0
  Gets f a len (ok r) = Got f a len r
  Gets f a len _ = true ≡ false

  -- When the primary hashes have 16 bits, addresses have less than 256 bits, the length is at most
  -- that of an address and the address is one of a prefix of that length, the invariant of the table
  -- holds, its count of entries is below 2 ^ 32 - 1 and the bucket of the prefix has less than 2 ^ 16
  -- nodes, fib_get, built for debugging or not, returns a node of the prefix and logs no error; in
  -- the table it leaves, the prefix finds that node and every other prefix what it found before, and
  -- the invariant of the table holds.
  pub fib_get_lem :
      (hashed : (a : ℕ) → ipa_hash a < 2 ^ 16) (debugging : Bool) (bits : ℕ)
      (ip_is_prefix : ℕ → ℕ → Bool) (init : ℕ → ℕ → V) (f : Fib V) (a len : ℕ)
      → bits < 2 ^ 8
      → len ≤ bits
      → ip_is_prefix a len ≡ true
      → IsFib ipa_hash f
      → f.entries < 2 ^ 32 - 1
      → length (chain_at f.hash_table (fib_hash ipa_hash f.hash_shift a)) < 2 ^ 16
      → Gets f a len (fib_get ipa_hash debugging bits ip_is_prefix init f a len)
  fib_get_lem hashed debugging bits ip_is_prefix init f a len byte within valid h few short =
      elim (Option-cases (find_in a len (bucket ipa_hash f a))) [
        | inl absent ↦
            let chain = link_node (new_node init a len) (bucket ipa_hash f a) in
            let counted =
              count_up_lem ipa_hash hashed (with_bucket ipa_hash f a chain.0 f.entries) few
                (IsNodes-new_node hashed init f a len short h absent (omega arith)) in
            let unchecked : (debugging && (ltb bits len || not (ip_is_prefix a len))) ≡ false =
              ground arith in
            let plain : len % 2 ^ 8 ≡ len = omega arith in
            rw (fib_get-absent debugging bits ip_is_prefix init f a len absent, unchecked, plain)
              (
                rw (==_self len, ==_self a) refl,
                no-error init a len (bucket ipa_hash f a) (hashed a) short,
                λ x l. counted.0 x l ∙ find-new_node hashed init f a len x l h absent,
                counted.1,
              )
        | inr (old, found) ↦
            subst (Gets f a len)
              (sym (fib_get-found debugging bits ip_is_prefix init f a len old found))
              (Got-found f a len old found h)
      ]

  -- Built for debugging, a call for a prefix that is not valid and not in the table calls bug().
  fib_get-invalid :
      (bits : ℕ) (ip_is_prefix : ℕ → ℕ → Bool) (init : ℕ → ℕ → V) (f : Fib V) (a len : ℕ)
      → find_in a len (bucket ipa_hash f a) ≡ none
      → (ltb bits len || not (ip_is_prefix a len)) ≡ true
      → fib_get ipa_hash true bits ip_is_prefix init f a len ≡ bug
  fib_get-invalid bits ip_is_prefix init f a len absent wrong =
      fib_get-absent true bits ip_is_prefix init f a len absent ∙ rw wrong refl
