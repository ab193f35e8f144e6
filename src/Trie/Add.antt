-- ===== src/Trie/Add.antt =====
-- `trie_add_prefix` and `trie_match_prefix` of filter/trie.c against the prefix patterns that were
-- added.
use active_bgp_measurement.Base.{
  ℕ, zero, suc, ◌-◌, ◌≡◌, ◌≤◌, ◌<◌, ◌||◌, ◌&&◌, not, refl, ap, ◌∙◌, ok,
}
use active_bgp_measurement.Base.{
  Bool, true, false, ltb, leb, ◌==◌, arith, lt→ltb, Bool-cases, inl, inr,
}
use active_bgp_measurement.Trie.{
  IpOps, TrieNode, kept, xor, Trie, trie_add_prefix, trie_match_prefix, f_new_trie,
}
use active_bgp_measurement.Trie.Bits.{IpLaws, agree, agree-bit, agree-intro, agree-subst, lesser}
use active_bgp_measurement.Trie.Walk.{IsTrieNode, accepts, match_walk_lem}
use active_bgp_measurement.Trie.Place.{pattern_accepts}
use active_bgp_measurement.Trie.Along.{Adding, Adds, walk}
use active_bgp_measurement.Trie.Correct.{IsRoot, IsTrie, walk-IsRoot}

-- `ppaddr/pplen{low,high}` as the documentation has it: the first MIN(plen, pplen) bits are the same
-- and low <= plen <= high.
abbrev pub prefix_matches : (ops : IpOps) → ops.Ip → ℕ → ℕ → ℕ → ops.Ip → ℕ → Bool
prefix_matches ops ppaddr pplen low high paddr plen =
    agree ops paddr ppaddr (lesser plen pplen) && (leb low plen && leb plen high)

and_one : (x : Bool) → (x && true) ≡ x
and_one x = ground arith

and_comm : (x y : Bool) → (x && y) ≡ (y && x)
and_comm x y = ground arith

off : (x y z : Bool) → ((x && false) && y) ≡ (z && (x && false))
off x y z = ground arith

zero_bounds : (l h : ℕ) (z : Bool) → ((l == 0) || z) ≡ (z || (true && (leb l 0 && leb 0 h)))
zero_bounds l h z = ground arith

xor_comm : (x y : Bool) → not (xor x y) ≡ not (xor y x)
xor_comm true y = ground arith
xor_comm false y = ground arith

xor-bounds :
    (k l h : ℕ) → 0 < k → l ≤ h → xor (ltb (k - 1) (l - 1)) (ltb (k - 1) h) ≡ (leb l k && leb k h)
xor-bounds k l h pos le = ground arith

module _ (ops : IpOps) (laws : IpLaws ops) where
  agree_comm : (a b : ops.Ip) (n : ℕ) → agree ops a b n ≡ agree ops b a n
  agree_comm a b zero = refl
  agree_comm a b (suc n) =
      rw (agree_comm a b n, xor_comm (ops.ipa_getbit a n) (ops.ipa_getbit b n)) refl

  -- An address under a mask agrees with it on the bits of the mask.
  pub masked-agree :
      (a : ops.Ip) (n : ℕ)
      → n ≤ ops.bits_per_ip_address
      → agree ops (ops.ipa_and a (ops.ipa_mkmask n)) a n ≡ true
  masked-agree a n small = agree-intro ops (ops.ipa_and a (ops.ipa_mkmask n)) a n (λ i less.
      let inside : i < ops.bits_per_ip_address = omega arith in
      laws.and_bit a (ops.ipa_mkmask n) i inside
      ∙ rw (laws.mkmask_bit n i small inside, lt→ltb i n less) (and_one (ops.ipa_getbit a i)))

  abbrev adding : (px : ops.Ip) (plen l h : ℕ) → plen ≤ ops.bits_per_ip_address → Adding ops
  adding px plen l h small = record {
    px = px;
    paddr = ops.ipa_and px (ops.ipa_mkmask plen);
    pmask = ops.ipa_mkmask plen;
    amask = ops.ipa_xor (ops.ipa_mkmask (l - 1)) (ops.ipa_mkmask h);
    plen = plen;
    fits = small;
    masked = λ i less. laws.mkmask_bit plen i small less;
    front = λ i less.
        agree-bit ops (ops.ipa_and px (ops.ipa_mkmask plen)) px plen i (masked-agree px plen small)
          less;
  }

  -- Masking both addresses changes nothing on the bits of both masks.
  agree-masked :
      (a b : ops.Ip) (k n m : ℕ)
      → k ≤ ops.bits_per_ip_address
      → n ≤ ops.bits_per_ip_address
      → m ≤ k
      → m ≤ n
      → agree ops (ops.ipa_and a (ops.ipa_mkmask k)) (ops.ipa_and b (ops.ipa_mkmask n)) m
        ≡ agree ops a b m
  agree-masked a b k n m hk hn mk mn =
      agree-subst ops (ops.ipa_and a (ops.ipa_mkmask k)) (ops.ipa_and b (ops.ipa_mkmask n)) b m n mn
        (masked-agree b n hn)
      ∙ agree_comm (ops.ipa_and a (ops.ipa_mkmask k)) b m
      ∙ agree-subst ops b (ops.ipa_and a (ops.ipa_mkmask k)) a m k mk (masked-agree a k hk)
      ∙ agree_comm b a m

  -- The masks of a pattern answer as the pattern does.
  pattern_accepts_lem :
      (px q : ops.Ip) (plen l h k : ℕ)
      → 0 < k
      → k ≤ ops.bits_per_ip_address
      → plen ≤ ops.bits_per_ip_address
      → l ≤ h
      → h ≤ ops.bits_per_ip_address
      → pattern_accepts ops
          (ops.ipa_xor (ops.ipa_mkmask (l - 1)) (ops.ipa_mkmask h))
          (ops.ipa_and px (ops.ipa_mkmask (lesser plen h)))
          (lesser plen h)
          (ops.ipa_and q (ops.ipa_mkmask k))
          k
        ≡ prefix_matches ops px plen l h q k
  pattern_accepts_lem px q plen l h k pos small fits le most =
      let bit : ops.ipa_getbit (ops.ipa_xor (ops.ipa_mkmask (l - 1)) (ops.ipa_mkmask h)) (k - 1)
          ≡ (leb l k && leb k h) =
        laws.xor_bit (ops.ipa_mkmask (l - 1)) (ops.ipa_mkmask h) (k - 1) (omega arith)
        ∙ rw
            (
              laws.mkmask_bit (l - 1) (k - 1) (omega arith) (omega arith),
              laws.mkmask_bit h (k - 1) most (omega arith),
            )
            (xor-bounds k l h pos le) in
      let along =
        agree-masked q px k (lesser plen h) (lesser k (lesser plen h)) small (ground arith)
          (ground arith) (ground arith) in
      rw (bit, along)
        (elim (Bool-cases (leb k h)) [
          | inl y ↦
              let length : lesser k (lesser plen h) ≡ lesser k plen = ground arith in
              rw length (and_comm (leb l k && leb k h) (agree ops q px (lesser k plen)))
          | inr n ↦ rw n (off (leb l k) _ _)
        ])

  pub IsTrie-f_new_trie : IsTrie ops laws (f_new_trie ops)
  IsTrie-f_new_trie =
      (refl, (omega arith, λ i less. laws.none_bit i less ∙ ground arith, tt, tt, tt, tt))

  -- A query of the trie at a length is one of its root.
  pub trie_match_prefix-root :
      (t : Trie ops.Ip) (q : ops.Ip) (k : ℕ)
      → IsTrie ops laws t
      → 0 < k
      → k ≤ ops.bits_per_ip_address
      → trie_match_prefix ops t q k ≡ accepts ops (ops.ipa_and q (ops.ipa_mkmask k)) k t.root
  unfolding trie_match_prefix
  trie_match_prefix-root t q k good pos small =
      let some_bits : (k == 0) ≡ false = ground arith in
      rw some_bits (
        match_walk_lem ops laws (ops.ipa_and q (ops.ipa_mkmask k)) (ops.ipa_mkmask k) k t.root small
          (λ i less. laws.mkmask_bit k i small less) good.1)

  -- What `trie_add_prefix` leaves.
  abbrev pub AddsPattern : Trie ops.Ip → ops.Ip → ℕ → ℕ → ℕ → Trie ops.Ip → Type 0
  AddsPattern t px plen l h t' =
      (q : ops.Ip) (k : ℕ)
      → k ≤ ops.bits_per_ip_address
      → trie_match_prefix ops t' q k
        ≡ (trie_match_prefix ops t q k || prefix_matches ops px plen l h q k)

  trie_add_prefix-kept :
      (t : Trie ops.Ip) (px : ops.Ip) (plen l h : ℕ)
      (small : lesser plen h ≤ ops.bits_per_ip_address) (r : TrieNode ops.Ip)
      → walk ops laws (adding px (lesser plen h) l h small) t.root ≡ kept r
      → trie_add_prefix ops t px plen l h
        ≡ ok (record { zero_accepted = l == 0 || t.zero_accepted; root = r })
  unfolding trie_add_prefix
  trie_add_prefix-kept t px plen l h small r walked = rw (trie_add_prefix, walked) refl

  -- The prefix of length 0 matches exactly the patterns whose lower bound is 0.
  AddsPattern-zero :
      (t : Trie ops.Ip) (px : ops.Ip) (plen l h : ℕ) (r : TrieNode ops.Ip) (q : ops.Ip) (k : ℕ)
      → k ≡ 0
      → trie_match_prefix ops (record { zero_accepted = l == 0 || t.zero_accepted; root = r }) q k
        ≡ (trie_match_prefix ops t q k || prefix_matches ops px plen l h q k)
  unfolding trie_match_prefix
  AddsPattern-zero t px plen l h r q zero e =
      let none : agree ops q px (lesser 0 plen) ≡ true =
        ap (λ (n : ℕ). agree ops q px n) {x = lesser 0 plen} {y = 0} (ground arith) in
      rw none (zero_bounds l h t.zero_accepted)
  AddsPattern-zero t px plen l h r q (suc k) e = absurd (omega arith)

  AddsPattern-kept :
      (t : Trie ops.Ip) (px : ops.Ip) (plen l h : ℕ)
      → plen ≤ ops.bits_per_ip_address
      → l ≤ h
      → h ≤ ops.bits_per_ip_address
      → (small : lesser plen h ≤ ops.bits_per_ip_address) (r : TrieNode ops.Ip) → IsTrie ops laws t
      → IsRoot ops laws r
      → IsTrieNode ops r
      → Adds ops laws (adding px (lesser plen h) l h small) t.root r
      → AddsPattern t px plen l h (record { zero_accepted = l == 0 || t.zero_accepted; root = r })
  AddsPattern-kept t px plen l h fits le most small r good root shape adds q k few =
      elim (Bool-cases (k == 0)) [
        | inl y ↦ AddsPattern-zero t px plen l h r q k (ground arith)
        | inr n ↦
            let pos : 0 < k = ground arith in
            trie_match_prefix-root (record { zero_accepted = l == 0 || t.zero_accepted; root = r })
              q k (root, shape) pos few
            ∙ adds (ops.ipa_and q (ops.ipa_mkmask k)) k pos few
            ∙ rw
                (
                  trie_match_prefix-root t q k good pos few,
                  pattern_accepts_lem px q plen l h k pos few fits le most,
                )
                refl
      ]

  -- For the laws of the bits of addresses, a trie of the shape that f_new_trie has, and a
  -- pattern whose length and bounds are at most the length of an address and whose lower bound is
  -- not above the upper one, trie_add_prefix attaches every node to a parent, and trie_match_prefix
  -- on the trie that it leaves, which keeps the shape, answers 1 exactly for the prefixes for which it did before and those
  -- that match the pattern.
  pub trie_match_prefix-trie_add_prefix :
      (t : Trie ops.Ip) (px : ops.Ip) (plen l h : ℕ)
      → IsTrie ops laws t
      → plen ≤ ops.bits_per_ip_address
      → l ≤ h
      → h ≤ ops.bits_per_ip_address
      → (t' : Trie ops.Ip) × (trie_add_prefix ops t px plen l h ≡ ok t')
        × IsTrie ops laws t'
        × AddsPattern t px plen l h t'
  trie_match_prefix-trie_add_prefix t px plen l h good fits le most =
      let small : lesser plen h ≤ ops.bits_per_ip_address = ground arith in
      let (r, walked, root, shape, adds) =
        walk-IsRoot ops laws (adding px (lesser plen h) l h small) t.root good.0 good.1 in
      (
        record { zero_accepted = l == 0 || t.zero_accepted; root = r },
        trie_add_prefix-kept t px plen l h small r walked,
        (root, shape),
        AddsPattern-kept t px plen l h fits le most small r good root shape adds,
      )
