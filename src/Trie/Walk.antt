-- ===== src/Trie/Walk.antt =====
-- The walk of filter/trie.c from node to node: the shape of a trie, and when a node is on the path.
use active_bgp_measurement.Base.{ℕ, ◌-◌, ◌≡◌, ◌≤◌, ◌<◌, ◌||◌, ◌&&◌, not, refl, sym, ◌∙◌}
use active_bgp_measurement.Base.{
  Bool, true, false, ltb, leb, if◌then◌else◌, arith, Bool-cases, inl, inr,
}
use active_bgp_measurement.Trie.{IpOps, TrieNode, null, node, out_of_path, match_walk}
use active_bgp_measurement.Trie.Bits.{IpLaws, agree, agree-bit, agree-intro, lesser}

module _ (ops : IpOps) where
  -- The first `n` bits.
  abbrev pub IsMask : ops.Ip → ℕ → Type 0
  IsMask mask n = (i : ℕ) → i < ops.bits_per_ip_address → ops.ipa_getbit mask i ≡ ltb i n

  -- A node that extends the first bits of an address by the bit of its slot.
  abbrev pub Under : ℕ → ops.Ip → Bool → TrieNode ops.Ip → Type 0
  Under plen addr slot null = Unit
  Under plen addr slot (node cplen caddr cmask caccept c0 c1) =
      (plen < cplen) × (agree ops caddr addr plen ≡ true) × (ops.ipa_getbit caddr plen ≡ slot)

  -- The shape of a trie: children are longer than their parents and stand in the slot of the bit at
  -- which the parent branches.
  abbrev pub IsTrieNode : TrieNode ops.Ip → Type 0
  IsTrieNode null = Unit
  IsTrieNode (node plen addr mask accept c0 c1) =
      (plen ≤ ops.bits_per_ip_address)
      × IsMask mask plen
      × Under plen addr false c0
      × Under plen addr true c1
      × IsTrieNode c0
      × IsTrieNode c1

  -- What the walk of `trie_match_prefix` computes.
  abbrev pub accepts : ops.Ip → ℕ → TrieNode ops.Ip → Bool
  accepts q k null = false
  accepts q k (node plen addr mask accept c0 c1) =
      agree ops q addr (lesser k plen)
      && (ops.ipa_getbit accept (k - 1)
          || (ltb plen k && (if ops.ipa_getbit q plen then accepts q k c1 else accepts q k c0)))

  masked_bit :
      IpLaws ops
      → (a amask bmask : ops.Ip) (m n i : ℕ) → IsMask amask m
      → IsMask bmask n
      → i < ops.bits_per_ip_address
      → ops.ipa_getbit (ops.ipa_and a (ops.ipa_and bmask amask)) i
        ≡ (ops.ipa_getbit a i && (ltb i n && ltb i m))
  masked_bit laws a amask bmask m n i am bm less =
      laws.and_bit a (ops.ipa_and bmask amask) i less
      ∙ rw (laws.and_bit bmask amask i less, am i less, bm i less) refl

  masked :
      IpLaws ops
      → (a b amask bmask : ops.Ip) (m n : ℕ) → IsMask amask m
      → IsMask bmask n
      → (i : ℕ) → i < ops.bits_per_ip_address
      → agree ops a b (lesser m n) ≡ true
      → ops.ipa_getbit (ops.ipa_and a (ops.ipa_and bmask amask)) i
        ≡ ops.ipa_getbit (ops.ipa_and b (ops.ipa_and bmask amask)) i
  masked laws a b amask bmask m n am bm i less y =
      masked_bit laws a amask bmask m n i am bm less
      ∙ elim (Bool-cases (ltb i n && ltb i m)) [
        | inl both ↦ rw (both, agree-bit ops a b (lesser m n) i y (ground arith)) refl
        | inr outside ↦ rw outside (ground arith)
      ]
      ∙ sym (masked_bit laws b amask bmask m n i am bm less)

  unmasked :
      IpLaws ops
      → (a b amask bmask : ops.Ip) (m n : ℕ) → m ≤ ops.bits_per_ip_address
      → n ≤ ops.bits_per_ip_address
      → IsMask amask m
      → IsMask bmask n
      → ops.ipa_equal
          (ops.ipa_and a (ops.ipa_and bmask amask))
          (ops.ipa_and b (ops.ipa_and bmask amask))
        ≡ true
      → (i : ℕ) → i < lesser m n
      → ops.ipa_getbit a i ≡ ops.ipa_getbit b i
  unmasked laws a b amask bmask m n hm hn am bm y i less =
      let inside : i < ops.bits_per_ip_address = ground arith in
      let both : (ltb i n && ltb i m) ≡ true = ground arith in
      let same = (laws.equal_iff _ _).0 y i inside in
      let left = masked_bit laws a amask bmask m n i am bm inside in
      let right = masked_bit laws b amask bmask m n i am bm inside in
      ground (arith, same, left, right, both)

  -- The addresses agree on the bits of both masks.
  pub out_of_path_lem :
      IpLaws ops
      → (a b amask bmask : ops.Ip) (m n : ℕ) → m ≤ ops.bits_per_ip_address
      → n ≤ ops.bits_per_ip_address
      → IsMask amask m
      → IsMask bmask n
      → out_of_path ops a amask b bmask ≡ not (agree ops a b (lesser m n))
  out_of_path_lem laws a b amask bmask m n hm hn am bm =
      let cmask = ops.ipa_and bmask amask in
      let equal = laws.equal_iff (ops.ipa_and a cmask) (ops.ipa_and b cmask) in
      elim (Bool-cases (agree ops a b (lesser m n))) [
        | inl y ↦ rw (y, equal.1 (λ i less. masked laws a b amask bmask m n am bm i less y)) refl
        | inr apart ↦
            elim (Bool-cases (ops.ipa_equal (ops.ipa_and a cmask) (ops.ipa_and b cmask))) [
              | inl y ↦ absurd (
                  ground (
                    arith,
                    apart,
                    agree-intro ops a b (lesser m n)
                        (unmasked laws a b amask bmask m n hm hn am bm y),
                  ))
              | inr different ↦ rw (apart, different) refl
            ]
      ]

  walked :
      (on bit below : Bool) (k plen : ℕ)
      → (if not on then false else (if bit then true else (if leb k plen then false else below)))
        ≡ (on && (bit || (ltb plen k && below)))
  walked on bit below k plen = ground arith

  pub match_walk_lem :
      IpLaws ops
      → (q pmask : ops.Ip) (k : ℕ) (t : TrieNode ops.Ip) → k ≤ ops.bits_per_ip_address
      → IsMask pmask k
      → IsTrieNode t
      → match_walk ops q pmask k t ≡ accepts q k t
  unfolding match_walk
  match_walk_lem laws q pmask k null hk hm h = refl
  match_walk_lem laws q pmask k (node plen addr mask accept c0 c1) hk hm h =
      rw
        (
          out_of_path_lem laws q addr pmask mask k plen hk h.0 hm h.1,
          match_walk_lem laws q pmask k c0 hk hm h.4,
          match_walk_lem laws q pmask k c1 hk hm h.5,
        )
        (walked (agree ops q addr (lesser k plen)) (ops.ipa_getbit accept (k - 1)) _ k plen)
