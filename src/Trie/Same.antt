-- ===== src/Trie/Same.antt =====
-- `trie_same` of filter/trie.c: tries that it calls the same accept the same prefixes.
use active_bgp_measurement.Base.{ℕ, ◌-◌, ◌≡◌, ◌≤◌, ◌<◌, not, refl, sym, ◌∙◌}
use active_bgp_measurement.Base.{true, ◌==◌, arith, Bool-cases, inl, inr}
use active_bgp_measurement.Trie.{
  IpOps, Trie, TrieNode, null, node, trie_match_prefix, trie_node_same, trie_same, xor,
}
use active_bgp_measurement.Trie.Bits.{IpLaws, agree-intro, agree-subst, lesser, and-true, xor-false}
use active_bgp_measurement.Trie.Walk.{accepts, IsTrieNode}
use active_bgp_measurement.Trie.Correct.{IsTrie}
use active_bgp_measurement.Trie.Add.{trie_match_prefix-root}

module _ (ops : IpOps) (laws : IpLaws ops) where
  -- What equal nodes have in common.
  trie_node_same-node :
      (plen plen' : ℕ) (addr addr' mask mask' accept accept' : ops.Ip)
      (c0 c1 c0' c1' : TrieNode ops.Ip)
      → trie_node_same ops
          (node plen addr mask accept c0 c1)
          (node plen' addr' mask' accept' c0' c1')
        ≡ true
      → (plen ≡ plen')
        × (ops.ipa_equal addr addr' ≡ true)
        × (ops.ipa_equal accept accept' ≡ true)
        × (trie_node_same ops c0 c0' ≡ true)
        × (trie_node_same ops c1 c1' ≡ true)
  unfolding trie_node_same
  trie_node_same-node plen plen' addr addr' mask mask' accept accept' c0 c1 c0' c1' h =
      (ground arith, ground arith, ground arith, ground arith, ground arith)

  accepts-same :
      (t t' : TrieNode ops.Ip) (q : ops.Ip) (k : ℕ)
      → trie_node_same ops t t' ≡ true
      → IsTrieNode ops t
      → 0 < k
      → k ≤ ops.bits_per_ip_address
      → accepts ops q k t ≡ accepts ops q k t'
  unfolding trie_node_same
  accepts-same null null q k h good pos small = refl
  accepts-same null (node plen addr mask accept c0 c1) q k h good pos small = ground arith
  accepts-same (node plen addr mask accept c0 c1) null q k h good pos small = ground arith
  accepts-same (node plen addr mask accept c0 c1) (node plen' addr' mask' accept' c0' c1') q k h
        good pos small =
      let (len, addrs, accepts', same0, same1) =
        trie_node_same-node plen plen' addr addr' mask mask' accept accept' c0 c1 c0' c1' h in
      let bit = (laws.equal_iff accept accept').0 accepts' (k - 1) (omega arith) in
      let front =
        agree-intro ops addr addr' plen
          (λ i less. (laws.equal_iff addr addr').0 addrs i (omega arith)) in
      rw
        (
          agree-subst ops q addr addr' (lesser k plen) plen (ground arith) front,
          bit,
          accepts-same c0 c0' q k same0 good.4 pos small,
          accepts-same c1 c1' q k same1 good.5 pos small,
          len,
        )
        refl

  -- For the laws of the bits of addresses: two tries of the shape that f_new_trie has and
  -- trie_add_prefix keeps, which trie_same calls the same, answer alike for every prefix whose length
  -- is at most that of an address.
  pub trie_match_prefix-trie_same :
      (t t' : Trie ops.Ip)
      → IsTrie ops laws t
      → IsTrie ops laws t'
      → trie_same ops t t' ≡ true
      → (q : ops.Ip) (k : ℕ) → k ≤ ops.bits_per_ip_address
      → trie_match_prefix ops t q k ≡ trie_match_prefix ops t' q k
  unfolding trie_match_prefix trie_same
  trie_match_prefix-trie_same t t' good good' h q k small =
      let (zeros, roots) = and-true (not (xor t.zero_accepted t'.zero_accepted)) _ h in
      elim (Bool-cases (k == 0)) [
        | inl y ↦ rw y (xor-false t.zero_accepted t'.zero_accepted zeros)
        | inr n ↦
            let pos : 0 < k = ground arith in
            trie_match_prefix-root ops laws t q k good pos small
            ∙ accepts-same t.root t'.root _ k roots good.1 pos small
            ∙ sym (trie_match_prefix-root ops laws t' q k good' pos small)
      ]
