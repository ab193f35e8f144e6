-- ===== src/Trie/Correct.antt =====
-- `trie_add_prefix` of filter/trie.c adds exactly its pattern to what `trie_match_prefix` accepts.
use active_bgp_measurement.Base.{ℕ, ◌≡◌, ◌≤◌, ◌<◌, sym, ap, subst}
use active_bgp_measurement.Base.{Bool, true, false, ltb, arith, ltb→lt, Bool-cases, inl, inr}
use active_bgp_measurement.Trie.{IpOps, TrieNode, null, node, Placed, kept, Trie}
use active_bgp_measurement.Trie.Bits.{IpLaws, agree, agree-le, lesser}
use active_bgp_measurement.Trie.Walk.{IsTrieNode, Under}
use active_bgp_measurement.Trie.Shape.{placed_node, IsChild, Under-other}
use active_bgp_measurement.Trie.Along.{
  Adding, Adds, walk, Grown, Stays, walk-null, walk-at_length, walk-deeper,
}
use active_bgp_measurement.Trie.Ahead.{walk-between, walk-branch}

module _ (ops : IpOps) (laws : IpLaws ops) where
  -- A node that stays is the child that it was.
  Stays-Grown :
      (p : Adding ops) (d nplen : ℕ) (addr mask : ops.Ip) (t : TrieNode ops.Ip)
      → d < nplen
      → agree ops addr p.paddr d ≡ true
      → ops.ipa_getbit addr d ≡ ops.ipa_getbit p.paddr d
      → Stays ops laws p nplen addr mask t
      → Grown ops laws p d t
  Stays-Grown p d nplen addr mask t less same bit (a, (d0, (d1, walked, good, adds))) =
      subst
        (λ (r : Placed ops.Ip).
          IsChild ops d p.paddr (placed_node ops r)
          × IsTrieNode ops (placed_node ops r)
          × Adds ops laws p t (placed_node ops r))
        (sym walked) ((less, same, bit), good, adds)

  -- On the path and not beyond the pattern a node stays.
  stays :
      (p : Adding ops) (addr mask accept : ops.Ip) (c0 c1 : TrieNode ops.Ip) (nplen : ℕ)
      → IsTrieNode ops (node nplen addr mask accept c0 c1)
      → agree ops p.paddr addr nplen ≡ true
      → nplen ≤ p.plen
      → (nplen < p.plen
          → Under ops nplen p.paddr (ops.ipa_getbit p.paddr nplen) c0
          → IsTrieNode ops c0
          → Grown ops laws p nplen c0)
      → (nplen < p.plen
          → Under ops nplen p.paddr (ops.ipa_getbit p.paddr nplen) c1
          → IsTrieNode ops c1
          → Grown ops laws p nplen c1)
      → Stays ops laws p nplen addr mask (node nplen addr mask accept c0 c1)
  stays p addr mask accept c0 c1 nplen h same most grow0 grow1 =
      elim (Bool-cases (ltb nplen p.plen)) [
        | inl y ↦
            let less = ltb→lt nplen p.plen y in
            let at : (s : Bool) (c : TrieNode ops.Ip)
                → ops.ipa_getbit p.paddr nplen ≡ s
                → Under ops nplen addr s c
                → Under ops nplen p.paddr (ops.ipa_getbit p.paddr nplen) c =
              λ s c e under.
                subst (λ (b : Bool). Under ops nplen p.paddr b c) (sym e)
                  (Under-other ops p.paddr addr nplen s c same under) in
            walk-deeper ops laws p addr mask accept c0 c1 nplen h same less
              (λ e. grow1 less (at true c1 e h.3) h.5) (λ e. grow0 less (at false c0 e h.2) h.4)
        | inr n ↦
            let equal : p.plen ≡ nplen = ground arith in
            subst
              (λ (m : ℕ).
                IsTrieNode ops (node m addr mask accept c0 c1)
                → agree ops p.paddr addr m ≡ true
                → Stays ops laws p m addr mask (node m addr mask accept c0 c1))
              equal (walk-at_length ops laws p addr mask accept c0 c1) h same
      ]

  grown :
      (p : Adding ops) (t : TrieNode ops.Ip) (d : ℕ)
      → d < p.plen
      → Under ops d p.paddr (ops.ipa_getbit p.paddr d) t
      → IsTrieNode ops t
      → Grown ops laws p d t
  grown p null d less under h = walk-null ops laws p d less
  grown p (node nplen addr mask accept c0 c1) d less under h =
      elim (Bool-cases (agree ops p.paddr addr (lesser p.plen nplen))) [
        | inr off ↦ walk-branch ops laws p d addr mask accept c0 c1 nplen h under.1 under.2 off
        | inl on ↦ elim (Bool-cases (ltb p.plen nplen)) [
          | inl longer ↦
              walk-between ops laws p d addr mask accept c0 c1 nplen less h
                (agree-le ops p.paddr addr p.plen (lesser p.plen nplen) (ground arith) on)
                (ltb→lt p.plen nplen longer)
          | inr shorter ↦
              Stays-Grown p d nplen addr mask (node nplen addr mask accept c0 c1) under.0 under.1
                under.2
                (stays p addr mask accept c0 c1 nplen h
                  (agree-le ops p.paddr addr nplen (lesser p.plen nplen) (ground arith) on)
                  (ground arith) (grown p c0 nplen) (grown p c1 nplen))
        ]
      ]

  -- A trie: its root is a node of length 0.
  abbrev pub IsRoot : TrieNode ops.Ip → Type 0
  IsRoot null = true ≡ false
  IsRoot (node plen addr mask accept c0 c1) = plen ≡ 0

  abbrev pub IsTrie : Trie ops.Ip → Type 0
  IsTrie t = IsRoot t.root × IsTrieNode ops t.root

  -- The walk from the root leaves the root in its place.
  pub walk-IsRoot :
      (p : Adding ops) (t : TrieNode ops.Ip)
      → IsRoot t
      → IsTrieNode ops t
      → (r : TrieNode ops.Ip) × (walk ops laws p t ≡ kept r)
        × IsRoot r
        × IsTrieNode ops r
        × Adds ops laws p t r
  walk-IsRoot p null root h = absurd (ground (arith, root))
  walk-IsRoot p (node nplen addr mask accept c0 c1) root h =
      let (a, (d0, (d1, walked, good, adds))) =
        stays p addr mask accept c0 c1 nplen h (ap (λ (n : ℕ). agree ops p.paddr addr n) root)
          (omega arith) (grown p c0 nplen) (grown p c1 nplen) in
      (node nplen addr mask a d0 d1, walked, root, good, adds)
