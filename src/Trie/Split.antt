-- ===== src/Trie/Split.antt =====
-- What the nodes accept that `trie_add_prefix` of filter/trie.c puts in front of others.
use active_bgp_measurement.Base.{ℕ, ◌-◌, ◌≡◌, ◌≤◌, ◌<◌, ◌||◌, ◌&&◌, not, refl, sym, ap, ◌∙◌}
use active_bgp_measurement.Base.{
  Bool, true, false, ltb, if◌then◌else◌, arith, ltb→lt, Bool-cases, inl, inr,
}
use active_bgp_measurement.Trie.{IpOps, TrieNode, null, node, new_node, attach_node, branch, xor}
use active_bgp_measurement.Trie.Bits.{
  IpLaws, agree, agree-intro, agree_sym, agree-subst, agree-differ, lesser,
}
use active_bgp_measurement.Trie.Walk.{IsMask, accepts}
use active_bgp_measurement.Trie.Masks.{between, branching}
use active_bgp_measurement.Trie.Place.{both_short, agree-shorter, pattern_accepts, accepts-new_node}

apart_not : (x y : Bool) → not (xor x y) ≡ false → x ≡ not y
apart_not true y h = sym (ground arith)
apart_not false y h = ground arith

apart_by : (x y z : Bool) → not (xor x y) ≡ true → z ≡ not y → x ≡ not z
apart_by true true z h e = ground arith
apart_by true false z h e = ground arith
apart_by false true z h e = ground arith
apart_by false false z h e = ground arith

or_none : (x y : Bool) → x ≡ (x || (y && false))
or_none x y = ground arith

module _ (ops : IpOps) (laws : IpLaws ops) where
  -- The children of a node, of which the slot `s` has the first.
  abbrev pub two_children :
      ℕ → ops.Ip → ops.Ip → ops.Ip → Bool → TrieNode ops.Ip → TrieNode ops.Ip → TrieNode ops.Ip
  two_children plen addr mask accept s c d =
      if s then node plen addr mask accept d c else node plen addr mask accept c d

  accepts-two_children :
      (q addr mask accept : ops.Ip) (s : Bool) (c d : TrieNode ops.Ip) (k plen : ℕ)
      → accepts ops q k (two_children plen addr mask accept s c d) ≡ (
          agree ops q addr (lesser k plen)
          && (ops.ipa_getbit accept (k - 1)
              || (ltb plen k
                  && (if not (xor (ops.ipa_getbit q plen) s)
                      then accepts ops q k c
                      else accepts ops q k d))))
  accepts-two_children q addr mask accept true c d k plen =
      elim (Bool-cases (ops.ipa_getbit q plen)) [ inl y ↦ rw y refl | inr n ↦ rw n refl ]
  accepts-two_children q addr mask accept false c d k plen =
      elim (Bool-cases (ops.ipa_getbit q plen)) [ inl y ↦ rw y refl | inr n ↦ rw n refl ]

  -- A node whose slot differs from the query's bit does not accept the query.
  accepts-other_slot :
      (q addr mask accept : ops.Ip) (c0 c1 : TrieNode ops.Ip) (k nplen i : ℕ)
      → i < k
      → i < nplen
      → not (xor (ops.ipa_getbit q i) (ops.ipa_getbit addr i)) ≡ false
      → accepts ops q k (node nplen addr mask accept c0 c1) ≡ false
  accepts-other_slot q addr mask accept c0 c1 k nplen i hk hn apart =
      rw (agree-differ ops q addr (lesser k nplen) i (ground arith) (apart_not _ _ apart)) refl

  pub attach_node-between :
      (paddr pmask accept' addr mask accept : ops.Ip) (c0 c1 : TrieNode ops.Ip) (plen nplen : ℕ)
      → attach_node ops (new_node ops plen paddr pmask accept') (node nplen addr mask accept c0 c1)
        ≡ two_children plen paddr pmask accept'
            (ops.ipa_getbit addr plen)
            (node nplen addr mask accept c0 c1)
            null
  unfolding attach_node
  attach_node-between paddr pmask accept' addr mask accept c0 c1 plen nplen = refl

  -- A node in front of one that extends it accepts what that and the pattern accept.
  pub accepts-between :
      (q paddr pmask amask addr mask accept : ops.Ip) (c0 c1 : TrieNode ops.Ip) (k plen nplen : ℕ)
      → 0 < k
      → k ≤ ops.bits_per_ip_address
      → IsMask ops pmask plen
      → agree ops paddr addr plen ≡ true
      → plen < nplen
      → accepts ops q k (
          attach_node ops
            (new_node ops plen paddr pmask (ops.ipa_or amask (ops.ipa_and accept pmask)))
            (node nplen addr mask accept c0 c1))
        ≡ (accepts ops q k (node nplen addr mask accept c0 c1)
            || pattern_accepts ops amask paddr plen q k)
  accepts-between q paddr pmask amask addr mask accept c0 c1 k plen nplen pos small hm same less =
      let n = node nplen addr mask accept c0 c1 in
      let accept' = ops.ipa_or amask (ops.ipa_and accept pmask) in
      ap (λ (t : TrieNode ops.Ip). accepts ops q k t)
        (attach_node-between paddr pmask accept' addr mask accept c0 c1 plen nplen)
      ∙ accepts-two_children q paddr pmask accept' (ops.ipa_getbit addr plen) n null k plen
      ∙ rw
          (
            laws.or_bit amask (ops.ipa_and accept pmask) (k - 1) (omega arith),
            laws.and_bit accept pmask (k - 1) (omega arith),
            hm (k - 1) (omega arith),
          )
          (between (agree ops q addr (lesser k nplen)) (ops.ipa_getbit accept (k - 1))
            (ops.ipa_getbit amask (k - 1)) (agree ops q paddr (lesser k plen))
            (if ops.ipa_getbit q nplen then accepts ops q k c1 else accepts ops q k c0) _ k plen
            nplen pos less
            (λ short.
              both_short ops laws q addr paddr k nplen plen (agree_sym ops paddr addr plen same)
                (omega arith) (ground arith))
            (λ long.
              elim (Bool-cases (not (xor (ops.ipa_getbit q plen) (ops.ipa_getbit addr plen)))) [
                | inl y ↦ rw y refl
                | inr apart ↦ rw apart (
                    sym (
                      accepts-other_slot q addr mask accept c0 c1 k nplen plen (ltb→lt plen k long)
                        less apart))
              ])
            (agree-shorter ops q addr paddr k nplen plen same (omega arith)))

  -- The branching node has the old node in the slot of its bit, and the new one in the other.
  pub branch-two_children :
      (px paddr pmask amask addr mask accept : ops.Ip) (c0 c1 : TrieNode ops.Ip) (plen nplen : ℕ)
      → ops.ipa_getbit paddr (ops.ipa_pxlen paddr addr)
        ≡ not (ops.ipa_getbit addr (ops.ipa_pxlen paddr addr))
      → let blen = ops.ipa_pxlen paddr addr in
        let bmask = ops.ipa_mkmask blen in
        branch ops px plen paddr pmask amask nplen addr mask accept c0 c1
        ≡ two_children blen
            (ops.ipa_and px bmask)
            bmask
            (ops.ipa_and (ops.ipa_or amask accept) bmask)
            (ops.ipa_getbit addr blen)
            (node nplen addr mask accept c0 c1)
            (new_node ops plen paddr pmask amask)
  unfolding attach_node
  branch-two_children px paddr pmask amask addr mask accept c0 c1 plen nplen differ =
      elim (Bool-cases (ops.ipa_getbit addr (ops.ipa_pxlen paddr addr))) [
        | inl y ↦
            let new : ops.ipa_getbit paddr (ops.ipa_pxlen paddr addr) ≡ false = ground arith in
            rw (attach_node, y, new) refl
        | inr n ↦
            let new : ops.ipa_getbit paddr (ops.ipa_pxlen paddr addr) ≡ true = ground arith in
            rw (attach_node, n, new) refl
      ]

  -- Behind the bit at which the old node and the new one part, one of them is off the path.
  accepts-sides :
      (q paddr pmask amask addr mask accept : ops.Ip) (c0 c1 : TrieNode ops.Ip)
      (k plen nplen blen : ℕ)
      → blen < k
      → blen < plen
      → blen < nplen
      → ops.ipa_getbit paddr blen ≡ not (ops.ipa_getbit addr blen)
      → (if not (xor (ops.ipa_getbit q blen) (ops.ipa_getbit addr blen))
          then accepts ops q k (node nplen addr mask accept c0 c1)
          else accepts ops q k (new_node ops plen paddr pmask amask))
        ≡ (accepts ops q k (node nplen addr mask accept c0 c1)
            || pattern_accepts ops amask paddr plen q k)
  accepts-sides q paddr pmask amask addr mask accept c0 c1 k plen nplen blen hk less less' differ =
      elim (Bool-cases (not (xor (ops.ipa_getbit q blen) (ops.ipa_getbit addr blen)))) [
        | inl y ↦
            let off =
              agree-differ ops q paddr (lesser k plen) blen (ground arith)
                (apart_by _ _ _ y differ) in
            rw (y, off) (or_none (accepts ops q k (node nplen addr mask accept c0 c1)) _)
        | inr apart ↦
            rw
              (
                apart,
                accepts-other_slot q addr mask accept c0 c1 k nplen blen hk less' apart,
                accepts-new_node ops laws q paddr pmask amask k plen,
              )
              refl
      ]

  -- A branching node accepts what the old node and the pattern accept.
  pub accepts-branch :
      (q px paddr pmask amask addr mask accept : ops.Ip) (c0 c1 : TrieNode ops.Ip)
      (k plen nplen : ℕ)
      → 0 < k
      → k ≤ ops.bits_per_ip_address
      → plen ≤ ops.bits_per_ip_address
      → agree ops
          (ops.ipa_and px (ops.ipa_mkmask (ops.ipa_pxlen paddr addr)))
          paddr
          (ops.ipa_pxlen paddr addr)
        ≡ true
      → ops.ipa_pxlen paddr addr < plen
      → ops.ipa_pxlen paddr addr < nplen
      → accepts ops q k (branch ops px plen paddr pmask amask nplen addr mask accept c0 c1) ≡ (
          accepts ops q k (node nplen addr mask accept c0 c1)
          || pattern_accepts ops amask paddr plen q k)
  accepts-branch q px paddr pmask amask addr mask accept c0 c1 k plen nplen pos small fits same less
        less' =
      let n = node nplen addr mask accept c0 c1 in
      let a = new_node ops plen paddr pmask amask in
      let blen = ops.ipa_pxlen paddr addr in
      let bmask = ops.ipa_mkmask blen in
      let differ = laws.pxlen_differ paddr addr (omega arith) in
      let along = agree-intro ops paddr addr blen (laws.pxlen_same paddr addr) in
      let baddr = ops.ipa_and px bmask in
      let mid : agree ops baddr addr blen ≡ true =
        sym (agree-subst ops baddr paddr addr blen blen (omega arith) along) ∙ same in
      ap (λ (t : TrieNode ops.Ip). accepts ops q k t)
        (branch-two_children px paddr pmask amask addr mask accept c0 c1 plen nplen differ)
      ∙ accepts-two_children q baddr bmask _ (ops.ipa_getbit addr blen) n a k blen
      ∙ rw
          (
            laws.and_bit (ops.ipa_or amask accept) bmask (k - 1) (omega arith),
            laws.or_bit amask accept (k - 1) (omega arith),
            laws.mkmask_bit blen (k - 1) (omega arith) (omega arith),
          )
          (branching (agree ops q baddr (lesser k blen)) (agree ops q addr (lesser k nplen))
            (ops.ipa_getbit accept (k - 1)) (ops.ipa_getbit amask (k - 1))
            (agree ops q paddr (lesser k plen))
            (if ops.ipa_getbit q nplen then accepts ops q k c1 else accepts ops q k c0) _ k blen
            nplen pos less'
            (λ short. (
              both_short ops laws q addr baddr k nplen blen (agree_sym ops baddr addr blen mid)
                  (omega arith) (ground arith),
              both_short ops laws q paddr baddr k plen blen (agree_sym ops baddr paddr blen same)
                  (omega arith) (ground arith),
            ))
            (λ long.
              accepts-sides q paddr pmask amask addr mask accept c0 c1 k plen nplen blen
                (ltb→lt blen k long) less less' differ)
            (agree-shorter ops q addr baddr k nplen blen mid (omega arith))
            (agree-shorter ops q paddr baddr k plen blen same (omega arith)))
