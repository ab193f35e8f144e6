-- ===== src/Trie/Ahead.antt =====
-- The walk of `trie_add_prefix` of filter/trie.c at a node that the pattern does not extend: a node is
-- put in front of it.
use active_bgp_measurement.Base.{ℕ, suc, ◌≡◌, ◌≤◌, ◌<◌, ◌&&◌, not, refl, sym, ◌∙◌, subst}
use active_bgp_measurement.Base.{
  Bool, true, false, ltb, arith, ltb→lt, lt→ltb, Bool-cases, inl, inr,
}
use active_bgp_measurement.Trie.{
  IpOps, TrieNode, null, node, Placed, attached, new_node, attach_node, branch, add_walk,
  out_of_path,
}
use active_bgp_measurement.Trie.Bits.{
  IpLaws, agree, agree-bit, agree-intro, agree-le, agree_sym, agree-subst, lesser, xor_self,
  not_self,
}
use active_bgp_measurement.Trie.Walk.{IsMask, IsTrieNode, Under, out_of_path_lem}
use active_bgp_measurement.Trie.Split.{
  two_children, accepts-between, accepts-branch, attach_node-between, branch-two_children,
}
use active_bgp_measurement.Trie.Shape.{placed_node, IsChild}
use active_bgp_measurement.Trie.Along.{Adding, Adds, walk, Grown, on-path}

and_one : (x : Bool) → (x && true) ≡ x
and_one x = ground arith

module _ (ops : IpOps) (laws : IpLaws ops) (p : Adding ops) where
  -- A node with two children in their slots.
  IsTrieNode-two_children :
      (plen : ℕ) (addr mask accept : ops.Ip) (s : Bool) (c d : TrieNode ops.Ip)
      → plen ≤ ops.bits_per_ip_address
      → IsMask ops mask plen
      → Under ops plen addr s c
      → Under ops plen addr (not s) d
      → IsTrieNode ops c
      → IsTrieNode ops d
      → IsTrieNode ops (two_children ops laws plen addr mask accept s c d)
  IsTrieNode-two_children plen addr mask accept true c d small hm hc hd gc gd =
      (small, hm, hd, hc, gd, gc)
  IsTrieNode-two_children plen addr mask accept false c d small hm hc hd gc gd =
      (small, hm, hc, hd, gc, gd)

  IsChild-two_children :
      (d plen : ℕ) (paddr addr mask accept : ops.Ip) (s : Bool) (c c' : TrieNode ops.Ip)
      → d < plen
      → agree ops addr paddr plen ≡ true
      → IsChild ops d paddr (two_children ops laws plen addr mask accept s c c')
  IsChild-two_children d plen paddr addr mask accept true c c' less same = (
    less,
    agree-le ops addr paddr d plen (omega arith) same,
    agree-bit ops addr paddr plen d same less,
  )
  IsChild-two_children d plen paddr addr mask accept false c c' less same = (
    less,
    agree-le ops addr paddr d plen (omega arith) same,
    agree-bit ops addr paddr plen d same less,
  )

  pub walk-between :
      (d : ℕ) (addr mask accept : ops.Ip) (c0 c1 : TrieNode ops.Ip) (nplen : ℕ)
      → d < p.plen
      → IsTrieNode ops (node nplen addr mask accept c0 c1)
      → agree ops p.paddr addr p.plen ≡ true
      → p.plen < nplen
      → Grown ops laws p d (node nplen addr mask accept c0 c1)
  unfolding add_walk
  walk-between d addr mask accept c0 c1 nplen less h same longer =
      let n = node nplen addr mask accept c0 c1 in
      let on =
        on-path ops laws p addr mask nplen h.0 h.1
          (agree-le ops p.paddr addr (lesser p.plen nplen) p.plen (ground arith) same) in
      let accept' = ops.ipa_or p.amask (ops.ipa_and accept p.pmask) in
      let shorter : ltb p.plen nplen ≡ true = ground arith in
      let walked : walk ops laws p n
          ≡ attached (attach_node ops (new_node ops p.plen p.paddr p.pmask accept') n) =
        rw (add_walk, on, shorter) refl in
      subst
        (λ (r : Placed ops.Ip).
          IsChild ops d p.paddr (placed_node ops r)
          × IsTrieNode ops (placed_node ops r)
          × Adds ops laws p n (placed_node ops r))
        (sym walked)
        (
          subst (λ (r : TrieNode ops.Ip). IsChild ops d p.paddr r)
              (sym (
                attach_node-between ops laws p.paddr p.pmask accept' addr mask accept c0 c1 p.plen
                  nplen))
              (IsChild-two_children d p.plen p.paddr p.paddr p.pmask accept'
                (ops.ipa_getbit addr p.plen) n null less
                (agree-intro ops p.paddr p.paddr p.plen (λ i k. refl))),
          subst (λ (r : TrieNode ops.Ip). IsTrieNode ops r)
              (sym (
                attach_node-between ops laws p.paddr p.pmask accept' addr mask accept c0 c1 p.plen
                  nplen))
              (IsTrieNode-two_children p.plen p.paddr p.pmask accept' (ops.ipa_getbit addr p.plen) n
                null p.fits p.masked (longer, agree_sym ops p.paddr addr p.plen same, refl) tt h
                tt),
          λ q k pos small.
              accepts-between ops laws q p.paddr p.pmask p.amask addr mask accept c0 c1 k p.plen
                nplen pos small p.masked same longer,
        )

  -- The first bit in which the addresses differ is one of both, and behind the parent's.
  parting :
      (addr : ops.Ip) (nplen : ℕ)
      → agree ops p.paddr addr (lesser p.plen nplen) ≡ false
      → ops.ipa_pxlen p.paddr addr < lesser p.plen nplen
  parting addr nplen off =
      let blen = ops.ipa_pxlen p.paddr addr in
      elim (Bool-cases (ltb blen (lesser p.plen nplen))) [
        | inl y ↦ ltb→lt blen (lesser p.plen nplen) y
        | inr n ↦ absurd (
            ground (
              arith,
              off,
              agree-le ops p.paddr addr (lesser p.plen nplen) blen (ground arith)
                  (agree-intro ops p.paddr addr blen (laws.pxlen_same p.paddr addr)),
            ))
      ]

  parting-behind :
      (d : ℕ) (addr : ops.Ip)
      → ops.ipa_pxlen p.paddr addr < ops.bits_per_ip_address
      → agree ops addr p.paddr d ≡ true
      → ops.ipa_getbit addr d ≡ ops.ipa_getbit p.paddr d
      → d < ops.ipa_pxlen p.paddr addr
  parting-behind d addr small same bit =
      let blen = ops.ipa_pxlen p.paddr addr in
      elim (Bool-cases (ltb d blen)) [
        | inl y ↦ ltb→lt d blen y
        | inr n ↦
            let equal : ops.ipa_getbit addr blen ≡ ops.ipa_getbit p.paddr blen =
              agree-bit ops addr p.paddr (suc d) blen
                (rw (same, bit) (xor_self (ops.ipa_getbit p.paddr d))) (ground arith) in
            absurd (ground (arith, not_self _ _ (sym equal) (laws.pxlen_differ p.paddr addr small)))
      ]

  -- The address of a branching node agrees with the pattern.
  branch-front :
      (blen : ℕ)
      → blen < p.plen
      → agree ops (ops.ipa_and p.px (ops.ipa_mkmask blen)) p.paddr blen ≡ true
  branch-front blen less =
      agree-intro ops (ops.ipa_and p.px (ops.ipa_mkmask blen)) p.paddr blen (λ i k.
        let fits = p.fits in
        let small : i < ops.bits_per_ip_address = omega arith in
        let inside : ltb i blen ≡ true = lt→ltb i blen k in
        laws.and_bit p.px (ops.ipa_mkmask blen) i small
        ∙ rw (laws.mkmask_bit blen i (omega arith) small, inside, p.front i (omega arith))
            (and_one (ops.ipa_getbit p.px i)))

  pub walk-branch :
      (d : ℕ) (addr mask accept : ops.Ip) (c0 c1 : TrieNode ops.Ip) (nplen : ℕ)
      → IsTrieNode ops (node nplen addr mask accept c0 c1)
      → agree ops addr p.paddr d ≡ true
      → ops.ipa_getbit addr d ≡ ops.ipa_getbit p.paddr d
      → agree ops p.paddr addr (lesser p.plen nplen) ≡ false
      → Grown ops laws p d (node nplen addr mask accept c0 c1)
  unfolding add_walk
  walk-branch d addr mask accept c0 c1 nplen h same bit off =
      let n = node nplen addr mask accept c0 c1 in
      let a = new_node ops p.plen p.paddr p.pmask p.amask in
      let fits = p.fits in
      let blen = ops.ipa_pxlen p.paddr addr in
      let bmask = ops.ipa_mkmask blen in
      let first = parting addr nplen off in
      let less : blen < p.plen = ground arith in
      let less' : blen < nplen = ground arith in
      let small : blen < ops.bits_per_ip_address = omega arith in
      let differ = laws.pxlen_differ p.paddr addr small in
      let apart : out_of_path ops p.paddr p.pmask addr mask ≡ true =
        out_of_path_lem ops laws p.paddr addr p.pmask mask p.plen nplen p.fits h.0 p.masked h.1
        ∙ rw off refl in
      let b = branch ops p.px p.plen p.paddr p.pmask p.amask nplen addr mask accept c0 c1 in
      let walked : walk ops laws p n ≡ attached b = rw (add_walk, apart) refl in
      let shape =
        branch-two_children ops laws p.px p.paddr p.pmask p.amask addr mask accept c0 c1 p.plen
          nplen differ in
      let along = agree-intro ops p.paddr addr blen (laws.pxlen_same p.paddr addr) in
      let front = branch-front blen less in
      let baddr = ops.ipa_and p.px bmask in
      subst
        (λ (r : Placed ops.Ip).
          IsChild ops d p.paddr (placed_node ops r)
          × IsTrieNode ops (placed_node ops r)
          × Adds ops laws p n (placed_node ops r))
        (sym walked)
        (
          subst (λ (r : TrieNode ops.Ip). IsChild ops d p.paddr r) (sym shape)
              (IsChild-two_children d blen p.paddr baddr bmask _ (ops.ipa_getbit addr blen) n a
                (parting-behind d addr small same bit) front),
          subst (λ (r : TrieNode ops.Ip). IsTrieNode ops r) (sym shape)
              (IsTrieNode-two_children blen baddr bmask _ (ops.ipa_getbit addr blen) n a
                (omega arith) (λ i k. laws.mkmask_bit blen i (omega arith) k)
                (
                  less',
                  agree-subst ops addr baddr p.paddr blen blen (omega arith) front
                      ∙ agree_sym ops p.paddr addr blen along,
                  refl,
                )
                (less, agree_sym ops baddr p.paddr blen front, differ) h
                (p.fits, p.masked, tt, tt, tt, tt)),
          λ q k pos small'.
              accepts-branch ops laws q p.px p.paddr p.pmask p.amask addr mask accept c0 c1 k p.plen
                nplen pos small' p.fits front less less',
        )
