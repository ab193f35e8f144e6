-- ===== src/Trie/Shape.antt =====
-- The places that the walk of `trie_add_prefix` of filter/trie.c gives to nodes.
use active_bgp_measurement.Base.{ℕ, ◌≡◌, ◌<◌, refl, sym, ap, ◌∙◌}
use active_bgp_measurement.Base.{
  Bool, true, false, ltb, ◌==◌, if◌then◌else◌, arith, Bool-cases, inl, inr,
}
use active_bgp_measurement.Trie.{
  IpOps, TrieNode, null, node, Placed, kept, attached, attach_node, add_walk, out_of_path,
}
use active_bgp_measurement.Trie.Bits.{agree, agree-subst}
use active_bgp_measurement.Trie.Walk.{Under}

module _ (ops : IpOps) where
  abbrev pub placed_node : Placed ops.Ip → TrieNode ops.Ip
  placed_node (kept t) = t
  placed_node (attached t) = t

  -- A node that extends the first `d` bits of the address and its next bit.
  abbrev pub IsChild : ℕ → ops.Ip → TrieNode ops.Ip → Type 0
  IsChild d paddr null = true ≡ false
  IsChild d paddr (node plen addr mask accept c0 c1) =
      (d < plen)
      × (agree ops addr paddr d ≡ true)
      × (ops.ipa_getbit addr d ≡ ops.ipa_getbit paddr d)

  -- Attaching puts a child into the slot of the address.
  attach_node-IsChild :
      (paddr addr mask accept : ops.Ip) (c0 c1 c : TrieNode ops.Ip) (nplen : ℕ)
      → IsChild nplen paddr c
      → attach_node ops (node nplen addr mask accept c0 c1) c ≡ (
          if ops.ipa_getbit paddr nplen
          then node nplen addr mask accept c0 c
          else node nplen addr mask accept c c1)
  unfolding attach_node
  attach_node-IsChild paddr addr mask accept c0 c1 null nplen h = absurd (ground (arith, h))
  attach_node-IsChild paddr addr mask accept c0 c1 (node cplen caddr cmask caccept d0 d1) nplen h =
      rw h.2 refl

  -- The children extend the address of the pattern in the slot of its bit.
  pub Under-IsChild :
      (paddr addr : ops.Ip) (nplen : ℕ) (s : Bool) (c : TrieNode ops.Ip)
      → agree ops paddr addr nplen ≡ true
      → ops.ipa_getbit paddr nplen ≡ s
      → IsChild nplen paddr c
      → Under ops nplen addr s c
  Under-IsChild paddr addr nplen s null same bit h = tt
  Under-IsChild paddr addr nplen s (node cplen caddr cmask caccept d0 d1) same bit h =
      (h.0, sym (agree-subst ops caddr paddr addr nplen nplen (omega arith) same) ∙ h.1, h.2 ∙ bit)

  pub Under-other :
      (paddr addr : ops.Ip) (nplen : ℕ) (s : Bool) (c : TrieNode ops.Ip)
      → agree ops paddr addr nplen ≡ true
      → Under ops nplen addr s c
      → Under ops nplen paddr s c
  Under-other paddr addr nplen s null same h = tt
  Under-other paddr addr nplen s (node cplen caddr cmask caccept d0 d1) same h =
      (h.0, agree-subst ops caddr paddr addr nplen nplen (omega arith) same ∙ h.1, h.2)

  -- A child that is kept or attached is in its slot.
  placed-second :
      (paddr addr mask accept : ops.Ip) (c0 c1 : TrieNode ops.Ip) (nplen : ℕ) (r : Placed ops.Ip)
      → ops.ipa_getbit paddr nplen ≡ true
      → IsChild nplen paddr (placed_node r)
      → elim r [
        | kept c ↦ node nplen addr mask accept c0 c
        | attached c ↦ attach_node ops (node nplen addr mask accept c0 c1) c
      ]
        ≡ node nplen addr mask accept c0 (placed_node r)
  placed-second paddr addr mask accept c0 c1 nplen (kept c) bit h = refl
  placed-second paddr addr mask accept c0 c1 nplen (attached c) bit h =
      attach_node-IsChild paddr addr mask accept c0 c1 c nplen h ∙ rw bit refl

  placed-first :
      (paddr addr mask accept : ops.Ip) (c0 c1 : TrieNode ops.Ip) (nplen : ℕ) (r : Placed ops.Ip)
      → ops.ipa_getbit paddr nplen ≡ false
      → IsChild nplen paddr (placed_node r)
      → elim r [
        | kept c ↦ node nplen addr mask accept c c1
        | attached c ↦ attach_node ops (node nplen addr mask accept c0 c1) c
      ]
        ≡ node nplen addr mask accept (placed_node r) c1
  placed-first paddr addr mask accept c0 c1 nplen (kept c) bit h = refl
  placed-first paddr addr mask accept c0 c1 nplen (attached c) bit h =
      attach_node-IsChild paddr addr mask accept c0 c1 c nplen h ∙ rw bit refl

  -- What a walk on the path leaves: the child that it went to is replaced.
  pub add_walk-deeper :
      (px paddr pmask amask addr mask accept : ops.Ip) (c0 c1 : TrieNode ops.Ip) (plen nplen : ℕ)
      → out_of_path ops paddr pmask addr mask ≡ false
      → nplen < plen
      → (ops.ipa_getbit paddr nplen ≡ true
          → IsChild nplen paddr (placed_node (add_walk ops px plen paddr pmask amask c1)))
      → (ops.ipa_getbit paddr nplen ≡ false
          → IsChild nplen paddr (placed_node (add_walk ops px plen paddr pmask amask c0)))
      → add_walk ops px plen paddr pmask amask (node nplen addr mask accept c0 c1)
        ≡ kept (
            if ops.ipa_getbit paddr nplen
            then node nplen addr mask
                (ops.ipa_or accept (ops.ipa_and amask mask))
                c0
                (placed_node (add_walk ops px plen paddr pmask amask c1))
            else node nplen addr mask
                (ops.ipa_or accept (ops.ipa_and amask mask))
                (placed_node (add_walk ops px plen paddr pmask amask c0))
                c1)
  unfolding add_walk
  add_walk-deeper px paddr pmask amask addr mask accept c0 c1 plen nplen on less child1 child0 =
      let longer : ltb plen nplen ≡ false = ground arith in
      let other : (plen == nplen) ≡ false = ground arith in
      elim (Bool-cases (ops.ipa_getbit paddr nplen)) [
        | inl y ↦
            rw (add_walk, on, longer, other, y)
              (ap (λ (t : TrieNode ops.Ip). kept t)
                (placed-second paddr addr mask _ c0 c1 nplen
                  (add_walk ops px plen paddr pmask amask c1) y (child1 y)))
        | inr n ↦
            rw (add_walk, on, longer, other, n)
              (ap (λ (t : TrieNode ops.Ip). kept t)
                (placed-first paddr addr mask _ c0 c1 nplen
                  (add_walk ops px plen paddr pmask amask c0) n (child0 n)))
      ]
