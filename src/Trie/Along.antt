-- ===== src/Trie/Along.antt =====
-- The walk of `trie_add_prefix` of filter/trie.c along the path of the pattern: the nodes stay where
-- they are, and below its end a new node is attached.
use active_bgp_measurement.Base.{ℕ, ◌-◌, ◌≡◌, ◌≤◌, ◌<◌, ◌||◌, ◌&&◌, not, refl, ◌∙◌}
use active_bgp_measurement.Base.{
  Bool, true, false, ltb, ◌==◌, if◌then◌else◌, arith, Bool-cases, inl, inr,
}
use active_bgp_measurement.Trie.{IpOps, TrieNode, null, node, Placed, kept, add_walk, out_of_path}
use active_bgp_measurement.Trie.Bits.{IpLaws, agree, agree-intro, agree-le, agree-differ, lesser}
use active_bgp_measurement.Trie.Walk.{IsMask, IsTrieNode, accepts, out_of_path_lem}
use active_bgp_measurement.Trie.Place.{
  pattern_accepts, accepts-deeper, accepts-at_length, accepts-new_node,
}
use active_bgp_measurement.Trie.Shape.{placed_node, IsChild, Under-IsChild, add_walk-deeper}

and_none : (x : Bool) → (x && false) ≡ false
and_none x = ground arith

or_none : (x : Bool) → x ≡ (x || false)
or_none x = ground arith

-- A pattern that is added: its address, the part of it that counts, and its masks.
pub record Adding (ops : IpOps) : Type 0 where
  pub px : ops.Ip
  pub paddr : ops.Ip
  pub pmask : ops.Ip
  pub amask : ops.Ip
  pub plen : ℕ
  pub fits : plen ≤ ops.bits_per_ip_address
  pub masked : IsMask ops pmask plen
  pub front : (i : ℕ) → i < plen → ops.ipa_getbit paddr i ≡ ops.ipa_getbit px i

module _ (ops : IpOps) (laws : IpLaws ops) (p : Adding ops) where
  abbrev pub walk : TrieNode ops.Ip → Placed ops.Ip
  walk t = add_walk ops p.px p.plen p.paddr p.pmask p.amask t

  -- The second tree accepts what the first and the pattern accept.
  abbrev pub Adds : TrieNode ops.Ip → TrieNode ops.Ip → Type 0
  Adds t r =
      (q : ops.Ip) (k : ℕ)
      → 0 < k
      → k ≤ ops.bits_per_ip_address
      → accepts ops q k r ≡ (accepts ops q k t || pattern_accepts ops p.amask p.paddr p.plen q k)

  -- What the walk leaves below a parent that branches at `d`.
  abbrev pub Grown : ℕ → TrieNode ops.Ip → Type 0
  Grown d t =
      let r = placed_node ops (walk t) in IsChild ops d p.paddr r × IsTrieNode ops r × Adds t r

  -- A node that stays where it is.
  abbrev pub Stays : ℕ → ops.Ip → ops.Ip → TrieNode ops.Ip → Type 0
  Stays nplen addr mask t =
      (a : ops.Ip) × ((d0 : TrieNode ops.Ip) × ((d1 : TrieNode ops.Ip) × (walk t
            ≡ kept (node nplen addr mask a d0 d1))
          × IsTrieNode ops (node nplen addr mask a d0 d1)
          × Adds t (node nplen addr mask a d0 d1)))

  -- A pattern with the other bit at a node does not accept the query.
  pattern-other :
      (q : ops.Ip) (k nplen : ℕ)
      → nplen < p.plen
      → nplen < k
      → ops.ipa_getbit q nplen ≡ not (ops.ipa_getbit p.paddr nplen)
      → pattern_accepts ops p.amask p.paddr p.plen q k ≡ false
  pattern-other q k nplen less long bit =
      rw (agree-differ ops q p.paddr (lesser k p.plen) nplen (ground arith) bit)
        (and_none (ops.ipa_getbit p.amask (k - 1)))

  pub on-path :
      (addr mask : ops.Ip) (nplen : ℕ)
      → nplen ≤ ops.bits_per_ip_address
      → IsMask ops mask nplen
      → agree ops p.paddr addr (lesser p.plen nplen) ≡ true
      → out_of_path ops p.paddr p.pmask addr mask ≡ false
  on-path addr mask nplen small hm same =
      out_of_path_lem ops laws p.paddr addr p.pmask mask p.plen nplen p.fits small p.masked hm
      ∙ rw same refl

  pub walk-null : (d : ℕ) → d < p.plen → Grown d null
  unfolding add_walk
  walk-null d less = (
    (less, agree-intro ops p.paddr p.paddr d (λ i h. refl), refl),
    (p.fits, p.masked, tt, tt, tt, tt),
    λ q k pos small. accepts-new_node ops laws q p.paddr p.pmask p.amask k p.plen,
  )

  pub walk-at_length :
      (addr mask accept : ops.Ip) (c0 c1 : TrieNode ops.Ip)
      → IsTrieNode ops (node p.plen addr mask accept c0 c1)
      → agree ops p.paddr addr p.plen ≡ true
      → Stays p.plen addr mask (node p.plen addr mask accept c0 c1)
  unfolding add_walk
  walk-at_length addr mask accept c0 c1 h same =
      let on : out_of_path ops p.paddr p.pmask addr mask ≡ false =
        on-path addr mask p.plen h.0 h.1
          (agree-le ops p.paddr addr (lesser p.plen p.plen) p.plen (ground arith) same) in
      let longer : ltb p.plen p.plen ≡ false = ground arith in
      let equal : (p.plen == p.plen) ≡ true = ground arith in
      (
        ops.ipa_or accept p.amask,
        (
          c0,
          (
            c1,
            rw (add_walk, on, longer, equal) refl,
            h,
            λ q k pos small.
                accepts-at_length ops laws q p.paddr p.amask addr mask accept c0 c1 k p.plen pos
                  small same,
          ),
        ),
      )

  -- Below a node the pattern counts in its own slot alone.
  below1 :
      (c0 c1 d : TrieNode ops.Ip) (q : ops.Ip) (k nplen : ℕ)
      → nplen < p.plen
      → nplen < k
      → ops.ipa_getbit p.paddr nplen ≡ true
      → accepts ops q k d ≡ (accepts ops q k c1 || pattern_accepts ops p.amask p.paddr p.plen q k)
      → (if ops.ipa_getbit q nplen then accepts ops q k d else accepts ops q k c0) ≡ (
          (if ops.ipa_getbit q nplen then accepts ops q k c1 else accepts ops q k c0)
          || pattern_accepts ops p.amask p.paddr p.plen q k)
  below1 c0 c1 d q k nplen less long bit adds = elim (Bool-cases (ops.ipa_getbit q nplen)) [
    | inl y ↦ rw y adds
    | inr n ↦
        rw (n, pattern-other q k nplen less long (ground arith)) (or_none (accepts ops q k c0))
  ]

  below0 :
      (c0 c1 d : TrieNode ops.Ip) (q : ops.Ip) (k nplen : ℕ)
      → nplen < p.plen
      → nplen < k
      → ops.ipa_getbit p.paddr nplen ≡ false
      → accepts ops q k d ≡ (accepts ops q k c0 || pattern_accepts ops p.amask p.paddr p.plen q k)
      → (if ops.ipa_getbit q nplen then accepts ops q k c1 else accepts ops q k d) ≡ (
          (if ops.ipa_getbit q nplen then accepts ops q k c1 else accepts ops q k c0)
          || pattern_accepts ops p.amask p.paddr p.plen q k)
  below0 c0 c1 d q k nplen less long bit adds = elim (Bool-cases (ops.ipa_getbit q nplen)) [
    | inl y ↦
        rw (y, pattern-other q k nplen less long (ground arith)) (or_none (accepts ops q k c1))
    | inr n ↦ rw n adds
  ]

  pub walk-deeper :
      (addr mask accept : ops.Ip) (c0 c1 : TrieNode ops.Ip) (nplen : ℕ)
      → IsTrieNode ops (node nplen addr mask accept c0 c1)
      → agree ops p.paddr addr nplen ≡ true
      → nplen < p.plen
      → (ops.ipa_getbit p.paddr nplen ≡ true → Grown nplen c1)
      → (ops.ipa_getbit p.paddr nplen ≡ false → Grown nplen c0)
      → Stays nplen addr mask (node nplen addr mask accept c0 c1)
  walk-deeper addr mask accept c0 c1 nplen h same less grown1 grown0 =
      let on : out_of_path ops p.paddr p.pmask addr mask ≡ false =
        on-path addr mask nplen h.0 h.1
          (agree-le ops p.paddr addr (lesser p.plen nplen) nplen (ground arith) same) in
      let walked =
        add_walk-deeper ops p.px p.paddr p.pmask p.amask addr mask accept c0 c1 p.plen nplen on less
          (λ y. (grown1 y).0) (λ n. (grown0 n).0) in
      elim (Bool-cases (ops.ipa_getbit p.paddr nplen)) [
        | inl y ↦ (
          ops.ipa_or accept (ops.ipa_and p.amask mask),
          (
            c0,
            (
              placed_node ops (walk c1),
              walked ∙ rw y refl,
              (
                h.0,
                h.1,
                h.2,
                Under-IsChild ops p.paddr addr nplen true (placed_node ops (walk c1)) same y
                    (grown1 y).0,
                h.4,
                (grown1 y).1,
              ),
              λ q k pos small.
                  accepts-deeper ops laws q p.paddr p.amask addr mask accept c0 c1 c0
                    (placed_node ops (walk c1)) k p.plen nplen pos small h.1 same less
                    (λ long.
                      below1 c0 c1 (placed_node ops (walk c1)) q k nplen less long y
                        ((grown1 y).2 q k pos small)),
            ),
          ),
        )
        | inr n ↦ (
          ops.ipa_or accept (ops.ipa_and p.amask mask),
          (
            placed_node ops (walk c0),
            (
              c1,
              walked ∙ rw n refl,
              (
                h.0,
                h.1,
                Under-IsChild ops p.paddr addr nplen false (placed_node ops (walk c0)) same n
                    (grown0 n).0,
                h.3,
                (grown0 n).1,
                h.5,
              ),
              λ q k pos small.
                  accepts-deeper ops laws q p.paddr p.amask addr mask accept c0 c1
                    (placed_node ops (walk c0)) c1 k p.plen nplen pos small h.1 same less
                    (λ long.
                      below0 c0 c1 (placed_node ops (walk c0)) q k nplen less long n
                        ((grown0 n).2 q k pos small)),
            ),
          ),
        )
      ]
