-- ===== src/Trie/Place.antt =====
-- What the nodes that `trie_add_prefix` of filter/trie.c makes accept.
use active_bgp_measurement.Base.{ℕ, ◌-◌, ◌≡◌, ◌≤◌, ◌<◌, ◌||◌, ◌&&◌, ap, ◌∙◌}
use active_bgp_measurement.Base.{Bool, true, false, ltb, if◌then◌else◌, arith, ltb→lt}
use active_bgp_measurement.Trie.{IpOps, TrieNode, node, new_node}
use active_bgp_measurement.Trie.Bits.{IpLaws, agree, agree-le, agree_sym, agree-subst, lesser}
use active_bgp_measurement.Trie.Walk.{IsMask, accepts}
use active_bgp_measurement.Trie.Masks.{deeper}

-- The pattern accepts the query: its length is in the mask, and the query agrees with the address
-- of the pattern as far as both go.
abbrev pub pattern_accepts : (ops : IpOps) → ops.Ip → ops.Ip → ℕ → ops.Ip → ℕ → Bool
pattern_accepts ops amask paddr plen q k =
    ops.ipa_getbit amask (k - 1) && agree ops q paddr (lesser k plen)

alone :
    (on bit long slot : Bool)
    → (on && (bit || (long && (if slot then false else false)))) ≡ (bit && on)
alone on bit long true = ground arith
alone on bit long false = ground arith

also :
    (on acc am rest : Bool) → (on && ((acc || am) || rest)) ≡ ((on && (acc || rest)) || (am && on))
also on acc am rest = ground arith

-- A query on a longer path is on the shorter one.
pub agree-shorter :
    (ops : IpOps) (q a b : ops.Ip) (k m n : ℕ)
    → agree ops b a n ≡ true
    → n ≤ m
    → agree ops q a (lesser k m) ≡ true
    → agree ops q b (lesser k n) ≡ true
agree-shorter ops q a b k m n same le on =
    agree-subst ops q b a (lesser k n) n (ground arith) same
    ∙ agree-le ops q a (lesser k n) (lesser k m) (ground arith) on

module _ (ops : IpOps) (laws : IpLaws ops) where
  pub accepts-new_node :
      (q paddr pmask amask : ops.Ip) (k plen : ℕ)
      → accepts ops q k (new_node ops plen paddr pmask amask)
        ≡ pattern_accepts ops amask paddr plen q k
  accepts-new_node q paddr pmask amask k plen =
      alone (agree ops q paddr (lesser k plen)) (ops.ipa_getbit amask (k - 1)) (ltb plen k)
        (ops.ipa_getbit q plen)

  -- A short query goes along two addresses that agree.
  pub both_short :
      (q a b : ops.Ip) (k m n : ℕ)
      → agree ops a b n ≡ true
      → n ≤ m
      → k ≤ n
      → agree ops q a (lesser k m) ≡ agree ops q b (lesser k n)
  both_short q a b k m n same le short =
      ap (λ (j : ℕ). agree ops q a j) {x = lesser k m} {y = k} (ground arith)
      ∙ agree-subst ops q a b k n short same
      ∙ ap (λ (j : ℕ). agree ops q b j) {x = k} {y = lesser k n} (ground arith)

  pub accepts-at_length :
      (q paddr amask addr mask accept : ops.Ip) (c0 c1 : TrieNode ops.Ip) (k plen : ℕ)
      → 0 < k
      → k ≤ ops.bits_per_ip_address
      → agree ops paddr addr plen ≡ true
      → accepts ops q k (node plen addr mask (ops.ipa_or accept amask) c0 c1) ≡ (
          accepts ops q k (node plen addr mask accept c0 c1)
          || pattern_accepts ops amask paddr plen q k)
  accepts-at_length q paddr amask addr mask accept c0 c1 k plen pos small same =
      rw
        (
          laws.or_bit accept amask (k - 1) (omega arith),
          agree-subst ops q paddr addr (lesser k plen) plen (ground arith) same,
        )
        (also (agree ops q addr (lesser k plen)) (ops.ipa_getbit accept (k - 1))
          (ops.ipa_getbit amask (k - 1)) _)

  pub accepts-deeper :
      (q paddr amask addr mask accept : ops.Ip) (c0 c1 d0 d1 : TrieNode ops.Ip) (k plen nplen : ℕ)
      → 0 < k
      → k ≤ ops.bits_per_ip_address
      → IsMask ops mask nplen
      → agree ops paddr addr nplen ≡ true
      → nplen < plen
      → (nplen < k
          → (if ops.ipa_getbit q nplen then accepts ops q k d1 else accepts ops q k d0) ≡ (
              (if ops.ipa_getbit q nplen then accepts ops q k c1 else accepts ops q k c0)
              || pattern_accepts ops amask paddr plen q k))
      → accepts ops q k (node nplen addr mask (ops.ipa_or accept (ops.ipa_and amask mask)) d0 d1)
        ≡ (accepts ops q k (node nplen addr mask accept c0 c1)
            || pattern_accepts ops amask paddr plen q k)
  accepts-deeper q paddr amask addr mask accept c0 c1 d0 d1 k plen nplen pos small hm same less
        below =
      rw
        (
          laws.or_bit accept (ops.ipa_and amask mask) (k - 1) (omega arith),
          laws.and_bit amask mask (k - 1) (omega arith),
          hm (k - 1) (omega arith),
        )
        (deeper (agree ops q addr (lesser k nplen)) _ _ _ _ _ k nplen pos
          (λ short. both_short q paddr addr k plen nplen same (omega arith) (ground arith))
          (λ long. below (ltb→lt nplen k long))
          (agree-shorter ops q paddr addr k plen nplen (agree_sym ops paddr addr nplen same)
            (omega arith)))
