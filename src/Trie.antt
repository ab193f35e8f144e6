-- ===== src/Trie.antt =====
-- Sets of prefix patterns, filter/trie.c.
pub mod Bits
pub mod Walk
pub mod Masks
pub mod Place
pub mod Split
pub mod Shape
pub mod Along
pub mod Ahead
pub mod Correct
pub mod Add
pub mod PrefixSet
pub mod Pattern
pub mod Network
pub mod Same
mod Tests
use active_bgp_measurement.Base.{ℕ, zero, suc, ◌-◌, ◌/◌, ◌%◌, ◌^◌, ◌≡◌, ◌<◌, ◌||◌, ◌&&◌, not}
use active_bgp_measurement.Base.{List, [], ◌∷◌, Bool, true, false, Option, none, some}
use active_bgp_measurement.Base.{Res, ok, fault, ◌>>=◌, ltb, leb, ◌==◌, if◌then◌else◌}

-- The operations on addresses, which are the daemon's library. An address is its bits, of which the
-- bit 0 is the most significant.
pub record IpOps : Type 1 where
  pub Ip : Type 0
  pub bits_per_ip_address : ℕ
  pub ipa_none : Ip
  pub ipa_getbit : Ip → ℕ → Bool
  pub ipa_mkmask : ℕ → Ip
  pub ipa_and : Ip → Ip → Ip
  pub ipa_or : Ip → Ip → Ip
  pub ipa_xor : Ip → Ip → Ip
  pub ipa_equal : Ip → Ip → Bool
  -- The number of bits at the front that two addresses share.
  pub ipa_pxlen : Ip → Ip → ℕ

abbrev pub xor : Bool → Bool → Bool
xor true b = not b
xor false b = b

-- `struct f_trie_node`, or the null pointer.
pub data TrieNode (Ip : Type 0) : Type 0 where
  null : TrieNode Ip
  node : (plen : ℕ) (addr mask accept : Ip) (c0 c1 : TrieNode Ip) → TrieNode Ip

-- `struct f_trie`
pub record Trie (Ip : Type 0) : Type 0 where
  -- A prefix of length 0 is accepted.
  pub zero_accepted : Bool
  pub root : TrieNode Ip

-- Where a node stands in its parent: it is a child that was there, with its changes, or it is new
-- or moved, and has still to be attached.
pub data Placed (Ip : Type 0) : Type 0 where
  kept : TrieNode Ip → Placed Ip
  attached : TrieNode Ip → Placed Ip

module _ (ops : IpOps) where
  abbrev pub f_new_trie : Trie ops.Ip
  f_new_trie = record {
    zero_accepted = false;
    root = node 0 ops.ipa_none ops.ipa_none ops.ipa_none null null;
  }

  abbrev pub new_node : ℕ → ops.Ip → ops.Ip → ops.Ip → TrieNode ops.Ip
  new_node plen paddr pmask amask = node plen paddr pmask amask null null

  -- The slot of a child under a parent that branches at `plen`.
  unfoldable pub attach_node : TrieNode ops.Ip → TrieNode ops.Ip → TrieNode ops.Ip
  attach_node (node plen addr mask accept c0 c1) (node cplen caddr cmask caccept d0 d1) =
      let child = node cplen caddr cmask caccept d0 d1 in
      if ops.ipa_getbit caddr plen
      then node plen addr mask accept c0 child
      else node plen addr mask accept child c1
  attach_node parent child = parent

  -- The test whether the addresses differ in the bits of both masks.
  abbrev pub out_of_path : ops.Ip → ops.Ip → ops.Ip → ops.Ip → Bool
  out_of_path paddr pmask addr mask =
      let cmask = ops.ipa_and mask pmask in
      not (ops.ipa_equal (ops.ipa_and paddr cmask) (ops.ipa_and addr cmask))

  -- The branching node between the new node and one that is out of its path.
  abbrev pub branch :
      ops.Ip
      → ℕ
      → ops.Ip
      → ops.Ip
      → ops.Ip
      → ℕ
      → ops.Ip
      → ops.Ip
      → ops.Ip
      → TrieNode ops.Ip
      → TrieNode ops.Ip
      → TrieNode ops.Ip
  branch px plen paddr pmask amask nplen addr mask accept c0 c1 =
      let blen = ops.ipa_pxlen paddr addr in
      let bmask = ops.ipa_mkmask blen in
      let b =
        new_node blen (ops.ipa_and px bmask) bmask (ops.ipa_and (ops.ipa_or amask accept) bmask) in
      attach_node (attach_node b (node nplen addr mask accept c0 c1))
        (new_node plen paddr pmask amask)

  -- The walk of `trie_add_prefix` from a node on, with the place of what it leaves there.
  unfoldable pub add_walk : ops.Ip → ℕ → ops.Ip → ops.Ip → ops.Ip → TrieNode ops.Ip → Placed ops.Ip
  add_walk px plen paddr pmask amask null = attached (new_node plen paddr pmask amask)
  add_walk px plen paddr pmask amask (node nplen addr mask accept c0 c1) =
      let below0 = add_walk px plen paddr pmask amask c0 in
      let below1 = add_walk px plen paddr pmask amask c1 in
      let accept' = ops.ipa_or accept (ops.ipa_and amask mask) in
      if out_of_path paddr pmask addr mask
      then attached (branch px plen paddr pmask amask nplen addr mask accept c0 c1)
      else (if ltb plen nplen
          then attached (
              attach_node (new_node plen paddr pmask (ops.ipa_or amask (ops.ipa_and accept pmask)))
                (node nplen addr mask accept c0 c1))
          else (if plen == nplen
              then kept (node nplen addr mask (ops.ipa_or accept amask) c0 c1)
              else kept (
                  if ops.ipa_getbit paddr nplen
                  then elim below1 [
                    | kept c ↦ node nplen addr mask accept' c0 c
                    | attached c ↦ attach_node (node nplen addr mask accept' c0 c1) c
                  ]
                  else elim below0 [
                    | kept c ↦ node nplen addr mask accept' c c1
                    | attached c ↦ attach_node (node nplen addr mask accept' c0 c1) c
                  ])))

  -- A node that would be attached to nothing is an access through the null pointer.
  unfoldable pub trie_add_prefix : Trie ops.Ip → ops.Ip → ℕ → ℕ → ℕ → Res (Trie ops.Ip)
  trie_add_prefix t px plen l h =
      let plen' = if ltb h plen then h else plen in
      let amask = ops.ipa_xor (ops.ipa_mkmask (l - 1)) (ops.ipa_mkmask h) in
      let pmask = ops.ipa_mkmask plen' in
      elim (add_walk px plen' (ops.ipa_and px pmask) pmask amask t.root) [
        | kept r ↦ ok (record { zero_accepted = l == 0 || t.zero_accepted; root = r })
        | attached r ↦ fault
      ]

  unfoldable pub match_walk : ops.Ip → ops.Ip → ℕ → TrieNode ops.Ip → Bool
  match_walk paddr pmask plen null = false
  match_walk paddr pmask plen (node nplen addr mask accept c0 c1) =
      let below0 = match_walk paddr pmask plen c0 in
      let below1 = match_walk paddr pmask plen c1 in
      if out_of_path paddr pmask addr mask
      then false
      else (if ops.ipa_getbit accept (plen - 1)
          then true
          else (if leb plen nplen
              then false
              else (if ops.ipa_getbit paddr nplen then below1 else below0)))

  unfoldable pub trie_match_prefix : Trie ops.Ip → ops.Ip → ℕ → Bool
  trie_match_prefix t px plen =
      let pmask = ops.ipa_mkmask plen in
      if plen == 0 then t.zero_accepted else match_walk (ops.ipa_and px pmask) pmask plen t.root

  unfoldable pub trie_node_same : TrieNode ops.Ip → TrieNode ops.Ip → Bool
  trie_node_same null null = true
  trie_node_same null (node plen addr mask accept c0 c1) = false
  trie_node_same (node plen addr mask accept c0 c1) null = false
  trie_node_same (node plen addr mask accept c0 c1) (node plen' addr' mask' accept' c0' c1') =
      let same0 = trie_node_same c0 c0' in
      let same1 = trie_node_same c1 c1' in
      if not (plen == plen') || not (ops.ipa_equal addr addr') || not (ops.ipa_equal accept accept')
      then false
      else same0 && same1

  unfoldable pub trie_same : Trie ops.Ip → Trie ops.Ip → Bool
  trie_same t1 t2 = (not (xor t1.zero_accepted t2.zero_accepted)) && trie_node_same t1.root t2.root

-- `struct f_prefix`: the length, and above its low byte the flags and bounds of the pattern.
pub record FPrefix (Ip : Type 0) : Type 0 where
  pub ip : Ip
  pub len : ℕ

module _ (ops : IpOps) where
  -- The lower and the upper bound. The flags are LEN_MINUS, LEN_PLUS and LEN_RANGE.
  unfoldable pub fprefix_get_bounds : FPrefix ops.Ip → ℕ × ℕ
  fprefix_get_bounds px =
      if px.len / 2 ^ 25 % 2 == 1
      then (0, px.len % 256)
      else (if px.len / 2 ^ 24 % 2 == 1
          then (px.len % 256, ops.bits_per_ip_address)
          else (if px.len / 2 ^ 26 % 2 == 1
              then (px.len / 2 ^ 16 % 256, px.len / 2 ^ 8 % 256)
              else (px.len % 256, px.len % 256)))

  unfoldable pub trie_add_fprefix : Trie ops.Ip → FPrefix ops.Ip → Res (Trie ops.Ip)
  trie_add_fprefix t px =
      let bounds = fprefix_get_bounds px in
      trie_add_prefix ops t px.ip (px.len % 256) bounds.0 bounds.1

  unfoldable pub trie_match_fprefix : Trie ops.Ip → FPrefix ops.Ip → Bool
  trie_match_fprefix t px = trie_match_prefix ops t px.ip (px.len % 256)

  -- A prefix set of the configuration: the patterns behind the first are added to its trie.
  unfoldable pub add_all : Trie ops.Ip → List (FPrefix ops.Ip) → Res (Trie ops.Ip)
  add_all t [] = ok t
  add_all t (px ∷ pxs) = trie_add_fprefix t px >>= (λ t'. add_all t' pxs)

  unfoldable pub fprefix_set : FPrefix ops.Ip → List (FPrefix ops.Ip) → Res (Trie ops.Ip)
  fprefix_set px pxs = trie_add_fprefix (f_new_trie ops) px >>= (λ t. add_all t pxs)
