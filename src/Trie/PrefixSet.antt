-- ===== src/Trie/PrefixSet.antt =====
-- The prefix sets of filters (filter/trie.c, filter/filter.h and filter/config.Y) against the patterns
-- they are written with.
use active_bgp_measurement.Base.{
  ℕ, ◌-◌, ◌%◌, ◌≡◌, ◌≤◌, ◌<◌, ◌||◌, refl, ◌∙◌, ok, List, [], ◌∷◌, All,
}
use active_bgp_measurement.Base.{Bool, false, ◌==◌, arith, Bool-cases, inl, inr}
use active_bgp_measurement.Trie.{
  IpOps, FPrefix, Trie, trie_match_prefix, f_new_trie, fprefix_get_bounds, trie_add_fprefix,
  trie_match_fprefix, add_all, fprefix_set,
}
use active_bgp_measurement.Trie.Bits.{IpLaws}
use active_bgp_measurement.Trie.Place.{accepts-new_node}
use active_bgp_measurement.Trie.Correct.{IsTrie}
use active_bgp_measurement.Trie.Add.{
  prefix_matches, trie_match_prefix-trie_add_prefix, IsTrie-f_new_trie, trie_match_prefix-root,
}

module _ (ops : IpOps) where
  -- The pattern of the configuration, with its bounds.
  abbrev pub fprefix_matches : FPrefix ops.Ip → ops.Ip → ℕ → Bool
  fprefix_matches px q k =
      prefix_matches ops px.ip (px.len % 256) (fprefix_get_bounds ops px).0
        (fprefix_get_bounds ops px).1 q k

  abbrev pub any_matches : List (FPrefix ops.Ip) → ops.Ip → ℕ → Bool
  any_matches [] q k = false
  any_matches (px ∷ pxs) q k = fprefix_matches px q k || any_matches pxs q k

  -- What the parser of the configuration checks.
  abbrev pub IsFPrefix : FPrefix ops.Ip → Type 0
  IsFPrefix px =
      (px.len % 256 ≤ ops.bits_per_ip_address)
      × ((fprefix_get_bounds ops px).0 ≤ (fprefix_get_bounds ops px).1)
      × ((fprefix_get_bounds ops px).1 ≤ ops.bits_per_ip_address)

or_assoc : (x y z : Bool) → ((x || y) || z) ≡ (x || (y || z))
or_assoc x y z = ground arith

module _ (ops : IpOps) (laws : IpLaws ops) where
  trie_add_fprefix_lem :
      (t : Trie ops.Ip) (px : FPrefix ops.Ip)
      → IsTrie ops laws t
      → IsFPrefix ops px
      → (t' : Trie ops.Ip) × (trie_add_fprefix ops t px ≡ ok t')
        × IsTrie ops laws t'
        × ((q : ops.Ip) (k : ℕ)
            → k ≤ ops.bits_per_ip_address
            → trie_match_prefix ops t' q k
              ≡ (trie_match_prefix ops t q k || fprefix_matches ops px q k))
  unfolding trie_add_fprefix
  trie_add_fprefix_lem t px good fits =
      trie_match_prefix-trie_add_prefix ops laws t px.ip (px.len % 256)
        (fprefix_get_bounds ops px).0 (fprefix_get_bounds ops px).1 good fits.0 fits.1 fits.2

  add_all_lem :
      (t : Trie ops.Ip) (pxs : List (FPrefix ops.Ip))
      → IsTrie ops laws t
      → All (IsFPrefix ops) pxs
      → (t' : Trie ops.Ip) × (add_all ops t pxs ≡ ok t')
        × IsTrie ops laws t'
        × ((q : ops.Ip) (k : ℕ)
            → k ≤ ops.bits_per_ip_address
            → trie_match_prefix ops t' q k
              ≡ (trie_match_prefix ops t q k || any_matches ops pxs q k))
  unfolding add_all
  add_all_lem t [] good all = (t, refl, good, λ q k small. ground arith)
  add_all_lem t (px ∷ pxs) good all =
      let (t1, added, good1, adds1) = trie_add_fprefix_lem t px good all.0 in
      let (t2, rest, good2, adds2) = add_all_lem t1 pxs good1 all.1 in
      (
        t2,
        rw (add_all, added) rest,
        good2,
        λ q k small.
            adds2 q k small
            ∙ rw (adds1 q k small) (
                or_assoc (trie_match_prefix ops t q k) (fprefix_matches ops px q k)
                  (any_matches ops pxs q k)),
      )

  -- A new trie accepts nothing.
  f_new_trie_lem :
      (q : ops.Ip) (k : ℕ)
      → k ≤ ops.bits_per_ip_address
      → trie_match_prefix ops (f_new_trie ops) q k ≡ false
  unfolding trie_match_prefix
  f_new_trie_lem q k small = elim (Bool-cases (k == 0)) [
    | inl y ↦ rw y refl
    | inr n ↦
        let q' = ops.ipa_and q (ops.ipa_mkmask k) in
        let pos : 0 < k = ground arith in
        trie_match_prefix-root ops laws (f_new_trie ops) q k (IsTrie-f_new_trie ops laws) pos small
        ∙ accepts-new_node ops laws q' ops.ipa_none ops.ipa_none ops.ipa_none k 0
        ∙ rw (laws.none_bit (k - 1) (omega arith)) refl
  ]

  -- A set accepts what its encoded patterns accept, under the bounds of fprefix_get_bounds.
  pub fprefix_set_lem :
      (px : FPrefix ops.Ip) (pxs : List (FPrefix ops.Ip))
      → All (IsFPrefix ops) (px ∷ pxs)
      → (t : Trie ops.Ip) × (fprefix_set ops px pxs ≡ ok t)
        × ((q : FPrefix ops.Ip)
            → q.len % 256 ≤ ops.bits_per_ip_address
            → trie_match_fprefix ops t q ≡ any_matches ops (px ∷ pxs) q.ip (q.len % 256))
  unfolding fprefix_set trie_match_fprefix
  fprefix_set_lem px pxs all =
      let (t1, added, good1, adds1) =
        trie_add_fprefix_lem (f_new_trie ops) px (IsTrie-f_new_trie ops laws) all.0 in
      let (t2, rest, good2, adds2) = add_all_lem t1 pxs good1 all.1 in
      (
        t2,
        rw (fprefix_set, added) rest,
        λ q small.
            adds2 q.ip (q.len % 256) small
            ∙ rw (adds1 q.ip (q.len % 256) small, f_new_trie_lem q.ip (q.len % 256) small) refl,
      )
