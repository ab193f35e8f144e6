-- ===== src/AsPath/Match/Parse.antt =====
-- `parse_path` and `pm_match` of nest/a-path.c on the buffer of a list of segments: the positions are
-- the hops of the path.
use active_bgp_measurement.Base.{ℕ, zero, suc, ◌≤◌, ◌≡◌, ◌&&◌, ◌||◌, refl, inl, inr}
use active_bgp_measurement.Base.{
  List, [], ◌∷◌, ◌++◌, length, Bool, true, false, arith, if◌then◌else◌, append_assoc, append-nil,
}
use active_bgp_measurement.Base.{ok, All, Bool-cases, map, leb, ◌==◌}
use active_bgp_measurement.AsPath.Match.{
  PmVal, sp, asn, is_set, MaskItem, pm_asn, pm_question, pm_asterisk, pm_asn_expr, pm_asn_range,
  parse_asns, parse_loop, parse_path, pm_match_set, pm_match,
}
use active_bgp_measurement.AsPath.Wire.{Unaligned, Segment, IsAsn, IsPath, IsKnownPath, put_as}
use active_bgp_measurement.AsPath.Wire.{as_path_set}
use active_bgp_measurement.AsPath.Wire.{
  get_as-put_as, drop-put_as, encode_asns, encode, drop-encode_asns, length-le-encode,
}

-- One position of a path: a single number, or a set that stands for any of its numbers.
pub data Hop : Type 0 where
  one : ℕ → Hop
  any_of : List ℕ → Hop

abbrev pub is_any : Hop → Bool
is_any (one v) = false
is_any (any_of vs) = true

unfoldable pub path_hops : List Segment → List Hop
path_hops [] = []
path_hops (s ∷ segs) =
    let rest = path_hops segs in
    if s.kind == as_path_set then any_of s.asns ∷ rest else map one s.asns ++ rest

abbrev pub any_between : ℕ → ℕ → List ℕ → Bool
any_between lo hi [] = false
any_between lo hi (v ∷ vs) = (leb lo v && leb v hi) || any_between lo hi vs

-- The hop may be a number from `lo` to `hi`.
abbrev pub hop_between : ℕ → ℕ → Hop → Bool
hop_between lo hi (one v) = leb lo v && leb v hi
hop_between lo hi (any_of vs) = any_between lo hi vs

-- What an item asks of one hop; only the first three take a hop.
abbrev pub hop_test : MaskItem → Hop → Bool
hop_test (pm_asn v) hop = hop_between v v hop
hop_test (pm_asn_range lo hi) hop = hop_between lo hi hop
hop_test pm_question hop = true
hop_test pm_asterisk hop = false
hop_test pm_asn_expr hop = false

module _ (u : Unaligned) where
  -- The positions that `parse_path` writes.
  unfoldable pub path_vals : List Segment → List PmVal
  path_vals [] = []
  path_vals (s ∷ segs) =
      let rest = path_vals segs in
      if s.kind == as_path_set
      then sp (length s.asns ∷ (encode_asns u s.asns ++ encode u segs)) ∷ rest
      else map asn s.asns ++ rest

  parse_asns-encode :
      (vs p : List ℕ) (pos : List PmVal)
      → All IsAsn vs
      → parse_asns u (length vs) (encode_asns u vs ++ p) pos ≡ ok (pos ++ map asn vs, p)
  unfolding parse_asns encode_asns
  parse_asns-encode [] p pos h = ground (arith, append-nil pos)
  parse_asns-encode (v ∷ vs) p pos (h, hs) = ground (
    arith,
    append_assoc (put_as u v) (encode_asns u vs) p,
    get_as-put_as u v (encode_asns u vs ++ p) h,
    drop-put_as u v (encode_asns u vs ++ p),
    append_assoc pos (asn v ∷ []) (map asn vs),
    parse_asns-encode vs p (pos ++ asn v ∷ []) hs,
  )

  parse_loop-encode :
      (segs : List Segment) (fuel : ℕ) (pos : List PmVal)
      → IsPath segs
      → IsKnownPath segs
      → length segs ≤ fuel
      → parse_loop u fuel (encode u segs) pos ≡ ok (pos ++ path_vals segs)
  unfolding parse_loop encode path_vals
  parse_loop-encode [] fuel pos h k f = ground (arith, append-nil pos)
  parse_loop-encode (s ∷ segs) zero pos h k f = absurd (omega arith)
  parse_loop-encode (s ∷ segs) (suc fuel) pos (h, hs) (k, ks) f =
      let set_pos : List PmVal =
        sp (length s.asns ∷ (encode_asns u s.asns ++ encode u segs)) ∷ [] in
      rw
        (
          parse_asns-encode s.asns (encode u segs) pos h.1,
          drop-encode_asns u s.asns (encode u segs),
        )
        (ground (
          arith,
          append_assoc pos set_pos (path_vals segs),
          append_assoc pos (map asn s.asns) (path_vals segs),
          parse_loop-encode segs fuel (pos ++ set_pos) hs ks,
          parse_loop-encode segs fuel (pos ++ map asn s.asns) hs ks,
        ))

  pub parse_path-encode :
      (segs : List Segment)
      → IsPath segs
      → IsKnownPath segs
      → parse_path u (encode u segs) ≡ ok (path_vals segs)
  unfolding parse_path
  parse_path-encode segs h k =
      parse_loop-encode segs (length (encode u segs)) [] h k (length-le-encode u segs)

  pm_match_set-encode :
      (lo hi : ℕ) (vs p : List ℕ)
      → All IsAsn vs
      → pm_match_set u lo hi (length vs) (encode_asns u vs ++ p) ≡ ok (any_between lo hi vs)
  unfolding pm_match_set encode_asns
  pm_match_set-encode lo hi [] p h = refl
  pm_match_set-encode lo hi (v ∷ vs) p (h, hs) = ground (
    arith,
    append_assoc (put_as u v) (encode_asns u vs) p,
    get_as-put_as u v (encode_asns u vs ++ p) h,
    drop-put_as u v (encode_asns u vs ++ p),
    pm_match_set-encode lo hi vs p hs,
  )

  pm_match_sp :
      (lo hi : ℕ) (vs p : List ℕ)
      → All IsAsn vs
      → pm_match u lo hi (sp (length vs ∷ (encode_asns u vs ++ p))) ≡ ok (any_between lo hi vs)
  unfolding pm_match
  pm_match_sp lo hi vs p h = pm_match_set-encode lo hi vs p h

  -- The positions stand for the hops: sets for sets, and `pm_match` answers for the hop.
  abbrev pub SameHops : List PmVal → List Hop → Type 0
  SameHops [] [] = Unit {0}
  SameHops [] (h ∷ hs) = ⊥
  SameHops (v ∷ vs) [] = ⊥
  SameHops (v ∷ vs) (h ∷ hs) =
      (is_set v ≡ is_any h)
      × ((lo hi : ℕ) → pm_match u lo hi v ≡ ok (hop_between lo hi h))
      × SameHops vs hs

  SameHops-ones :
      (vs : List ℕ) (vals : List PmVal) (hs : List Hop)
      → SameHops vals hs
      → SameHops (map asn vs ++ vals) (map one vs ++ hs)
  SameHops-ones [] vals hs k = k
  SameHops-ones (v ∷ vs) vals hs k =
      (refl, λ lo hi. unfold pm_match in refl, SameHops-ones vs vals hs k)

  pub SameHops-path :
      (segs : List Segment) → IsPath segs → SameHops (path_vals segs) (path_hops segs)
  unfolding path_vals path_hops
  SameHops-path [] h = tt
  SameHops-path (s ∷ segs) (h, hs) = elim (Bool-cases (s.kind == as_path_set)) [
    | inl y ↦
        rw y (refl, λ lo hi. pm_match_sp lo hi s.asns (encode u segs) h.1, SameHops-path segs hs)
    | inr y ↦ rw y (SameHops-ones s.asns (path_vals segs) (path_hops segs) (SameHops-path segs hs))
  ]
