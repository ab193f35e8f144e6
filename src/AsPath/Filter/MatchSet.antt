-- ===== src/AsPath/Filter/MatchSet.antt =====
-- `as_path_match_set` on the buffer of a list of segments.
use active_bgp_measurement.Base.{ℕ, zero, suc, ◌≤◌, ◌≡◌, ◌||◌, ◌++◌}
use active_bgp_measurement.Base.{List, [], ◌∷◌, length, All, arith, Bool, false}
use active_bgp_measurement.Base.{ok, if◌then◌else◌}
use active_bgp_measurement.Base.{append_assoc, none, some}
use active_bgp_measurement.AsPath.Wire.{Unaligned, Segment, IsAsn, IsPath, put_as}
use active_bgp_measurement.AsPath.Wire.{get_as-put_as, drop-put_as, encode_asns, encode}
use active_bgp_measurement.AsPath.Wire.{length-le-encode}
use active_bgp_measurement.FilterTree.{Comparisons, FTree}
use active_bgp_measurement.AsPath.Filter.{
  matches, match_set_asns, match_set_loop, as_path_match_set,
}

-- Some number of the path is in the set.
abbrev pub any : (ℕ → Bool) → List ℕ → Bool
any test [] = false
any test (v ∷ vs) = test v || any test vs

unfoldable pub any_asn : (ℕ → Bool) → List Segment → Bool
any_asn test [] = false
any_asn test (s ∷ segs) = any test s.asns || any_asn test segs

module _ (u : Unaligned) (test : ℕ → Bool) where
  match_set_asns-encode :
      (vs p : List ℕ)
      → All IsAsn vs
      → match_set_asns u test (length vs) (encode_asns u vs ++ p)
        ≡ ok (if any test vs then none else some p)
  unfolding match_set_asns encode_asns
  match_set_asns-encode [] p h = ground arith
  match_set_asns-encode (v ∷ vs) p (h, hs) = ground (
    arith,
    append_assoc (put_as u v) (encode_asns u vs) p,
    get_as-put_as u v (encode_asns u vs ++ p) h,
    drop-put_as u v (encode_asns u vs ++ p),
    match_set_asns-encode vs p hs,
  )

  match_set_loop-encode :
      (segs : List Segment) (fuel : ℕ)
      → IsPath segs
      → length segs ≤ fuel
      → match_set_loop u test fuel (encode u segs) ≡ ok (any_asn test segs)
  unfolding match_set_loop encode any_asn
  match_set_loop-encode [] fuel h f = ground arith
  match_set_loop-encode (s ∷ segs) zero h f = absurd (omega arith)
  match_set_loop-encode (s ∷ segs) (suc fuel) (h, hs) f =
      rw (match_set_asns-encode s.asns (encode u segs) h.1)
        (ground (arith, match_set_loop-encode segs fuel hs))

-- On the buffer of any path `as_path_match_set` answers 1 exactly if `find_tree` finds some number of
-- the path in the set.
pub as_path_match_set-encode :
    {D : Type 0} (u : Unaligned) (c : Comparisons) (segs : List Segment) (set : FTree D)
    → IsPath segs
    → as_path_match_set u c (encode u segs) set ≡ ok (any_asn (λ v. matches c (some set) 0 v) segs)
unfolding as_path_match_set
as_path_match_set-encode u c segs set h =
    match_set_loop-encode u (λ v. matches c (some set) 0 v) segs (length (encode u segs)) h
      (length-le-encode u segs)
