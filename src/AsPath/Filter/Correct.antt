-- ===== src/AsPath/Filter/Correct.antt =====
-- `as_path_filter` on the buffer of a list of segments.
use active_bgp_measurement.Base.{ℕ, zero, suc, ◌+◌, ◌≤◌, ◌≡◌, ◌&&◌, ◌++◌}
use active_bgp_measurement.Base.{List, [], ◌∷◌, length, All, arith, Bool, false, refl}
use active_bgp_measurement.Base.{ok, ◌>>=◌, ltb, leb, if◌then◌else◌}
use active_bgp_measurement.Base.{append_assoc, append-nil, Option, none, some, length-append}
use active_bgp_measurement.AsPath.Wire.{Unaligned, Segment, IsAsn, IsPath, put_as}
use active_bgp_measurement.AsPath.Wire.{get_as-put_as, drop-put_as, encode_asns, encode}
use active_bgp_measurement.AsPath.Wire.{length-le-encode, length-encode_asns}
use active_bgp_measurement.FilterTree.{Comparisons, FTree}
use active_bgp_measurement.AsPath.Filter.{
  matches, agrees, filter_asns, filter_loop, as_path_filter, select, filter_path,
}
use active_bgp_measurement.AsPath.Contains.{
  count, occurrences, as_path_contains, as_path_contains-encode,
}

module _ (keep : ℕ → Bool) where
  length-select : (vs : List ℕ) → length (select keep vs) ≤ length vs
  unfolding select
  length-select [] = omega arith
  length-select (v ∷ vs) = ground (arith, length-select vs)

  select_all : (vs : List ℕ) → length (select keep vs) ≡ length vs → select keep vs ≡ vs
  unfolding select
  select_all [] h = refl
  select_all (v ∷ vs) h = ground (arith, length-select vs, select_all vs)

module _ (u : Unaligned) (keep : ℕ → Bool) where
  filter_asns-encode :
      (vs p : List ℕ) (dn : ℕ) (out : List ℕ)
      → All IsAsn vs
      → filter_asns u keep (length vs) (encode_asns u vs ++ p) dn out
        ≡ ok (dn + length (select keep vs), out ++ encode_asns u (select keep vs), p)
  unfolding filter_asns encode_asns select
  filter_asns-encode [] p dn out h = ground (arith, append-nil out)
  filter_asns-encode (v ∷ vs) p dn out (h, hs) = ground (
    arith,
    append_assoc (put_as u v) (encode_asns u vs) p,
    get_as-put_as u v (encode_asns u vs ++ p) h,
    drop-put_as u v (encode_asns u vs ++ p),
    append_assoc out (put_as u v) (encode_asns u (select keep vs)),
    filter_asns-encode vs p dn out hs,
    filter_asns-encode vs p (dn + 1) (out ++ put_as u v) hs,
  )

  filter_loop-encode :
      (segs : List Segment) (fuel : ℕ) (d : List ℕ)
      → IsPath segs
      → length segs ≤ fuel
      → filter_loop u keep fuel (encode u segs) d ≡ ok (d ++ encode u (filter_path keep segs))
  unfolding filter_loop encode filter_path
  filter_loop-encode [] fuel d h f = ground (arith, append-nil d)
  filter_loop-encode (s ∷ segs) zero d h f = absurd (omega arith)
  filter_loop-encode (s ∷ segs) (suc fuel) d (h, hs) f =
      let kept = select keep s.asns in
      let block : List ℕ = s.kind ∷ length kept ∷ encode_asns u kept in
      rw (filter_asns-encode s.asns (encode u segs) 0 [] h.1) (
        ground (
          arith,
          filter_loop-encode segs fuel d hs,
          filter_loop-encode segs fuel (d ++ block) hs,
          append_assoc d block (encode u (filter_path keep segs)),
        ))

  length-filter_path :
      (segs : List Segment) → length (encode u (filter_path keep segs)) ≤ length (encode u segs)
  unfolding encode filter_path
  length-filter_path [] = omega arith
  length-filter_path (s ∷ segs) =
      let kept = select keep s.asns in
      let rest = encode u (filter_path keep segs) in
      ground (
        arith,
        length-select keep s.asns,
        length-append (encode_asns u s.asns) (encode u segs),
        length-append (encode_asns u kept) rest,
        length-encode_asns u s.asns,
        length-encode_asns u kept,
        length-filter_path segs,
      )

  filter_path_all :
      (segs : List Segment)
      → length (encode u (filter_path keep segs)) ≡ length (encode u segs)
      → filter_path keep segs ≡ segs
  unfolding encode filter_path
  filter_path_all [] h = refl
  filter_path_all (s ∷ segs) h =
      let kept = select keep s.asns in
      let rest = encode u (filter_path keep segs) in
      ground (
        arith,
        length-select keep s.asns,
        select_all keep s.asns,
        length-append (encode_asns u s.asns) (encode u segs),
        length-append (encode_asns u kept) rest,
        length-encode_asns u s.asns,
        length-encode_asns u kept,
        length-filter_path segs,
        filter_path_all segs,
      )

module _ (u : Unaligned) (c : Comparisons) {D : Type 0} where
  -- On the buffer of any path `as_path_filter` returns the buffer of the path in which exactly the
  -- numbers stay whose match is `pos`, and of which every emptied segment is gone.
  pub as_path_filter-encode :
      (segs : List Segment) (set : Option (FTree D)) (key : ℕ) (pos : Bool)
      → IsPath segs
      → as_path_filter u c (some (encode u segs)) set key pos
        ≡ ok (some (encode u (filter_path (λ v. agrees (matches c set key v) pos) segs)))
  unfolding as_path_filter
  as_path_filter-encode segs set key pos h =
      let keep : ℕ → Bool = λ v. agrees (matches c set key v) pos in
      rw (filter_loop-encode u keep segs (length (encode u segs)) [] h (length-le-encode u segs))
        (ground (arith, filter_path_all u keep segs))

module _ (keep : ℕ → Bool) where
  select-IsAsn : (vs : List ℕ) → All IsAsn vs → All IsAsn (select keep vs)
  unfolding select
  select-IsAsn [] h = tt
  select-IsAsn (v ∷ vs) h = ground (arith, select-IsAsn vs h.1)

  filter_path-IsPath : (segs : List Segment) → IsPath segs → IsPath (filter_path keep segs)
  unfolding filter_path
  filter_path-IsPath [] h = tt
  filter_path-IsPath (s ∷ segs) h =
      ground
        (arith, filter_path-IsPath segs h.1, select-IsAsn s.asns h.0.1, length-select keep s.asns)

  count-le-length : (v : ℕ) (vs : List ℕ) → count v vs ≤ length vs
  count-le-length v [] = omega arith
  count-le-length v (w ∷ vs) = ground (arith, count-le-length v vs)

  count-select :
      (v : ℕ) (vs : List ℕ) → count v (select keep vs) ≡ (if keep v then count v vs else 0)
  unfolding select
  count-select v [] = ground arith
  count-select v (w ∷ vs) = ground (arith, count-select v vs)

  -- Filtering keeps all occurrences of a number or none.
  occurrences-filter_path :
      (v : ℕ) (segs : List Segment)
      → occurrences v (filter_path keep segs) ≡ (if keep v then occurrences v segs else 0)
  unfolding filter_path occurrences
  occurrences-filter_path v [] = ground arith
  occurrences-filter_path v (s ∷ segs) = ground (
    arith,
    count-select v s.asns,
    count-le-length v (select keep s.asns),
    occurrences-filter_path v segs,
  )

module _ (u : Unaligned) (c : Comparisons) {D : Type 0} where
  -- After a filter by a set or a key, `as_path_contains` counts a number as often as in the path
  -- before if its match is `pos`, and else not at all: a deleted number is nowhere in the result.
  pub as_path_contains-as_path_filter :
      (segs : List Segment) (set : Option (FTree D)) (key v min : ℕ) (pos : Bool)
      → IsPath segs
      → (as_path_filter u c (some (encode u segs)) set key pos
          >>= elim [ none ↦ ok false | some path ↦ as_path_contains u path v min ])
        ≡ ok (agrees (matches c set key v) pos && (ltb 0 min && leb min (occurrences v segs)))
  as_path_contains-as_path_filter segs set key v min pos h =
      let keep : ℕ → Bool = λ w. agrees (matches c set key w) pos in
      rw (as_path_filter-encode u c segs set key pos h) (
        rw
          (as_path_contains-encode u v min (filter_path keep segs) (filter_path-IsPath keep segs h))
          (ground (arith, occurrences-filter_path keep v segs)))
