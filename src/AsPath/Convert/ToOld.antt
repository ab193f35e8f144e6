-- ===== src/AsPath/Convert/ToOld.antt =====
-- `as_path_convert_to_old` on the buffer of a list of segments.
use active_bgp_measurement.Base.{ℕ, zero, suc, ◌≤◌, ◌≡◌, ◌||◌, ◌++◌}
use active_bgp_measurement.Base.{List, [], ◌∷◌, length, All, arith, Bool, false, refl, ap}
use active_bgp_measurement.Base.{ok, ltb}
use active_bgp_measurement.Base.{append_assoc, append-nil}
use active_bgp_measurement.AsPath.Wire.{Unaligned, Segment, IsAsn, IsPath, put_as}
use active_bgp_measurement.AsPath.Wire.{get_as-put_as, drop-put_as, encode_asns, encode}
use active_bgp_measurement.AsPath.Wire.{length-le-encode}
use active_bgp_measurement.AsPath.Convert.{
  put_old, to_old_asns, to_old_loop, as_path_convert_to_old, encode_old_asns, encode_old, shorten,
  shorten_all, shorten_path, any_large, has_large,
}

module _ (u : Unaligned) where
  to_old_asns-encode :
      (vs p dst : List ℕ) (used : Bool)
      → All IsAsn vs
      → to_old_asns u (length vs) (encode_asns u vs ++ p) dst used
        ≡ ok (dst ++ encode_old_asns u (shorten_all vs), any_large vs || used, p)
  unfolding to_old_asns encode_asns encode_old_asns
  to_old_asns-encode [] p dst used h = ground (arith, append-nil dst)
  to_old_asns-encode (v ∷ vs) p dst used (h, hs) = ground (
    arith,
    append_assoc (put_as u v) (encode_asns u vs) p,
    get_as-put_as u v (encode_asns u vs ++ p) h,
    drop-put_as u v (encode_asns u vs ++ p),
    append_assoc dst (put_old u (shorten v)) (encode_old_asns u (shorten_all vs)),
    to_old_asns-encode vs p (dst ++ put_old u (shorten v)) (ltb 0xffff v || used) hs,
  )

  length-shorten_all : (vs : List ℕ) → length (shorten_all vs) ≡ length vs
  length-shorten_all [] = refl
  length-shorten_all (v ∷ vs) = ap suc (length-shorten_all vs)

  to_old_loop-encode :
      (segs : List Segment) (fuel : ℕ) (dst : List ℕ) (used : Bool)
      → IsPath segs
      → length segs ≤ fuel
      → to_old_loop u fuel (encode u segs) dst used
        ≡ ok (dst ++ encode_old u (shorten_path segs), has_large segs || used)
  unfolding to_old_loop encode encode_old shorten_path has_large
  to_old_loop-encode [] fuel dst used h f = ground (arith, append-nil dst)
  to_old_loop-encode (s ∷ segs) zero dst used h f = absurd (omega arith)
  to_old_loop-encode (s ∷ segs) (suc fuel) dst used (h, hs) f =
      let header : List ℕ = s.kind ∷ length s.asns ∷ [] in
      let body = encode_old_asns u (shorten_all s.asns) in
      let rest = encode_old u (shorten_path segs) in
      rw (to_old_asns-encode s.asns (encode u segs) (dst ++ header) used h.1) (
        ground (
          arith,
          length-shorten_all s.asns,
          append_assoc (dst ++ header) body rest,
          append_assoc dst header (body ++ rest),
          to_old_loop-encode segs fuel ((dst ++ header) ++ body) (any_large s.asns || used) hs,
        ))

  -- On the buffer of any path `as_path_convert_to_old` writes the same segments with 2-byte numbers,
  -- AS_TRANS for each number above 65535, and sets `*new_used` exactly if there was such a number.
  pub as_path_convert_to_old-encode :
      (segs : List Segment)
      → IsPath segs
      → as_path_convert_to_old u (encode u segs)
        ≡ ok (encode_old u (shorten_path segs), has_large segs)
  unfolding as_path_convert_to_old
  as_path_convert_to_old-encode segs h =
      ground (
        arith,
        to_old_loop-encode segs (length (encode u segs)) [] false h (length-le-encode u segs),
      )
