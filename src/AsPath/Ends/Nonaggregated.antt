-- ===== src/AsPath/Ends/Nonaggregated.antt =====
-- `as_path_get_last_nonaggregated` of nest/a-path.c on the buffer of a list of segments.
use active_bgp_measurement.Base.{ℕ, zero, suc, ◌≤◌, ◌≡◌, inl, inr}
use active_bgp_measurement.Base.{List, [], ◌∷◌, ◌++◌, length, All, arith, refl}
use active_bgp_measurement.Base.{ok}
use active_bgp_measurement.Base.{ap, sym, ◌∙◌}
use active_bgp_measurement.AsPath.Wire.{Unaligned, Segment, IsAsn, IsPath, IsKnownPath}
use active_bgp_measurement.AsPath.Wire.{as_path_sequence, encode_asns, encode}
use active_bgp_measurement.AsPath.Wire.{drop-encode_asns}
use active_bgp_measurement.AsPath.Wire.{length-le-encode}
use active_bgp_measurement.AsPath.Ends.{
  nonaggregated_loop, as_path_get_last_nonaggregated, last_or, leading_asns, last_or-append,
  get_as-last_of,
}

module _ (u : Unaligned) where
  nonaggregated_sequence-encode :
      (kind : ℕ) (vs : List ℕ) (fuel : ℕ) (p : List ℕ) (res : ℕ)
      → kind ≡ as_path_sequence
      → All IsAsn vs
      → nonaggregated_loop u (suc fuel) (kind ∷ length vs ∷ (encode_asns u vs ++ p)) res
        ≡ nonaggregated_loop u fuel p (last_or res vs)
  unfolding nonaggregated_loop
  nonaggregated_sequence-encode kind [] fuel p res k h = unfold encode_asns in ground arith
  nonaggregated_sequence-encode kind (v ∷ vs) fuel p res k h =
      rw (drop-encode_asns u (v ∷ vs) p)
        (rw (get_as-last_of u (v ∷ vs) p h (omega arith)) (ground arith))

  nonaggregated_loop-encode :
      (segs : List Segment) (fuel res : ℕ)
      → IsPath segs
      → IsKnownPath segs
      → length segs ≤ fuel
      → nonaggregated_loop u fuel (encode u segs) res ≡ ok (last_or res (leading_asns segs))
  unfolding encode
  nonaggregated_loop-encode [] fuel res h k f = unfold nonaggregated_loop leading_asns in refl
  nonaggregated_loop-encode (s ∷ segs) zero res h k f = absurd (omega arith)
  nonaggregated_loop-encode (s ∷ segs) (suc fuel) res (h, hs) (k, ks) f = elim k [
    | inl is_set ↦ unfold nonaggregated_loop leading_asns in ground arith
    | inr is_sequence ↦
        nonaggregated_sequence-encode s.kind s.asns fuel (encode u segs) res is_sequence h.1
        ∙ nonaggregated_loop-encode segs fuel (last_or res s.asns) hs ks (omega arith)
        ∙ ap ok (
            sym (
              unfold leading_asns in ground (arith, last_or-append res s.asns (leading_asns segs))))
  ]

  -- On the buffer of a path of known segments `as_path_get_last_nonaggregated` returns the last
  -- number in front of the first set, and 0 if there is none.
  pub as_path_get_last_nonaggregated-encode :
      (segs : List Segment)
      → IsPath segs
      → IsKnownPath segs
      → as_path_get_last_nonaggregated u (encode u segs) ≡ ok (last_or 0 (leading_asns segs))
  unfolding as_path_get_last_nonaggregated
  as_path_get_last_nonaggregated-encode segs h k =
      nonaggregated_loop-encode segs (length (encode u segs)) 0 h k (length-le-encode u segs)
