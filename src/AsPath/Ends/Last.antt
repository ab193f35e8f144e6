-- ===== src/AsPath/Ends/Last.antt =====
-- `as_path_get_last` of nest/a-path.c on the buffer of a list of segments.
use active_bgp_measurement.Base.{ℕ, zero, suc, ◌-◌, ◌*◌, ◌≤◌, ◌<◌, ◌≡◌, inl, inr}
use active_bgp_measurement.Base.{List, [], ◌∷◌, ◌++◌, length, drop, All, arith, refl}
use active_bgp_measurement.Base.{ok, ltb, if◌then◌else◌}
use active_bgp_measurement.Base.{Option, none, some, ap, ◌∙◌}
use active_bgp_measurement.AsPath.Wire.{Unaligned, Segment, bs, IsAsn, IsPath, IsKnownPath, get_as}
use active_bgp_measurement.AsPath.Wire.{as_path_set, as_path_sequence, encode_asns, encode}
use active_bgp_measurement.AsPath.Wire.{drop-encode_asns}
use active_bgp_measurement.AsPath.Wire.{length-le-encode}
use active_bgp_measurement.AsPath.Ends.{
  get_last_loop, as_path_get_last, last_or, latest, has_asn, origin, get_as-last_of,
}

origin_set :
    (s : Segment) (segs : List Segment) (found : Option ℕ)
    → s.kind ≡ as_path_set
    → (if has_asn segs then origin segs else (if ltb 0 (length s.asns) then none else found))
      ≡ (if has_asn (s ∷ segs) then origin (s ∷ segs) else found)
unfolding origin
origin_set s segs found k = ground arith

origin_sequence :
    (kind : ℕ) (vs : List ℕ) (segs : List Segment) (found : Option ℕ)
    → kind ≡ as_path_sequence
    → (if has_asn segs then origin segs else latest found vs) ≡ (
        if has_asn (record { kind = kind; asns = vs } ∷ segs)
        then origin (record { kind = kind; asns = vs } ∷ segs)
        else found)
unfolding origin
origin_sequence kind [] segs found k = ground arith
origin_sequence kind (v ∷ vs) segs found k = ground arith

-- A path of empty segments has no origin.
origin_default : (segs : List Segment) → (if has_asn segs then origin segs else none) ≡ origin segs
unfolding origin
origin_default [] = refl
origin_default (s ∷ segs) = ground (arith, origin_default segs)

module _ (u : Unaligned) where
  -- One round on a sequence that is not empty.
  get_last_sequence :
      (fuel t len v : ℕ) (p : List ℕ) (found : Option ℕ)
      → t ≡ as_path_sequence
      → 0 < len
      → get_as u (drop (bs * (len - 1)) p) ≡ ok v
      → get_last_loop u (suc fuel) (t ∷ len ∷ p) found
        ≡ get_last_loop u fuel (drop (bs * len) p) (some v)
  unfolding get_last_loop
  get_last_sequence fuel t len v p found k n e = rw e (ground arith)

  -- One round on an encoded segment.
  get_last_sequence-encode :
      (kind : ℕ) (vs : List ℕ) (fuel : ℕ) (p : List ℕ) (found : Option ℕ)
      → kind ≡ as_path_sequence
      → All IsAsn vs
      → get_last_loop u (suc fuel) (kind ∷ length vs ∷ (encode_asns u vs ++ p)) found
        ≡ get_last_loop u fuel p (latest found vs)
  get_last_sequence-encode kind [] fuel p found k h =
      unfold get_last_loop encode_asns in ground arith
  get_last_sequence-encode kind (v ∷ vs) fuel p found k h =
      get_last_sequence fuel kind (length (v ∷ vs)) (last_or v vs) (encode_asns u (v ∷ vs) ++ p)
        found k (omega arith) (get_as-last_of u (v ∷ vs) p h (omega arith))
      ∙ ap (λ (q : List ℕ). get_last_loop u fuel q (some (last_or v vs)))
          (drop-encode_asns u (v ∷ vs) p)

  get_last_set-encode :
      (kind : ℕ) (vs : List ℕ) (fuel : ℕ) (p : List ℕ) (found : Option ℕ)
      → kind ≡ as_path_set
      → get_last_loop u (suc fuel) (kind ∷ length vs ∷ (encode_asns u vs ++ p)) found
        ≡ get_last_loop u fuel p (if ltb 0 (length vs) then none else found)
  get_last_set-encode kind [] fuel p found k = unfold get_last_loop encode_asns in ground arith
  get_last_set-encode kind (v ∷ vs) fuel p found k =
      unfold get_last_loop in ground (arith, drop-encode_asns u (v ∷ vs) p)

  get_last_loop-encode :
      (segs : List Segment) (fuel : ℕ) (found : Option ℕ)
      → IsPath segs
      → IsKnownPath segs
      → length segs ≤ fuel
      → get_last_loop u fuel (encode u segs) found
        ≡ ok (if has_asn segs then origin segs else found)
  unfolding encode
  get_last_loop-encode [] fuel found h k f = unfold get_last_loop origin in ground arith
  get_last_loop-encode (s ∷ segs) zero found h k f = absurd (omega arith)
  get_last_loop-encode (s ∷ segs) (suc fuel) found (h, hs) (k, ks) f = elim k [
    | inl is_set ↦
        get_last_set-encode s.kind s.asns fuel (encode u segs) found is_set
        ∙ get_last_loop-encode segs fuel (if ltb 0 (length s.asns) then none else found) hs ks
            (omega arith)
        ∙ ap ok (origin_set s segs found is_set)
    | inr is_sequence ↦
        get_last_sequence-encode s.kind s.asns fuel (encode u segs) found is_sequence h.1
        ∙ get_last_loop-encode segs fuel (latest found s.asns) hs ks (omega arith)
        ∙ ap ok (origin_sequence s.kind s.asns segs found is_sequence)
  ]

  -- On the buffer of a path of known segments `as_path_get_last` returns the origin: the last number
  -- of the last segment that is not empty, and no number if that segment is a set or all are empty.
  pub as_path_get_last-encode :
      (segs : List Segment)
      → IsPath segs
      → IsKnownPath segs
      → as_path_get_last u (encode u segs) ≡ ok (origin segs)
  unfolding as_path_get_last
  as_path_get_last-encode segs h k =
      get_last_loop-encode segs (length (encode u segs)) none h k (length-le-encode u segs)
      ∙ ap ok (origin_default segs)
