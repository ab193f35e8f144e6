-- ===== src/AsPath/Ends/First.antt =====
-- `as_path_get_first` of nest/a-path.c on the buffer of a list of segments.
use active_bgp_measurement.Base.{ℕ, ◌≡◌}
use active_bgp_measurement.Base.{List, [], ◌∷◌, ◌++◌, length, All, arith, refl}
use active_bgp_measurement.Base.{ok, ◌>>=◌, ◌==◌, if◌then◌else◌}
use active_bgp_measurement.Base.{Option, none, some, append_assoc, ap, ◌∙◌}
use active_bgp_measurement.AsPath.Wire.{Unaligned, Segment, IsAsn, IsPath}
use active_bgp_measurement.AsPath.Wire.{put_as, as_path_sequence, encode_asns, encode}
use active_bgp_measurement.AsPath.Wire.{get_as-put_as}
use active_bgp_measurement.AsPath.Prepend.{
  prepend, as_path_prepend, as_path_prepend-encode, prepend-IsPath,
}
use active_bgp_measurement.AsPath.Ends.{as_path_get_first}

-- The first number of the first segment, if that is a sequence.
unfoldable pub neighbour : List Segment → Option ℕ
neighbour [] = none
neighbour (s ∷ segs) =
    if s.kind == as_path_sequence then (elim s.asns [ [] ↦ none | v ∷ vs ↦ some v ]) else none

neighbour-prepend :
    (segs : List Segment) (as_number : ℕ) → neighbour (prepend segs as_number) ≡ some as_number
unfolding neighbour prepend
neighbour-prepend [] as_number = refl
neighbour-prepend (s ∷ segs) as_number = ground arith

module _ (u : Unaligned) where
  get_first_segment :
      (kind : ℕ) (vs p : List ℕ) (segs : List Segment)
      → All IsAsn vs
      → as_path_get_first u (kind ∷ length vs ∷ (encode_asns u vs ++ p))
        ≡ ok (neighbour (record { kind = kind; asns = vs } ∷ segs))
  unfolding as_path_get_first encode_asns neighbour
  get_first_segment kind [] p segs h = ground arith
  get_first_segment kind (v ∷ vs) p segs h = ground (
    arith,
    append_assoc (put_as u v) (encode_asns u vs) p,
    get_as-put_as u v (encode_asns u vs ++ p) h.0,
  )

  -- On the buffer of any path `as_path_get_first` returns the first number of the first segment if
  -- that is a sequence that is not empty, and none otherwise.
  pub as_path_get_first-encode :
      (segs : List Segment)
      → IsPath segs
      → as_path_get_first u (encode u segs) ≡ ok (neighbour segs)
  unfolding encode
  as_path_get_first-encode [] h = unfold as_path_get_first neighbour in refl
  as_path_get_first-encode (s ∷ segs) h = get_first_segment s.kind s.asns (encode u segs) segs h.0.1

  -- After `as_path_prepend` of a number, `as_path_get_first` returns that number.
  pub as_path_get_first-as_path_prepend :
      (segs : List Segment) (as_number : ℕ)
      → IsPath segs
      → IsAsn as_number
      → (as_path_prepend u (encode u segs) as_number >>= as_path_get_first u) ≡ ok (some as_number)
  as_path_get_first-as_path_prepend segs as_number h a =
      rw (as_path_prepend-encode u segs as_number) (
        as_path_get_first-encode (prepend segs as_number) (prepend-IsPath segs as_number h a)
        ∙ ap ok (neighbour-prepend segs as_number))
