-- ===== src/AsPath/Prepend.antt =====
-- `as_path_prepend` of nest/a-path.c.
use active_bgp_measurement.Base.{ℕ, ◌+◌, ◌≡◌, ◌&&◌, ◌++◌, ap, append_assoc, append-nil}
use active_bgp_measurement.Base.{List, [], ◌∷◌, length, arith, Res, ok, fault, ◌>>=◌}
use active_bgp_measurement.Base.{ltb, ◌==◌, if◌then◌else◌}
use active_bgp_measurement.AsPath.Wire.{Unaligned, Segment, as_path_sequence}
use active_bgp_measurement.AsPath.Wire.{IsAsn, IsPath, IsKnownPath, put_as, encode_asns, encode}
use active_bgp_measurement.AsPath.Length.{as_path_getlen, path_length, as_path_getlen-encode}

-- The AS number is put in front of a leading sequence that has room, else in a segment of its own.
-- A type byte of a sequence with no count byte behind it is read out of bounds.
pub as_path_prepend : Unaligned → List ℕ → ℕ → Res (List ℕ)
as_path_prepend u [] as_number = ok (as_path_sequence ∷ 1 ∷ put_as u as_number)
as_path_prepend u (t ∷ []) as_number =
    if t == as_path_sequence
    then fault
    else ok (as_path_sequence ∷ 1 ∷ (put_as u as_number ++ t ∷ []))
as_path_prepend u (t ∷ n ∷ p) as_number =
    if t == as_path_sequence && ltb n 255
    then ok (as_path_sequence ∷ (n + 1) ∷ (put_as u as_number ++ p))
    else ok (as_path_sequence ∷ 1 ∷ (put_as u as_number ++ t ∷ n ∷ p))

-- The same on segments.
unfoldable pub prepend : List Segment → ℕ → List Segment
prepend [] as_number = record { kind = as_path_sequence; asns = as_number ∷ [] } ∷ []
prepend (s ∷ segs) as_number =
    if s.kind == as_path_sequence && ltb (length s.asns) 255
    then record { kind = as_path_sequence; asns = as_number ∷ s.asns } ∷ segs
    else record { kind = as_path_sequence; asns = as_number ∷ [] } ∷ s ∷ segs

-- Prepending keeps every segment within its count byte.
pub prepend-IsPath :
    (segs : List Segment) (as_number : ℕ)
    → IsPath segs
    → IsAsn as_number
    → IsPath (prepend segs as_number)
unfolding prepend
prepend-IsPath [] as_number p a = omega arith
prepend-IsPath (s ∷ segs) as_number p a = ground arith

pub prepend-IsKnownPath :
    (segs : List Segment) (as_number : ℕ) → IsKnownPath segs → IsKnownPath (prepend segs as_number)
unfolding prepend
prepend-IsKnownPath [] as_number p = ground arith
prepend-IsKnownPath (s ∷ segs) as_number p = ground arith

-- A prepended number adds exactly one hop, also where a full sequence forces a new segment.
pub path_length-prepend :
    (segs : List Segment) (as_number : ℕ)
    → path_length (prepend segs as_number) ≡ path_length segs + 1
unfolding prepend path_length
path_length-prepend [] as_number = omega arith
path_length-prepend (s ∷ segs) as_number = ground arith

module _ (u : Unaligned) where
  -- On the buffer of any list of segments `as_path_prepend` returns the buffer of the segments with
  -- the number in front: in the leading sequence if that holds fewer than 255, else in a new one.
  pub as_path_prepend-encode :
      (segs : List Segment) (as_number : ℕ)
      → as_path_prepend u (encode u segs) as_number ≡ ok (encode u (prepend segs as_number))
  unfolding as_path_prepend encode encode_asns prepend
  as_path_prepend-encode [] as_number = simp append-nil
  as_path_prepend-encode (s ∷ segs) as_number = ground (
    arith,
    append_assoc (put_as u as_number) (encode_asns u s.asns) (encode u segs),
    append_assoc (put_as u as_number) [] (encode u (s ∷ segs)),
  )

  -- On the buffer of a path of known segments `as_path_prepend` makes the length that `as_path_getlen`
  -- returns greater by exactly one.
  pub as_path_getlen-prepend :
      (segs : List Segment) (as_number : ℕ)
      → IsKnownPath segs
      → (as_path_prepend u (encode u segs) as_number >>= as_path_getlen) ≡ ok (path_length segs + 1)
  as_path_getlen-prepend segs as_number k = rw (as_path_prepend-encode segs as_number) (
      rw (as_path_getlen-encode u _ (prepend-IsKnownPath segs as_number k))
        (ap ok (path_length-prepend segs as_number)))
