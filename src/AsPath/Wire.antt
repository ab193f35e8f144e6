-- ===== src/AsPath/Wire.antt =====
-- The byte format of an AS path (nest/a-path.c, nest/attrs.h), and the list of segments that such a
-- buffer stands for. `get_u32`, `put_u32`, `get_u16` and `put_u16` are those of lib/unaligned.h,
-- which the repository does not hold, so they are a parameter with the laws of a codec.
use active_bgp_measurement.Base.{ℕ, ◌*◌, ◌^◌, ◌<◌, ◌≤◌, ◌≡◌, ◌⊎◌, refl, ap}
use active_bgp_measurement.Base.{List, [], ◌∷◌, ◌++◌, length, length-append, drop}
use active_bgp_measurement.Base.{drop-append, All, Res, ok, fault, arith}

pub record Unaligned : Type 0 where
  pub get_u32 : ℕ → ℕ → ℕ → ℕ → ℕ
  pub put_u32 : ℕ → ℕ × ℕ × ℕ × ℕ
  pub get_u16 : ℕ → ℕ → ℕ
  pub put_u16 : ℕ → ℕ × ℕ
  pub get_u32-put_u32 :
      (v : ℕ) → v < 2 ^ 32 → get_u32 (put_u32 v).0 (put_u32 v).1 (put_u32 v).2 (put_u32 v).3 ≡ v
  pub get_u16-put_u16 : (v : ℕ) → v < 2 ^ 16 → get_u16 (put_u16 v).0 (put_u16 v).1 ≡ v

abbrev pub as_path_set : ℕ
as_path_set = 1

abbrev pub as_path_sequence : ℕ
as_path_sequence = 2

-- `BS`, the bytes of an AS number.
abbrev pub bs : ℕ
bs = 4

module _ (u : Unaligned) where
  -- `get_as(p)`, where the list is what the buffer holds from `p` on.
  pub get_as : List ℕ → Res ℕ
  get_as (a ∷ b ∷ c ∷ d ∷ p) = ok (u.get_u32 a b c d)
  get_as _ = fault

  pub put_as : ℕ → List ℕ
  put_as v = let w = u.put_u32 v in w.0 ∷ w.1 ∷ w.2 ∷ w.3 ∷ []

  pub get_as-put_as : (v : ℕ) (p : List ℕ) → v < 2 ^ 32 → get_as (put_as v ++ p) ≡ ok v
  unfolding get_as put_as
  get_as-put_as v p h = ap ok (u.get_u32-put_u32 v h)

  pub length-put_as : (v : ℕ) → length (put_as v) ≡ bs
  unfolding put_as
  length-put_as v = omega arith

  pub drop-put_as : (v : ℕ) (p : List ℕ) → drop bs (put_as v ++ p) ≡ p
  unfolding put_as
  drop-put_as v p = refl

-- A segment as the protocol sees it.
pub record Segment : Type 0 where
  pub kind : ℕ
  pub asns : List ℕ

abbrev pub IsByte : ℕ → Type 0
IsByte b = b < 256

abbrev pub IsAsn : ℕ → Type 0
IsAsn v = v < 2 ^ 32

-- The segment fits its count byte.
abbrev pub IsSegment : Segment → Type 0
IsSegment s = (length s.asns < 256) × All IsAsn s.asns

-- The segment types that BIRD itself handles.
abbrev pub IsKnown : Segment → Type 0
IsKnown s = (s.kind ≡ as_path_set) ⊎ (s.kind ≡ as_path_sequence)

abbrev pub IsPath : List Segment → Type 0
IsPath segs = All IsSegment segs

abbrev pub IsKnownPath : List Segment → Type 0
IsKnownPath segs = All IsKnown segs

module _ (u : Unaligned) where
  unfoldable pub encode_asns : List ℕ → List ℕ
  encode_asns [] = []
  encode_asns (v ∷ vs) = put_as u v ++ encode_asns vs

  -- The buffer of a list of segments.
  unfoldable pub encode : List Segment → List ℕ
  encode [] = []
  encode (s ∷ segs) = s.kind ∷ length s.asns ∷ (encode_asns s.asns ++ encode segs)

  pub length-encode_asns : (vs : List ℕ) → length (encode_asns vs) ≡ bs * length vs
  unfolding encode_asns
  length-encode_asns [] = omega arith
  length-encode_asns (v ∷ vs) =
      omega (
        arith,
        length-append (put_as u v) (encode_asns vs),
        length-put_as u v,
        length-encode_asns vs,
      )

  pub drop-encode_asns : (vs p : List ℕ) → drop (bs * length vs) (encode_asns vs ++ p) ≡ p
  drop-encode_asns vs p = drop-append (bs * length vs) (encode_asns vs) p (length-encode_asns vs)

  -- Each segment takes two bytes at least, so the length of a buffer is fuel for its segments.
  pub length-le-encode : (segs : List Segment) → length segs ≤ length (encode segs)
  unfolding encode
  length-le-encode [] = omega arith
  length-le-encode (s ∷ segs) =
      omega (arith, length-append (encode_asns s.asns) (encode segs), length-le-encode segs)
