-- ===== src/AsPath/Length.antt =====
-- `as_path_getlen` and `as_path_getlen_int` of nest/a-path.c.
use active_bgp_measurement.Base.{ℕ, zero, suc, ◌+◌, ◌*◌, ◌≤◌, ◌≡◌, ◌||◌, ◌⊎◌, inl, inr, refl}
use active_bgp_measurement.Base.{List, [], ◌∷◌, length, length-drop, drop, All, arith, ◌≢◌}
use active_bgp_measurement.Base.{Res, ok, bug, fault, out_of_fuel, ◌==◌, if◌then◌else◌}
use active_bgp_measurement.AsPath.Wire.{Unaligned, Segment, as_path_set, as_path_sequence, bs}
use active_bgp_measurement.AsPath.Wire.{IsByte, IsKnownPath, encode}
use active_bgp_measurement.AsPath.Wire.{drop-encode_asns, length-le-encode}

-- The `while (p<q)` loop. A known type with no byte behind it is read out of bounds.
unfoldable pub getlen_loop : ℕ → ℕ → List ℕ → ℕ → Res ℕ
getlen_loop width fuel [] res = ok res
getlen_loop width zero (t ∷ p) res = out_of_fuel
getlen_loop width (suc fuel) (t ∷ []) res =
    if t == as_path_set || t == as_path_sequence then fault else bug
getlen_loop width (suc fuel) (t ∷ len ∷ p) res =
    let after_set = getlen_loop width fuel (drop (width * len) p) (res + 1) in
    let after_sequence = getlen_loop width fuel (drop (width * len) p) (res + len) in
    if t == as_path_set then after_set else (if t == as_path_sequence then after_sequence else bug)

unfoldable pub as_path_getlen_int : List ℕ → ℕ → Res ℕ
as_path_getlen_int path width = getlen_loop width (length path) path 0

unfoldable pub as_path_getlen : List ℕ → Res ℕ
as_path_getlen path = as_path_getlen_int path bs

-- The length of RFC 4271 9.1.2.2: a set counts as one hop.
pub hops : Segment → ℕ
hops s = if s.kind == as_path_set then 1 else length s.asns

unfoldable pub path_length : List Segment → ℕ
unfolding hops
path_length [] = 0
path_length (s ∷ segs) = hops s + path_length segs

module _ (u : Unaligned) where
  getlen_loop-encode :
      (segs : List Segment) (fuel res : ℕ)
      → IsKnownPath segs
      → length segs ≤ fuel
      → getlen_loop bs fuel (encode u segs) res ≡ ok (res + path_length segs)
  unfolding getlen_loop encode path_length
  getlen_loop-encode [] fuel res k h = ground arith
  getlen_loop-encode (s ∷ segs) zero res k h = absurd (omega arith)
  getlen_loop-encode (s ∷ segs) (suc fuel) res (k, ks) h = ground (
    arith,
    drop-encode_asns u s.asns (encode u segs),
    getlen_loop-encode segs fuel (res + hops s) ks,
  )

  -- On the buffer of segments of known types `as_path_getlen` returns, and the result is the sum of
  -- the sequences' lengths plus one for each set.
  pub as_path_getlen-encode :
      (segs : List Segment)
      → IsKnownPath segs
      → as_path_getlen (encode u segs) ≡ ok (path_length segs)
  unfolding as_path_getlen as_path_getlen_int
  as_path_getlen-encode segs k =
      ground (arith, getlen_loop-encode segs (length (encode u segs)) 0 k (length-le-encode u segs))

getlen_loop-ne-out_of_fuel :
    (fuel width : ℕ) (p : List ℕ) (res : ℕ)
    → length p ≤ fuel
    → getlen_loop width fuel p res ≢ out_of_fuel
unfolding getlen_loop
getlen_loop-ne-out_of_fuel fuel width [] res h = λ e. cc
getlen_loop-ne-out_of_fuel zero width (t ∷ p) res h = absurd (omega arith)
getlen_loop-ne-out_of_fuel (suc fuel) width (t ∷ []) res h = ground arith
getlen_loop-ne-out_of_fuel (suc fuel) width (t ∷ len ∷ p) res h = ground (
  arith,
  length-drop (width * len) p,
  getlen_loop-ne-out_of_fuel fuel width (drop (width * len) p) (res + 1),
  getlen_loop-ne-out_of_fuel fuel width (drop (width * len) p) (res + len),
)

-- What the loop can still add: a count byte that overruns the buffer ends it.
abbrev slack : List ℕ → ℕ
slack [] = 0
slack (b ∷ p) = length p + 256

slack-drop : (k : ℕ) (p : List ℕ) → (slack (drop k p) ≡ 0) ⊎ (slack (drop k p) + k ≤ length p + 255)
slack-drop zero [] = inl refl
slack-drop zero (b ∷ p) = inr (omega arith)
slack-drop (suc k) [] = inl refl
slack-drop (suc k) (b ∷ p) = ground (arith, slack-drop k p)

All-drop : (k : ℕ) (p : List ℕ) → All IsByte p → All IsByte (drop k p)
All-drop zero p b = b
All-drop (suc k) [] b = b
All-drop (suc k) (x ∷ p) b = All-drop k p b.1

getlen_loop_bound :
    (fuel width : ℕ) (p : List ℕ) (res n : ℕ)
    → 1 ≤ width
    → All IsByte p
    → getlen_loop width fuel p res ≡ ok n
    → n ≤ res + slack p
unfolding getlen_loop
getlen_loop_bound fuel width [] res n w b h = ground arith
getlen_loop_bound zero width (t ∷ p) res n w b h = cc
getlen_loop_bound (suc fuel) width (t ∷ []) res n w b h = ground arith
getlen_loop_bound (suc fuel) width (t ∷ len ∷ p) res n w b h =
    let wide : len ≤ width * len = grind arith in
    let rest = All-drop (width * len) p b.1.1 in
    ground (
      arith,
      slack-drop (width * len) p,
      getlen_loop_bound fuel width (drop (width * len) p) (res + 1) n w rest,
      getlen_loop_bound fuel width (drop (width * len) p) (res + len) n w rest,
    )

slack-le : (p : List ℕ) → slack p ≤ length p + 255
slack-le [] = omega arith
slack-le (x ∷ p) = omega arith

-- On any bytes at all, well formed or not, the walk of `as_path_getlen` ends.
pub as_path_getlen_ends : (path : List ℕ) → as_path_getlen path ≢ out_of_fuel
unfolding as_path_getlen as_path_getlen_int
as_path_getlen_ends path = getlen_loop-ne-out_of_fuel (length path) bs path 0 (omega arith)

-- A length that `as_path_getlen` returns, also on a malformed buffer, is at most 255 above the
-- buffer's length in bytes.
pub as_path_getlen_bound :
    (path : List ℕ) (n : ℕ) → All IsByte path → as_path_getlen path ≡ ok n → n ≤ length path + 255
unfolding as_path_getlen as_path_getlen_int
as_path_getlen_bound path n b h =
    omega (arith, getlen_loop_bound (length path) bs path 0 n (omega arith) b h, slack-le path)
