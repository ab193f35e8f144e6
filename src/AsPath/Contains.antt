-- ===== src/AsPath/Contains.antt =====
-- `as_path_contains` of nest/a-path.c, which loop detection calls.
use active_bgp_measurement.Base.{ℕ, zero, suc, ◌+◌, ◌≤◌, ◌≡◌, ◌&&◌, ◌++◌}
use active_bgp_measurement.Base.{List, [], ◌∷◌, length, drop, All, arith, Bool, true, false}
use active_bgp_measurement.Base.{Res, ok, fault, out_of_fuel, ◌>>=◌, ltb, leb, ◌==◌, if◌then◌else◌}
use active_bgp_measurement.Base.{append_assoc}
use active_bgp_measurement.AsPath.Wire.{Unaligned, Segment, bs, IsAsn, IsPath, get_as, put_as}
use active_bgp_measurement.AsPath.Wire.{get_as-put_as, drop-put_as, encode_asns, encode}
use active_bgp_measurement.AsPath.Wire.{length-le-encode}

-- The inner loop returns from the function, or goes on with `num` and `p`.
data Scan : Type 0 where
  found : Scan
  more : ℕ → List ℕ → Scan

-- `for(i=0; i<n; i++)`: `++num == min` counts before it compares.
contains_asns : Unaligned → ℕ → ℕ → ℕ → List ℕ → ℕ → Res Scan
contains_asns u as_number min zero p num = ok (more num p)
contains_asns u as_number min (suc n) p num = do
  v ← get_as u p
  let hit = contains_asns u as_number min n (drop bs p) (num + 1)
  let miss = contains_asns u as_number min n (drop bs p) num
  if v == as_number then (if (num + 1) == min then ok found else hit) else miss

-- `while (p<q)`
contains_loop : Unaligned → ℕ → ℕ → ℕ → List ℕ → ℕ → Res Bool
contains_loop u as_number min fuel [] num = ok false
contains_loop u as_number min zero (t ∷ p) num = out_of_fuel
contains_loop u as_number min (suc fuel) (t ∷ []) num = fault
contains_loop u as_number min (suc fuel) (t ∷ n ∷ p) num =
    contains_asns u as_number min n p num
    >>= elim [ found ↦ ok true | more num' p' ↦ contains_loop u as_number min fuel p' num' ]

pub as_path_contains : Unaligned → List ℕ → ℕ → ℕ → Res Bool
as_path_contains u path as_number min = contains_loop u as_number min (length path) path 0

-- How often a number stands in a list, and in all segments of a path.
abbrev pub count : ℕ → List ℕ → ℕ
count v [] = 0
count v (w ∷ ws) = (if w == v then 1 else 0) + count v ws

unfoldable pub occurrences : ℕ → List Segment → ℕ
occurrences v [] = 0
occurrences v (s ∷ segs) = count v s.asns + occurrences v segs

-- The scan of one segment: it stops where the count reaches `min`.
abbrev after_scan : ℕ → ℕ → ℕ → List ℕ → Scan
after_scan min num n p = if ltb num min && leb min (num + n) then found else more (num + n) p

module _ (u : Unaligned) (as_number min : ℕ) where
  contains_asns-encode :
      (vs p : List ℕ) (num : ℕ)
      → All IsAsn vs
      → contains_asns u as_number min (length vs) (encode_asns u vs ++ p) num
        ≡ ok (after_scan min num (count as_number vs) p)
  unfolding contains_asns encode_asns
  contains_asns-encode [] p num h = ground arith
  contains_asns-encode (v ∷ vs) p num (h, hs) = ground (
    arith,
    append_assoc (put_as u v) (encode_asns u vs) p,
    get_as-put_as u v (encode_asns u vs ++ p) h,
    drop-put_as u v (encode_asns u vs ++ p),
    contains_asns-encode vs p num hs,
    contains_asns-encode vs p (num + 1) hs,
  )

  contains_loop-encode :
      (segs : List Segment) (fuel num : ℕ)
      → IsPath segs
      → length segs ≤ fuel
      → contains_loop u as_number min fuel (encode u segs) num
        ≡ ok (ltb num min && leb min (num + occurrences as_number segs))
  unfolding contains_loop encode occurrences
  contains_loop-encode [] fuel num h f = ground arith
  contains_loop-encode (s ∷ segs) zero num h f = absurd (omega arith)
  contains_loop-encode (s ∷ segs) (suc fuel) num (h, hs) f = ground (
    arith,
    contains_asns-encode s.asns (encode u segs) num h.1,
    contains_loop-encode segs fuel (num + count as_number s.asns) hs,
  )

  -- On the buffer of any path `as_path_contains` returns, and it answers 1 exactly if `min` is at
  -- least 1 and the number occurs at least `min` times, counted over all segments.
  pub as_path_contains-encode :
      (segs : List Segment)
      → IsPath segs
      → as_path_contains u (encode u segs) as_number min
        ≡ ok (ltb 0 min && leb min (occurrences as_number segs))
  unfolding as_path_contains
  as_path_contains-encode segs h =
      ground
        (arith, contains_loop-encode segs (length (encode u segs)) 0 h (length-le-encode u segs))
