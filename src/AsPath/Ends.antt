-- ===== src/AsPath/Ends.antt =====
-- `as_path_get_first`, `as_path_get_last` and `as_path_get_last_nonaggregated` of nest/a-path.c:
-- the neighbour and the origin of a path.
pub mod First
pub mod Last
pub mod Nonaggregated
use active_bgp_measurement.Base.{
  ℕ, zero, suc, ◌+◌, ◌-◌, ◌*◌, ◌≤◌, ◌<◌, ◌^◌, ◌≡◌, ◌≢◌, ◌⊎◌, inl, inr, ◌&&◌, ◌||◌,
}
use active_bgp_measurement.Base.{
  List, [], ◌∷◌, ◌++◌, length, drop, All, arith, Bool, true, false, refl,
}
use active_bgp_measurement.Base.{Res, ok, bug, fault, out_of_fuel, ◌>>=◌, ltb, ◌==◌, if◌then◌else◌}
use active_bgp_measurement.Base.{Option, none, some, append_assoc, ap, sym, ◌∙◌, drop-drop}
use active_bgp_measurement.AsPath.Wire.{Unaligned, Segment, bs, IsAsn, IsPath, IsKnownPath, get_as}
use active_bgp_measurement.AsPath.Wire.{put_as, as_path_set, as_path_sequence, encode_asns, encode}
use active_bgp_measurement.AsPath.Wire.{get_as-put_as, drop-put_as, drop-encode_asns}
use active_bgp_measurement.AsPath.Wire.{length-le-encode}
use active_bgp_measurement.AsPath.Prepend.{prepend, as_path_prepend, as_path_prepend-encode}

-- `none` is the return value 0, at which the output parameter is left alone.
pub as_path_get_first : Unaligned → List ℕ → Res (Option ℕ)
as_path_get_first u [] = ok none
as_path_get_first u (t ∷ []) = if t == as_path_sequence then fault else ok none
as_path_get_first u (t ∷ n ∷ p) =
    if t == as_path_sequence
    then (if n == 0 then ok none else (get_as u p >>= λ v. ok (some v)))
    else ok none

pub get_last_loop : Unaligned → ℕ → List ℕ → Option ℕ → Res (Option ℕ)
get_last_loop u fuel [] found = ok found
get_last_loop u zero (t ∷ p) found = out_of_fuel
get_last_loop u (suc fuel) (t ∷ []) found =
    if t == as_path_set || t == as_path_sequence then fault else bug
get_last_loop u (suc fuel) (t ∷ len ∷ p) found =
    let empty = get_last_loop u fuel p found in
    let after_set = get_last_loop u fuel (drop (bs * len) p) none in
    let after_sequence = get_as u (drop (bs * (len - 1)) p) >>= λ v.
    get_last_loop u fuel (drop (bs * len) p) (some v) in
    if t == as_path_set
    then (if len == 0 then empty else after_set)
    else (if t == as_path_sequence then (if len == 0 then empty else after_sequence) else bug)

-- `found` and `res` are one option: `res` is read only where `found` is 1.
pub as_path_get_last : Unaligned → List ℕ → Res (Option ℕ)
as_path_get_last u path = get_last_loop u (length path) path none

pub nonaggregated_loop : Unaligned → ℕ → List ℕ → ℕ → Res ℕ
nonaggregated_loop u fuel [] res = ok res
nonaggregated_loop u zero (t ∷ p) res = out_of_fuel
nonaggregated_loop u (suc fuel) (t ∷ []) res =
    if t == as_path_set then ok res else (if t == as_path_sequence then fault else bug)
nonaggregated_loop u (suc fuel) (t ∷ len ∷ p) res =
    let empty = nonaggregated_loop u fuel (drop (bs * len) p) res in
    let after_sequence =
      get_as u (drop (bs * (len - 1)) p) >>= λ v. nonaggregated_loop u fuel (drop (bs * len) p) v in
    if t == as_path_set
    then ok res
    else (if t == as_path_sequence then (if len == 0 then empty else after_sequence) else bug)

pub as_path_get_last_nonaggregated : Unaligned → List ℕ → Res ℕ
as_path_get_last_nonaggregated u path = nonaggregated_loop u (length path) path 0

-- The last element, or `d` of the empty list.
abbrev pub last_or : ℕ → List ℕ → ℕ
last_or d [] = d
last_or d (v ∷ vs) = last_or v vs

-- The last element, or `found` of the empty list.
abbrev pub latest : Option ℕ → List ℕ → Option ℕ
latest found [] = found
latest found (v ∷ vs) = some (last_or v vs)

-- The origin: the last number of the last segment that is not empty, if that is a sequence.
abbrev pub has_asn : List Segment → Bool
has_asn [] = false
has_asn (s ∷ segs) = ltb 0 (length s.asns) || has_asn segs

unfoldable pub origin : List Segment → Option ℕ
origin [] = none
origin (s ∷ segs) =
    let rest = origin segs in
    if has_asn segs
    then rest
    else (if s.kind == as_path_sequence && ltb 0 (length s.asns)
        then some (last_or 0 s.asns)
        else none)

-- The numbers of the sequences in front of the first set.
unfoldable pub leading_asns : List Segment → List ℕ
leading_asns [] = []
leading_asns (s ∷ segs) =
    let rest = leading_asns segs in if s.kind == as_path_sequence then s.asns ++ rest else []

pub last_or-append : (d : ℕ) (vs ws : List ℕ) → last_or d (vs ++ ws) ≡ last_or (last_or d vs) ws
last_or-append d [] ws = refl
last_or-append d (v ∷ vs) ws = last_or-append v vs ws

drop-bs : (n : ℕ) (p : List ℕ) → drop (bs * suc n) p ≡ drop (bs * n) (drop bs p)
drop-bs n p = ap (λ (k : ℕ). drop k p) (omega arith) ∙ drop-drop bs (bs * n) p

module _ (u : Unaligned) where
  -- `get_as(p + BS * (len - 1))` reads the last number of the segment at `p`.
  get_as-last :
      (v : ℕ) (vs p : List ℕ)
      → All IsAsn (v ∷ vs)
      → get_as u (drop (bs * length vs) (encode_asns u (v ∷ vs) ++ p)) ≡ ok (last_or v vs)
  unfolding encode_asns
  get_as-last v [] p h = rw (append_assoc (put_as u v) [] p) (get_as-put_as u v p h.0)
  get_as-last v (w ∷ vs) p h =
      let rest = encode_asns u (w ∷ vs) in
      rw (append_assoc (put_as u v) rest p) (
        rw (drop-bs (length vs) (put_as u v ++ (rest ++ p)))
          (rw (drop-put_as u v (rest ++ p)) (get_as-last w vs p h.1)))

  pub get_as-last_of :
      (vs p : List ℕ)
      → All IsAsn vs
      → 0 < length vs
      → get_as u (drop (bs * (length vs - 1)) (encode_asns u vs ++ p)) ≡ ok (last_or 0 vs)
  get_as-last_of [] p h n = absurd (omega arith)
  get_as-last_of (v ∷ vs) p h n = ground (arith, get_as-last v vs p h)
