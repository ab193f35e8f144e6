-- ===== src/AsPath/Convert.antt =====
-- `as_path_convert_to_old` and `as_path_convert_to_new` of nest/a-path.c: between paths of 4-byte and
-- of 2-byte AS numbers.
pub mod ToOld
pub mod ToNew
use active_bgp_measurement.Base.{
  ℕ, zero, suc, ◌+◌, ◌-◌, ◌*◌, ◌^◌, ◌≤◌, ◌<◌, ◌≡◌, ◌&&◌, ◌||◌, ◌++◌, ◌⊎◌, inl, inr,
}
use active_bgp_measurement.Base.{
  List, [], ◌∷◌, length, drop, take, All, arith, Bool, true, false, refl, ap, sym, ◌∙◌,
}
use active_bgp_measurement.Base.{Res, ok, fault, out_of_fuel, ◌>>=◌, ltb, leb, ◌==◌, if◌then◌else◌}
use active_bgp_measurement.Base.{append_assoc, append-nil, length-append}
use active_bgp_measurement.AsPath.Wire.{
  Unaligned, Segment, bs, IsAsn, IsPath, IsKnownPath, get_as, put_as,
}
use active_bgp_measurement.AsPath.Wire.{as_path_set, as_path_sequence}
use active_bgp_measurement.AsPath.Wire.{
  get_as-put_as, drop-put_as, encode_asns, encode, length-put_as,
}
use active_bgp_measurement.AsPath.Wire.{length-le-encode, length-encode_asns}
use active_bgp_measurement.AsPath.Length.{hops, path_length}

abbrev pub as_trans : ℕ
as_trans = 23456

module _ (u : Unaligned) where
  pub get_old : List ℕ → Res ℕ
  get_old (a ∷ b ∷ p) = ok (u.get_u16 a b)
  get_old _ = fault

  pub put_old : ℕ → List ℕ
  put_old v = let w = u.put_u16 v in w.0 ∷ w.1 ∷ []

  pub get_old-put_old : (v : ℕ) (p : List ℕ) → v < 2 ^ 16 → get_old (put_old v ++ p) ≡ ok v
  unfolding get_old put_old
  get_old-put_old v p h = ap ok (u.get_u16-put_u16 v h)

  pub drop-put_old : (v : ℕ) (p : List ℕ) → drop 2 (put_old v ++ p) ≡ p
  unfolding put_old
  drop-put_old v p = refl

  -- The inner loop: the numbers written behind `dst`, `*new_used`, and where `src` stands.
  pub to_old_asns : ℕ → List ℕ → List ℕ → Bool → Res (List ℕ × Bool × List ℕ)
  to_old_asns zero src dst new_used = ok (dst, new_used, src)
  to_old_asns (suc n) src dst new_used = do
    v ← get_as u src
    let large = ltb 0xffff v
    to_old_asns n (drop 4 src) (dst ++ put_old (if large then as_trans else v)) (large || new_used)

  pub to_old_loop : ℕ → List ℕ → List ℕ → Bool → Res (List ℕ × Bool)
  to_old_loop fuel [] dst new_used = ok (dst, new_used)
  to_old_loop zero (t ∷ src) dst new_used = out_of_fuel
  to_old_loop (suc fuel) (t ∷ []) dst new_used = fault
  to_old_loop (suc fuel) (t ∷ n ∷ src) dst new_used = do
    (dst', used, src') ← to_old_asns n src (dst ++ (t ∷ n ∷ [])) new_used
    to_old_loop fuel src' dst' used

  -- The bytes written, and `*new_used`.
  pub as_path_convert_to_old : List ℕ → Res (List ℕ × Bool)
  as_path_convert_to_old path = to_old_loop (length path) path [] false

  pub to_new_asns : ℕ → List ℕ → List ℕ → Res (List ℕ × List ℕ)
  to_new_asns zero src dst = ok (dst, src)
  to_new_asns (suc n) src dst = do v ← get_old src; to_new_asns n (drop 2 src) (dst ++ put_as u v)

  -- `req_as` counts down to the hops that are still wanted.
  pub to_new_loop : ℕ → List ℕ → List ℕ → ℕ → Res (List ℕ)
  to_new_loop fuel [] dst req_as = ok dst
  to_new_loop fuel (t ∷ src) dst zero = ok dst
  to_new_loop zero (t ∷ src) dst (suc req_as) = out_of_fuel
  to_new_loop (suc fuel) (t ∷ []) dst (suc req_as) = fault
  to_new_loop (suc fuel) (t ∷ n ∷ src) dst (suc req_as) =
      let cut = if ltb (suc req_as) n then suc req_as else n in
      let n' = if t == as_path_sequence then cut else n in
      let left = if t == as_path_sequence then suc req_as - cut else req_as in
      to_new_asns n' src (dst ++ (t ∷ n' ∷ [])) >>= λ r. to_new_loop fuel r.1 r.0 left

  pub as_path_convert_to_new : List ℕ → ℕ → Res (List ℕ)
  as_path_convert_to_new path req_as = to_new_loop (length path) path [] req_as

  -- The buffer of segments with 2-byte numbers.
  unfoldable pub encode_old_asns : List ℕ → List ℕ
  encode_old_asns [] = []
  encode_old_asns (v ∷ vs) = put_old v ++ encode_old_asns vs

  unfoldable pub encode_old : List Segment → List ℕ
  encode_old [] = []
  encode_old (s ∷ segs) = s.kind ∷ length s.asns ∷ (encode_old_asns s.asns ++ encode_old segs)

  pub length-le-encode_old : (segs : List Segment) → length segs ≤ length (encode_old segs)
  unfolding encode_old
  length-le-encode_old [] = omega arith
  length-le-encode_old (s ∷ segs) =
      omega
        (arith, length-append (encode_old_asns s.asns) (encode_old segs), length-le-encode_old segs)

-- A number that does not fit two bytes is replaced by AS_TRANS.
abbrev pub shorten : ℕ → ℕ
shorten v = if ltb 0xffff v then as_trans else v

abbrev pub shorten_all : List ℕ → List ℕ
shorten_all [] = []
shorten_all (v ∷ vs) = shorten v ∷ shorten_all vs

unfoldable pub shorten_path : List Segment → List Segment
shorten_path [] = []
shorten_path (s ∷ segs) = record { kind = s.kind; asns = shorten_all s.asns } ∷ shorten_path segs

abbrev pub any_large : List ℕ → Bool
any_large [] = false
any_large (v ∷ vs) = any_large vs || ltb 0xffff v

unfoldable pub has_large : List Segment → Bool
has_large [] = false
has_large (s ∷ segs) = has_large segs || any_large s.asns

-- The front of a path that has `n` hops: a set is one hop, a sequence may be cut.
unfoldable pub front : ℕ → List Segment → List Segment
front n [] = []
front zero (s ∷ segs) = []
front (suc n) (s ∷ segs) =
    if s.kind == as_path_sequence
    then record { kind = s.kind; asns = take (suc n) s.asns } ∷ front (suc n - length s.asns) segs
    else s ∷ front n segs
