-- ===== src/AsPath/Filter.antt =====
-- `as_path_filter` and `as_path_match_set` of nest/a-path.c: the AS numbers of a path against a set
-- or a single key.
pub mod Correct
pub mod MatchSet
use active_bgp_measurement.Base.{
  ℕ, zero, suc, ◌+◌, ◌*◌, ◌≤◌, ◌<◌, ◌≡◌, ◌≢◌, ◌&&◌, ◌||◌, ◌++◌, ◌⊎◌, inl, inr, not,
}
use active_bgp_measurement.Base.{
  List, [], ◌∷◌, length, drop, All, arith, Bool, true, false, refl, ap, sym, ◌∙◌,
}
use active_bgp_measurement.Base.{Res, ok, fault, out_of_fuel, ◌>>=◌, ltb, leb, ◌==◌, if◌then◌else◌}
use active_bgp_measurement.Base.{
  append_assoc, append-nil, Option, none, some, length-append, Bool-cases,
}
use active_bgp_measurement.AsPath.Wire.{Unaligned, Segment, bs, IsAsn, IsPath, get_as, put_as}
use active_bgp_measurement.AsPath.Wire.{
  get_as-put_as, drop-put_as, encode_asns, encode, length-put_as,
}
use active_bgp_measurement.AsPath.Wire.{length-le-encode, length-encode_asns}
use active_bgp_measurement.FilterTree.{FVal, scalar, Comparisons, FTree, find_tree}

abbrev pub t_int : ℕ
t_int = 0x10

-- `set ? !!find_tree(set, as) : as == key`
pub matches : {D : Type 0} → Comparisons → Option (FTree D) → ℕ → ℕ → Bool
matches c none key as_number = as_number == key
matches c (some set) key as_number = elim (find_tree c set (scalar t_int as_number)) [
  | none ↦ false
  | some t ↦ true
]

-- `match == pos`
abbrev pub agrees : Bool → Bool → Bool
agrees true pos = pos
agrees false pos = not pos

-- `for (i = 0; i < sn; i++)`: the count and the bytes of the numbers kept, and where `p` stands.
pub filter_asns : Unaligned → (ℕ → Bool) → ℕ → List ℕ → ℕ → List ℕ → Res (ℕ × List ℕ × List ℕ)
filter_asns u keep zero p dn out = ok (dn, out, p)
filter_asns u keep (suc n) p dn out = do
  v ← get_as u p
  let dn' = if keep v then dn + 1 else dn
  let out' = if keep v then out ++ put_as u v else out
  filter_asns u keep n (drop bs p) dn' out'

-- `while (p<q)`: a block that lost all its numbers loses its header too.
pub filter_loop : Unaligned → (ℕ → Bool) → ℕ → List ℕ → List ℕ → Res (List ℕ)
filter_loop u keep fuel [] d = ok d
filter_loop u keep zero (bt ∷ p) d = out_of_fuel
filter_loop u keep (suc fuel) (bt ∷ []) d = fault
filter_loop u keep (suc fuel) (bt ∷ sn ∷ p) d = do
  (dn, out, p') ← filter_asns u keep sn p 0 []
  filter_loop u keep fuel p' (if ltb 0 dn then d ++ (bt ∷ dn ∷ out) else d)

-- `none` is the null pointer. A result as long as the path is the path itself.
pub as_path_filter :
    {D : Type 0}
    → Unaligned
    → Comparisons
    → Option (List ℕ)
    → Option (FTree D)
    → ℕ
    → Bool
    → Res (Option (List ℕ))
as_path_filter u c none set key pos = ok none
as_path_filter u c (some path) set key pos = do
  buf ← filter_loop u (λ v. agrees (matches c set key v) pos) (length path) path []
  ok (some (if length buf == length path then path else buf))

-- The inner loop of `as_path_match_set`: it returns 1, `none`, or goes on at `p`.
pub match_set_asns : Unaligned → (ℕ → Bool) → ℕ → List ℕ → Res (Option (List ℕ))
match_set_asns u test zero p = ok (some p)
match_set_asns u test (suc n) p = do
  v ← get_as u p
  let rest = match_set_asns u test n (drop bs p)
  if test v then ok none else rest

pub match_set_loop : Unaligned → (ℕ → Bool) → ℕ → List ℕ → Res Bool
match_set_loop u test fuel [] = ok false
match_set_loop u test zero (t ∷ p) = out_of_fuel
match_set_loop u test (suc fuel) (t ∷ []) = fault
match_set_loop u test (suc fuel) (t ∷ n ∷ p) =
    match_set_asns u test n p >>= elim [ none ↦ ok true | some p' ↦ match_set_loop u test fuel p' ]

pub as_path_match_set : {D : Type 0} → Unaligned → Comparisons → List ℕ → FTree D → Res Bool
as_path_match_set u c path set = match_set_loop u (λ v. matches c (some set) 0 v) (length path) path

-- The numbers that are kept, and the segments that keep any.
unfoldable pub select : (ℕ → Bool) → List ℕ → List ℕ
select keep [] = []
select keep (v ∷ vs) = let rest = select keep vs in if keep v then v ∷ rest else rest

unfoldable pub filter_path : (ℕ → Bool) → List Segment → List Segment
filter_path keep [] = []
filter_path keep (s ∷ segs) =
    let rest = filter_path keep segs in
    let kept = select keep s.asns in
    if ltb 0 (length kept) then record { kind = s.kind; asns = kept } ∷ rest else rest
