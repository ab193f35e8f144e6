-- ===== src/CommunityFilter.antt =====
-- Sets of communities against filter sets: `clist_set_type`, `clist_match_set`, `clist_filter` and
-- their variants for extended and large communities, of filter/filter.c.
pub mod Correct
pub mod MatchSet
pub mod Ranges
mod Tests
use active_bgp_measurement.Base.{ℕ, ◌≡◌, ◌||◌, ◌&&◌, not, List, [], ◌∷◌, length, Bool, true, false}
use active_bgp_measurement.Base.{Option, none, some, Res, ok, fault, ◌>>=◌, ◌==◌, if◌then◌else◌}
use active_bgp_measurement.FilterTree.{
  FVal, void, scalar, ec, lc, Comparisons, FTree, leaf, node, type_of, t_quad, find_tree,
}
use active_bgp_measurement.AsPath.Filter.{agrees}
use active_bgp_measurement.CommunitySet.Int.{int_set_contains}
use active_bgp_measurement.CommunitySet.Ec.{ec_get, ec_set_contains}
use active_bgp_measurement.CommunitySet.Lc.{Lcomm, lc_set_contains}

abbrev pub t_pair : ℕ
t_pair = 0x12

abbrev pub t_ec : ℕ
t_ec = 0x26

abbrev pub t_lc : ℕ
t_lc = 0x28

abbrev pub t_ip : ℕ
t_ip = 0x20

-- The set of a filter is a tree, of type T_SET, or a list of communities.
pub data FilterSet (D : Type 0) : Type 0 where
  tree : FTree D → FilterSet D
  words : Option (List ℕ) → FilterSet D

-- The value that a community becomes, for a set of a type; `none` is T_VOID and the return value 0
-- (IPv4 build).
unfoldable pub clist_set_type : ℕ → Option (ℕ → FVal)
clist_set_type t =
    if t == t_pair
    then some (scalar t_pair)
    else (if t == t_quad || t == t_ip then some (scalar t_quad) else none)

abbrev pub value_of : Option (ℕ → FVal) → ℕ → FVal
value_of none v = void
value_of (some f) v = f v

unfoldable pub match_words : (ℕ → Bool) → List ℕ → Bool
match_words test [] = false
match_words test (v ∷ l) = let rest = match_words test l in if test v then true else rest

unfoldable pub match_ec : (FVal → Bool) → List ℕ → Res Bool
match_ec test [] = ok false
match_ec test (a ∷ []) = fault
match_ec test (a ∷ b ∷ l) =
    let rest = match_ec test l in if test (ec (ec_get a b)) then ok true else rest

unfoldable pub match_lc : (FVal → Bool) → List ℕ → Res Bool
match_lc test [] = ok false
match_lc test (x ∷ []) = fault
match_lc test (x ∷ y ∷ []) = fault
match_lc test (x ∷ y ∷ z ∷ l) =
    let rest = match_lc test l in if test (lc x y z) then ok true else rest

unfoldable pub clist_kept : (ℕ → Bool) → Bool → List ℕ → List ℕ
clist_kept member pos [] = []
clist_kept member pos (v ∷ l) =
    let rest = clist_kept member pos l in if agrees (member v) pos then v ∷ rest else rest

unfoldable pub eclist_kept : (ℕ → Res Bool) → Bool → List ℕ → Res (List ℕ)
eclist_kept member pos [] = ok []
eclist_kept member pos (a ∷ []) = fault
eclist_kept member pos (a ∷ b ∷ l) = do
  m ← member (ec_get a b)
  k ← eclist_kept member pos l
  ok (if agrees m pos then a ∷ b ∷ k else k)

unfoldable pub lclist_kept : (Lcomm → Res Bool) → Bool → List ℕ → Res (List ℕ)
lclist_kept member pos [] = ok []
lclist_kept member pos (x ∷ []) = fault
lclist_kept member pos (x ∷ y ∷ []) = fault
lclist_kept member pos (x ∷ y ∷ z ∷ l) = do
  m ← member (record { asn = x; ldp1 = y; ldp2 = z })
  k ← lclist_kept member pos l
  ok (if agrees m pos then x ∷ y ∷ z ∷ k else k)

module _ {D : Type 0} where
  -- `set->from.type`; the null pointer is not a tree.
  unfoldable pub set_type : FTree D → Res ℕ
  set_type leaf = fault
  set_type (node item left right) = ok (type_of item.from)

module _ (c : Comparisons) {D : Type 0} where
  -- `!!find_tree(set, v)`
  abbrev pub found : FTree D → FVal → Bool
  found set v = elim (find_tree c set v) [ none ↦ false | some t ↦ true ]

  -- `none` is CMP_ERROR.
  unfoldable pub clist_match_set : Option (List ℕ) → FTree D → Res (Option Bool)
  clist_match_set none set = ok (some false)
  clist_match_set (some list) set = do
    t ← set_type set
    ok (elim (clist_set_type t) [
      | none ↦ none
      | some f ↦ some (match_words (λ v. found set (f v)) list)
    ])

  unfoldable pub eclist_match_set : Option (List ℕ) → FTree D → Res (Option Bool)
  eclist_match_set none set = ok (some false)
  eclist_match_set (some list) set = do
    t ← set_type set
    (if t == t_ec then (match_ec (found set) list >>= λ b. ok (some b)) else ok none)

  unfoldable pub lclist_match_set : Option (List ℕ) → FTree D → Res (Option Bool)
  lclist_match_set none set = ok (some false)
  lclist_match_set (some list) set = do
    t ← set_type set
    (if t == t_lc then (match_lc (found set) list >>= λ b. ok (some b)) else ok none)

  -- `tree ? !!find_tree(set.val.t, v) : int_set_contains(set.val.ad, v.val.i)`
  unfoldable pub clist_member : FilterSet D → Res (ℕ → Bool)
  clist_member (tree set) = do t ← set_type set; ok (λ v. found set (value_of (clist_set_type t) v))
  clist_member (words ad) = ok (int_set_contains ad)

  unfoldable pub clist_filter : Option (List ℕ) → FilterSet D → Bool → Res (Option (List ℕ))
  clist_filter none set pos = ok none
  clist_filter (some list) set pos = do
    member ← clist_member set
    let tmp = clist_kept member pos list
    ok (some (if length tmp == length list then list else tmp))

  unfoldable pub eclist_member : FilterSet D → ℕ → Res Bool
  eclist_member (tree set) v = ok (found set (ec v))
  eclist_member (words ad) v = ec_set_contains ad v

  unfoldable pub eclist_filter : Option (List ℕ) → FilterSet D → Bool → Res (Option (List ℕ))
  eclist_filter none set pos = ok none
  eclist_filter (some list) set pos = do
    tmp ← eclist_kept (eclist_member set) pos list
    ok (some (if length tmp == length list then list else tmp))

  unfoldable pub lclist_member : FilterSet D → Lcomm → Res Bool
  lclist_member (tree set) v = ok (found set (lc v.asn v.ldp1 v.ldp2))
  lclist_member (words ad) v = lc_set_contains ad v

  unfoldable pub lclist_filter : Option (List ℕ) → FilterSet D → Bool → Res (Option (List ℕ))
  lclist_filter none set pos = ok none
  lclist_filter (some list) set pos = do
    tmp ← lclist_kept (lclist_member set) pos list
    ok (some (if length tmp == length list then list else tmp))
