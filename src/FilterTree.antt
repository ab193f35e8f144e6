-- ===== src/FilterTree.antt =====
-- filter/tree.c, and `val_compare` of filter/filter.c: the search trees of filter sets, whose nodes
-- are values or ranges.
pub mod Find
pub mod Build
pub mod Sets
mod Tests
use active_bgp_measurement.Base.{ℕ, zero, suc, ◌+◌, ◌-◌, ◌/◌, Bool, true, false, ◌&&◌, ◌||◌, not}
use active_bgp_measurement.Base.{List, [], ◌∷◌, ◌++◌, length, get_elem?, Option, none, some}
use active_bgp_measurement.Base.{ltb, leb, ◌==◌, if◌then◌else◌}
use active_bgp_measurement.Base.Int.{ℤ, pos, negsuc, is_one, is_minus_one, is_zero, uint_cmp}

-- `struct f_val`, at the types that `val_compare` orders. `scalar` holds the types that are stored
-- in `val.i`: T_ENUM, T_INT, T_BOOL, T_PAIR and T_QUAD, by their type number.
pub data FVal : Type 0 where
  void : FVal
  scalar : ℕ → ℕ → FVal
  ec : ℕ → FVal
  lc : ℕ → ℕ → ℕ → FVal
  ip : ℕ → FVal
  prefix : ℕ → ℕ → FVal
  string : List ℕ → FVal

-- Addresses and C strings are compared by the daemon's library, which the repository does not hold.
pub record Comparisons : Type 0 where
  pub ipa_compare : ℕ → ℕ → ℤ
  pub ipa_to_u32 : ℕ → ℕ
  pub strcmp : List ℕ → List ℕ → ℤ

abbrev pub t_quad : ℕ
t_quad = 0x13

abbrev pub type_of : FVal → ℕ
type_of void = 1
type_of (scalar t v) = t
type_of (ec v) = 0x26
type_of (lc a b c) = 0x28
type_of (ip a) = 0x20
type_of (prefix a len) = 0x21
type_of (string s) = 0x22

abbrev pub cmp_error : ℤ
cmp_error = pos 999

-- `lcomm_cmp`
unfoldable pub lcomm_cmp : ℕ → ℕ → ℕ → ℕ → ℕ → ℕ → ℤ
lcomm_cmp a b c x y z =
    if not (a == x)
    then (if ltb x a then pos 1 else negsuc 0)
    else (if not (b == y)
        then (if ltb y b then pos 1 else negsuc 0)
        else (if not (c == z) then (if ltb z c then pos 1 else negsuc 0) else pos 0))

-- T_INT, T_BOOL, T_PAIR and T_QUAD, or T_ENUM_LO to T_ENUM_HI.
abbrev pub is_scalar : ℕ → Bool
is_scalar t = (leb 0x10 t && leb t 0x13) || (leb 0x30 t && leb t 0x3f)

-- The `switch` on values of one type. The case of T_VOID is a value with no content.
unfoldable pub compare_same : Comparisons → FVal → FVal → ℤ
unfolding lcomm_cmp
compare_same c void void = pos 0
compare_same c (scalar t a) (scalar s b) = if is_scalar t then uint_cmp a b else cmp_error
compare_same c (ec a) (ec b) = uint_cmp a b
compare_same c (lc x y z) (lc x' y' z') = lcomm_cmp x y z x' y' z'
compare_same c (ip a) (ip b) = c.ipa_compare a b
compare_same c (prefix a m) (prefix b n) =
    let rc = c.ipa_compare a b in if is_zero rc then uint_cmp m n else rc
compare_same c (string s) (string t) = c.strcmp s t
compare_same c v w = cmp_error

-- Values of different types: T_VOID is below all, and a quad compares with an address (IPv4 build).
unfoldable pub compare_mixed : Comparisons → FVal → FVal → ℤ
compare_mixed c void w = negsuc 0
compare_mixed c (scalar t a) void = pos 1
compare_mixed c (scalar t a) (ip b) = if t == t_quad then uint_cmp a (c.ipa_to_u32 b) else cmp_error
compare_mixed c (ip a) (scalar t b) = if t == t_quad then uint_cmp (c.ipa_to_u32 a) b else cmp_error
compare_mixed c v void = pos 1
compare_mixed c v w = cmp_error

unfoldable pub val_compare : Comparisons → FVal → FVal → ℤ
unfolding compare_same compare_mixed
val_compare c v w = if type_of v == type_of w then compare_same c v w else compare_mixed c v w

-- A node's range and its `data`.
pub record Item (D : Type 0) : Type 0 where
  pub from : FVal
  pub to : FVal
  pub content : D

pub data FTree (D : Type 0) : Type 0 where
  leaf : FTree D
  node : Item D → FTree D → FTree D → FTree D

module _ (c : Comparisons) {D : Type 0} where
  -- The node that is found, as the subtree below it.
  unfoldable pub find_tree : FTree D → FVal → Option (FTree D)
  find_tree leaf val = none
  find_tree (node item left right) val =
      let on_right = find_tree right val in
      let on_left = find_tree left val in
      if not (is_one (val_compare c item.from val))
        && not (is_minus_one (val_compare c item.to val))
      then some (node item left right)
      else (if is_minus_one (val_compare c item.from val) then on_right else on_left)

  -- `tree_compare` orders the nodes for `qsort`.
  unfoldable pub tree_compare : Item D → Item D → ℤ
  tree_compare a b = val_compare c a.from b.from

module _ {D : Type 0} where
  -- `build_tree_rec`: the nodes `buf[l]` to `buf[h - 1]`, the middle one as root. `fuel` bounds the
  -- depth; a read outside `buf` gives no node.
  unfoldable pub build_tree_rec : ℕ → List (Item D) → ℕ → ℕ → FTree D
  build_tree_rec zero buf l h = leaf
  build_tree_rec (suc fuel) buf l h =
      let pos = (l + h) / 2 in
      let left = build_tree_rec fuel buf l pos in
      let right = build_tree_rec fuel buf (pos + 1) h in
      if leb h l
      then leaf
      else elim (get_elem? buf pos) [ none ↦ leaf | some item ↦ node item left right ]

  -- `build_tree` on the nodes in the order of the degenerate list. `qsort` is the C library's.
  unfoldable pub build_tree : (List (Item D) → List (Item D)) → List (Item D) → FTree D
  build_tree qsort [] = leaf
  build_tree qsort (x ∷ xs) = let len = length (x ∷ xs) in build_tree_rec len (qsort (x ∷ xs)) 0 len

  -- The nodes of a tree from left to right.
  unfoldable pub inorder : FTree D → List (Item D)
  inorder leaf = []
  inorder (node item left right) = inorder left ++ (item ∷ inorder right)
