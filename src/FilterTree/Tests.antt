-- ===== src/FilterTree/Tests.antt =====
-- Runs of filter/tree.c on a set of ranges that stands in the wrong order.
use active_bgp_measurement.Base.{ℕ, ◌≤◌, ◌≡◌, List, [], ◌∷◌, All, arith, refl}
use active_bgp_measurement.Base.{true, if◌then◌else◌}
use active_bgp_measurement.Base.Int.{ℤ, pos, negsuc, is_one, uint_cmp}
use active_bgp_measurement.FilterTree.{
  scalar, Comparisons, Item, FTree, leaf, node, find_tree, tree_compare, build_tree, build_tree_rec,
  inorder, val_compare,
}
use active_bgp_measurement.Base.{inr}
use active_bgp_measurement.FilterTree.Sets.{IsSortedBy, find_tree-build_tree}
use active_bgp_measurement.FilterTree.Find.{IsRange, IsDisjoint, search_list, root, find_tree_lem}
use active_bgp_measurement.FilterTree.Build.{depth, covered, is_some, depth-build_tree}
use mathlib.Core.List.{Permᴰ}

-- Addresses compared as numbers, and strings by their first byte.
abbrev compare_bytes : List ℕ → List ℕ → ℤ
compare_bytes [] [] = pos 0
compare_bytes [] (y ∷ ys) = negsuc 0
compare_bytes (x ∷ xs) [] = pos 1
compare_bytes (x ∷ xs) (y ∷ ys) = uint_cmp x y

abbrev comparisons : Comparisons
comparisons = record {
  ipa_compare = λ a b. uint_cmp a b;
  ipa_to_u32 = λ a. a;
  strcmp = compare_bytes;
}

-- A sort by insertion.
insert_item : Item ℕ → List (Item ℕ) → List (Item ℕ)
insert_item a [] = a ∷ []
insert_item a (x ∷ xs) =
    let rest = insert_item a xs in
    if is_one (tree_compare comparisons a x) then x ∷ rest else a ∷ x ∷ xs

sorted : List (Item ℕ) → List (Item ℕ)
sorted [] = []
sorted (x ∷ xs) = insert_item x (sorted xs)

abbrev range : ℕ → ℕ → Item ℕ
range lo hi = record { from = scalar 0x10 lo; to = scalar 0x10 hi; content = 0 }

abbrev ranges : List (Item ℕ)
ranges = range 30 39 ∷ range 10 19 ∷ []

sorted-ranges : sorted ranges ≡ range 10 19 ∷ range 30 39 ∷ []
unfolding sorted insert_item tree_compare val_compare
sorted-ranges = refl

sorted-perm : Permᴰ (sorted ranges) ranges
sorted-perm = rw sorted-ranges (Permᴰ.swap refl refl)

sorted-IsSortedBy : IsSortedBy comparisons (sorted ranges)
unfolding tree_compare val_compare
sorted-IsSortedBy = rw sorted-ranges ((refl, tt), (tt, tt))

abbrev tree : FTree ℕ
tree = node (range 30 39) (node (range 10 19) leaf leaf) leaf

tree-IsRange : All (IsRange 0x10) (inorder tree)
unfolding inorder
tree-IsRange = (
  record { known = refl; from_scalar = refl; to_scalar = refl; ordered = omega arith },
  (record { known = refl; from_scalar = refl; to_scalar = refl; ordered = omega arith }, tt),
)

tree-IsDisjoint : IsDisjoint (inorder tree)
unfolding inorder
tree-IsDisjoint = ground arith

built : build_tree sorted ranges ≡ tree
unfolding build_tree build_tree_rec sorted insert_item tree_compare val_compare
built = refl

find_tree_lem_example :
    root (find_tree comparisons tree (scalar 0x10 15)) ≡ search_list 15 (inorder tree)
find_tree_lem_example = find_tree_lem comparisons 0x10 15 tree tree-IsRange tree-IsDisjoint

depth-build_tree_example : depth (build_tree sorted ranges) ≤ 2
depth-build_tree_example = depth-build_tree sorted ranges 2 (omega arith)

find_tree-build_tree_example :
    is_some (root (find_tree comparisons (build_tree sorted ranges) (scalar 0x10 35))) ≡ true
unfolding covered
find_tree-build_tree_example =
    find_tree-build_tree comparisons sorted ranges 0x10 35 sorted-perm sorted-IsSortedBy
      (
        record { known = refl; from_scalar = refl; to_scalar = refl; ordered = omega arith },
        (record { known = refl; from_scalar = refl; to_scalar = refl; ordered = omega arith }, tt),
      )
      ((inr (omega arith), tt), (tt, tt))
