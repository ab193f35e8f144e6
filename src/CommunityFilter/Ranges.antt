-- ===== src/CommunityFilter/Ranges.antt =====
-- `clist_filter` of filter/filter.c by the sets that the configuration can give it: the tree that
-- filter/tree.c builds of ranges of pairs or quads, and a list of communities.
use active_bgp_measurement.Base.{
  ℕ, ◌≡◌, ◌||◌, ◌&&◌, ◌==◌, List, [], ◌∷◌, All, Bool, true, arith, refl, ap, sym, ◌∙◌, ==_iff,
  Option, some, ok, ◌>>=◌, Bool-cases, inl, inr, All-append_right, length,
}
use mathlib.Core.List.{Permᴰ}
use active_bgp_measurement.FilterTree.{
  FVal, scalar, Comparisons, Item, FTree, leaf, node, type_of, t_quad, find_tree, build_tree,
  inorder,
}
use active_bgp_measurement.FilterTree.Find.{IsRange, root}
use active_bgp_measurement.FilterTree.Build.{covered, is_some, build_tree-inorder, length-perm}
use active_bgp_measurement.FilterTree.Sets.{IsApart, IsSortedBy, find_tree-build_tree, All-perm}
use active_bgp_measurement.AsPath.Filter.{agrees}
use active_bgp_measurement.CommunitySet.Int.{int_set_contains}
use active_bgp_measurement.CommunityFilter.{
  tree, words, t_pair, found, value_of, clist_set_type, set_type, clist_member, clist_filter,
}
use active_bgp_measurement.CommunityFilter.Correct.{int_set_contains-kept}

module _ {D : Type 0} where
  -- The type of the first value of a tree of ranges.
  set_type-ranges :
      (t : ℕ) (set : FTree D) (x : Item D) (xs : List (Item D))
      → All (IsRange t) (inorder set)
      → Permᴰ (inorder set) (x ∷ xs)
      → set_type set ≡ ok t
  unfolding set_type inorder
  set_type-ranges t leaf x xs r p = absurd (empty (length-perm p))
    where
      empty : length {A = Item D} [] ≡ length (x ∷ xs) → ⊥
      empty e = omega arith
  set_type-ranges t (node item left right) x xs r p =
      ap (λ (v : FVal). ok (type_of v))
        (IsRange.from_scalar
          (All-append_right (IsRange t) (inorder left) (item ∷ inorder right) r).0)

  -- A node that is found has a root.
  found-root :
      (c : Comparisons) (set : FTree D) (v : FVal)
      → found c set v ≡ is_some (root (find_tree c set v))
  unfolding find_tree
  found-root c leaf v = refl
  found-root c (node item left right) v = ground (arith, found-root c left v, found-root c right v)

-- Pairs and quads are looked for as what they are.
value_of_lem :
    (t v : ℕ) → (t == t_pair || t == t_quad) ≡ true → value_of (clist_set_type t) v ≡ scalar t v
unfolding clist_set_type
value_of_lem t v known = elim (Bool-cases (t == t_pair)) [
  | inl y ↦ rw y (ap (λ (s : ℕ). scalar s v) (sym ((==_iff t t_pair).0 y)))
  | inr n ↦
      let y : (t == t_quad) ≡ true = ground arith in
      rw (n, y) (ap (λ (s : ℕ). scalar s v) (sym ((==_iff t t_quad).0 y)))
]

module _ (c : Comparisons) {D : Type 0} where
  -- If `qsort` returns a permutation of the nodes that is sorted by `tree_compare`, and the nodes, one
  -- at least, are ranges of pairs or of quads of which no two overlap, in any order: `clist_filter`
  -- by the tree that `build_tree` makes of them returns a list that contains a community exactly if
  -- the given list did and whether some range holds the community is `pos`; by a list of
  -- communities, one that contains it exactly if the given list did and whether that list contains
  -- it is `pos`.
  pub int_set_contains-clist_filter :
      (qsort : List (Item D) → List (Item D)) (item : Item D) (items : List (Item D)) (t : ℕ)
      (ad : Option (List ℕ)) (list : List ℕ) (pos : Bool) (w : ℕ)
      → (t == t_pair || t == t_quad) ≡ true
      → Permᴰ (qsort (item ∷ items)) (item ∷ items)
      → IsSortedBy c (qsort (item ∷ items))
      → All (IsRange t) (item ∷ items)
      → IsApart (item ∷ items)
      → ((clist_filter c (some list) (tree (build_tree qsort (item ∷ items))) pos >>= λ l.
            ok (int_set_contains l w))
          ≡ ok (agrees (covered w (item ∷ items)) pos && int_set_contains (some list) w))
        × ((clist_filter c {D = D} (some list) (words ad) pos >>= λ l. ok (int_set_contains l w))
            ≡ ok (agrees (int_set_contains ad w) pos && int_set_contains (some list) w))
  int_set_contains-clist_filter qsort item items t ad list pos w known p s r a =
      let set = build_tree qsort (item ∷ items) in
      let same = build_tree-inorder qsort (item ∷ items) p in
      let typed : set_type set ≡ ok t =
        set_type-ranges t set item items (rw same (All-perm (IsRange t) p r)) (rw same p) in
      let holds : found c set (value_of (clist_set_type t) w) ≡ covered w (item ∷ items) =
        ap (found c set) (value_of_lem t w known)
        ∙ found-root c set (scalar t w)
        ∙ find_tree-build_tree c qsort (item ∷ items) t w p s r a in
      (
        int_set_contains-kept c list (tree set) pos
              (λ v. found c set (value_of (clist_set_type t) v)) w
              (unfold clist_member in rw typed refl)
            ∙ rw holds refl,
        int_set_contains-kept c list (words ad) pos (int_set_contains ad) w
            (unfold clist_member in refl),
      )
