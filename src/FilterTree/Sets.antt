-- ===== src/FilterTree/Sets.antt =====
-- A filter set from its list of ranges: what `qsort` by `tree_compare` makes of ranges that do not
-- overlap, and the lookup in the tree that `build_tree` makes.
use active_bgp_measurement.Base.{
  ℕ, ◌≤◌, ◌<◌, ◌≡◌, ◌⊎◌, inl, inr, false, List, [], ◌∷◌, All, arith, sym, subst, ◌∙◌,
}
use mathlib.Core.Path.{ap₂}
use active_bgp_measurement.Base.Int.{is_one, uint_cmp}
use active_bgp_measurement.FilterTree.{
  scalar, Comparisons, Item, find_tree, tree_compare, build_tree, val_compare,
}
use active_bgp_measurement.FilterTree.Find.{value, IsRange, IsDisjoint, root, compare_scalar}
use active_bgp_measurement.FilterTree.Build.{covered, is_some, find_tree-build_sorted}
use mathlib.Core.List.{Permᴰ}

module _ {D : Type 0} where
  -- One range ends below the start of the other.
  abbrev pub Apart : Item D → Item D → Type 0
  Apart a b = (value a.to < value b.from) ⊎ (value b.to < value a.from)

  -- No two ranges of the list overlap.
  abbrev pub IsApart : List (Item D) → Type 0
  IsApart [] = Unit {0}
  IsApart (x ∷ xs) = All (Apart x) xs × IsApart xs

  -- The order that `qsort` establishes: no item is after one that it is greater than.
  abbrev pub IsSortedBy : Comparisons → List (Item D) → Type 0
  IsSortedBy c [] = Unit {0}
  IsSortedBy c (x ∷ xs) = All (λ y. is_one (tree_compare c x y) ≡ false) xs × IsSortedBy c xs

  pub All-perm : (P : Item D → Type 0) {xs ys : List (Item D)} → Permᴰ xs ys → All P ys → All P xs
  All-perm P Permᴰ.nil h = tt
  All-perm P (Permᴰ.cons e p) h = (rw e h.0, All-perm P p h.1)
  All-perm P (Permᴰ.swap e f) h = (rw e h.1.0, (rw f h.0, h.1.1))
  All-perm P (Permᴰ.trans p q) h = All-perm P p (All-perm P q h)

  Apart-sym : (a b : Item D) → Apart a b → Apart b a
  Apart-sym a b (inl h) = inr h
  Apart-sym a b (inr h) = inl h

  IsApart-perm : {xs ys : List (Item D)} → Permᴰ xs ys → IsApart ys → IsApart xs
  IsApart-perm Permᴰ.nil h = tt
  IsApart-perm (Permᴰ.cons {a = a} e p) h = (All-perm (Apart a) p (rw e h.0), IsApart-perm p h.1)
  IsApart-perm (Permᴰ.swap {a = a} {b = b} {a' = a'} {b' = b'} {l = l} e f) h = (
    (rw (e, f) (Apart-sym a' b' h.0.0), subst (λ z. All (Apart z) l) (sym e) h.1.0),
    (subst (λ z. All (Apart z) l) (sym f) h.0.1, h.1.1),
  )
  IsApart-perm (Permᴰ.trans p q) h = IsApart-perm p (IsApart-perm q h)

  from_le :
      (c : Comparisons) (t : ℕ) (x y : Item D)
      → IsRange t x
      → IsRange t y
      → is_one (tree_compare c x y) ≡ false
      → value x.from ≤ value y.from
  unfolding tree_compare
  from_le c t x y rx ry h =
      let same : val_compare c x.from y.from ≡ uint_cmp (value x.from) (value y.from) =
        ap₂ (val_compare c) rx.from_scalar ry.from_scalar
        ∙ compare_scalar c t (value x.from) (value y.from) rx.known in
      ground (arith, same, h)

  below :
      (c : Comparisons) (t : ℕ) (x : Item D) (xs : List (Item D))
      → IsRange t x
      → All (IsRange t) xs
      → All (λ y. is_one (tree_compare c x y) ≡ false) xs
      → All (Apart x) xs
      → All (λ y. value x.to < value y.from) xs
  below c t x [] rx rs s a = tt
  below c t x (y ∷ ys) rx rs s a = (
    ground (arith, from_le c t x y rx rs.0 s.0, a.0, rs.0.ordered),
    below c t x ys rx rs.1 s.1 a.1,
  )

  IsDisjoint-of_sorted :
      (c : Comparisons) (t : ℕ) (xs : List (Item D))
      → All (IsRange t) xs
      → IsSortedBy c xs
      → IsApart xs
      → IsDisjoint xs
  IsDisjoint-of_sorted c t [] r s a = tt
  IsDisjoint-of_sorted c t (x ∷ xs) r s a =
      (below c t x xs r.0 r.1 s.0 a.0, IsDisjoint-of_sorted c t xs r.1 s.1 a.1)

  -- If `qsort` returns a permutation of the nodes that is sorted by `tree_compare`, and the nodes are
  -- ranges of scalars of one type of which no two overlap, in any order, then `find_tree` on the tree
  -- that `build_tree` makes finds a node exactly for the values that some range of the set holds.
  pub find_tree-build_tree :
      (c : Comparisons) (qsort : List (Item D) → List (Item D)) (items : List (Item D)) (t v : ℕ)
      → Permᴰ (qsort items) items
      → IsSortedBy c (qsort items)
      → All (IsRange t) items
      → IsApart items
      → is_some (root (find_tree c (build_tree qsort items) (scalar t v))) ≡ covered v items
  find_tree-build_tree c qsort items t v p s r a =
      let ranges = All-perm (IsRange t) p r in
      find_tree-build_sorted c qsort items t v p ranges
        (IsDisjoint-of_sorted c t (qsort items) ranges s (IsApart-perm p a))
