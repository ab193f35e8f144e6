-- ===== src/FilterTree/Find.antt =====
-- `find_tree` on a search tree is the search for a range that holds the value.
use active_bgp_measurement.Base.{
  ℕ, ◌≤◌, ◌<◌, ◌≡◌, inl, inr, refl, ◌&&◌, List, [], ◌∷◌, ◌++◌, Option, none, some, All, ltb, leb,
  if◌then◌else◌, arith, All-append_left, All-append_right, All-weaken, Bool-cases, true, ==_self,
}
use active_bgp_measurement.Base.Int.{uint_cmp}
use active_bgp_measurement.FilterTree.{
  FVal, scalar, Comparisons, val_compare, Item, FTree, leaf, node, find_tree, inorder, is_scalar,
}

-- `val.i` of a scalar.
abbrev pub value : FVal → ℕ
value (scalar t v) = v
value _ = 0

-- `t` is a type that `val_compare` compares by `val.i`, and both ends of the range are of that type, in
-- order.
pub record IsRange {D : Type 0} (t : ℕ) (item : Item D) : Type 0 where
  pub known : is_scalar t ≡ true
  pub from_scalar : item.from ≡ scalar t (value item.from)
  pub to_scalar : item.to ≡ scalar t (value item.to)
  pub ordered : value item.from ≤ value item.to

-- Every range ends below the start of those behind it.
abbrev pub IsDisjoint : {D : Type 0} → List (Item D) → Type 0
IsDisjoint [] = Unit {0}
IsDisjoint (x ∷ xs) = All (λ y. value x.to < value y.from) xs × IsDisjoint xs

-- The first range that holds `v`.
unfoldable pub search_list : {D : Type 0} → ℕ → List (Item D) → Option (Item D)
search_list v [] = none
search_list v (x ∷ xs) =
    if leb (value x.from) v && leb v (value x.to) then some x else search_list v xs

abbrev pub root : {D : Type 0} → Option (FTree D) → Option (Item D)
root none = none
root (some leaf) = none
root (some (node item left right)) = some item

pub compare_scalar :
    (c : Comparisons) (t a b : ℕ)
    → is_scalar t ≡ true
    → val_compare c (scalar t a) (scalar t b) ≡ uint_cmp a b
unfolding val_compare
compare_scalar c t a b known = rw (==_self t, known) refl

module _ {D : Type 0} where
  search-below :
      (v : ℕ) (xs : List (Item D)) → All (λ x. v < value x.from) xs → search_list v xs ≡ none
  unfolding search_list
  search-below v [] h = refl
  search-below v (x ∷ xs) h = ground (arith, search-below v xs h.1)

  search-above :
      (v : ℕ) (xs ys : List (Item D))
      → All (λ x. value x.to < v) xs
      → search_list v (xs ++ ys) ≡ search_list v ys
  unfolding search_list
  search-above v [] ys h = refl
  search-above v (x ∷ xs) ys h = ground (arith, search-above v xs ys h.1)

  -- A value below all of `ys` is searched for in front of them.
  search-front :
      (v : ℕ) (xs ys : List (Item D))
      → All (λ x. v < value x.from) ys
      → search_list v (xs ++ ys) ≡ search_list v xs
  unfolding search_list
  search-front v [] ys h = search-below v ys h
  search-front v (x ∷ xs) ys h = ground (arith, search-front v xs ys h)

  -- What a disjoint list says of the item in its middle.
  IsDisjoint-split :
      (xs : List (Item D)) (x : Item D) (ys : List (Item D))
      → IsDisjoint (xs ++ x ∷ ys)
      → IsDisjoint xs
        × IsDisjoint ys
        × All (λ y. value y.to < value x.from) xs
        × All (λ y. value x.to < value y.from) ys
  IsDisjoint-split [] x ys h = (tt, h.1, tt, h.0)
  IsDisjoint-split (w ∷ xs) x ys h =
      let (dx, dy, below, above) = IsDisjoint-split xs x ys h.1 in
      let after = All-append_right (λ y. value w.to < value y.from) xs (x ∷ ys) h.0 in
      (
        (All-append_left (λ y. value w.to < value y.from) xs (x ∷ ys) h.0, dx),
        dy,
        (after.0, below),
        above,
      )

  -- One step of `find_tree` at a root that is a range of scalars of the searched type.
  find_tree_step :
      (c : Comparisons) (t v : ℕ) (item : Item D) (left right : FTree D)
      → IsRange t item
      → find_tree c (node item left right) (scalar t v) ≡ (
          if leb (value item.from) v && leb v (value item.to)
          then some (node item left right)
          else (if ltb (value item.from) v
              then find_tree c right (scalar t v)
              else find_tree c left (scalar t v)))
  unfolding find_tree
  find_tree_step c t v item left right r =
      rw (r.from_scalar, r.to_scalar)
        (rw
          (
            compare_scalar c t (value item.from) v r.known,
            compare_scalar c t (value item.to) v r.known,
          )
          (ground arith))

  -- On a tree whose nodes from left to right are disjoint ranges of scalars of one type, in order,
  -- `find_tree` finds a node exactly if some range holds the value, and it is the node of that range.
  pub find_tree_lem :
      (c : Comparisons) (t v : ℕ) (tree : FTree D)
      → All (IsRange t) (inorder tree)
      → IsDisjoint (inorder tree)
      → root (find_tree c tree (scalar t v)) ≡ search_list v (inorder tree)
  unfolding inorder search_list
  find_tree_lem c t v leaf r d = unfold find_tree in refl
  find_tree_lem c t v (node item left right) r d =
      let (dl, dr, below, above) = IsDisjoint-split (inorder left) item (inorder right) d in
      let rl = All-append_left (IsRange t) (inorder left) (item ∷ inorder right) r in
      let rr = All-append_right (IsRange t) (inorder left) (item ∷ inorder right) r in
      rw (find_tree_step c t v item left right rr.0) (elim (Bool-cases (ltb v (value item.from))) [
        | inl before ↦ ground (
          arith,
          search-front v (inorder left) (item ∷ inorder right) (
            ground arith,
            All-weaken _ _ (inorder right) (λ y k. ground (arith, rr.0.ordered)) above,
          ),
          find_tree_lem c t v left rl dl,
        )
        | inr after ↦ ground (
          arith,
          search-above v (inorder left) (item ∷ inorder right)
              (All-weaken _ _ (inorder left) (λ y k. ground arith) below),
          find_tree_lem c t v right rr.1 dr,
        )
      ])
