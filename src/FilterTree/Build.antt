-- ===== src/FilterTree/Build.antt =====
-- `build_tree` and `build_tree_rec`: the tree holds the sorted nodes in order, it is balanced, and a
-- lookup in it is a lookup in the set that it was built from.
use active_bgp_measurement.Base.{ℕ, zero, suc, ◌+◌, ◌-◌, ◌/◌, ◌^◌, ◌≤◌, ◌<◌, ◌≡◌, inl, inr, refl}
use active_bgp_measurement.Base.{Bool, true, false, ◌&&◌, ◌||◌, List, [], ◌∷◌, ◌++◌, All, length}
use active_bgp_measurement.Base.{Option, none, some, get_elem?, take, drop, leb}
use active_bgp_measurement.Base.{arith, ap, sym, ◌∙◌, Bool-cases, drop-drop}
use native.Mathlib.Nat.{pow-suc}
use active_bgp_measurement.FilterTree.{scalar, Comparisons, Item, FTree, leaf, node, find_tree}
use active_bgp_measurement.FilterTree.{build_tree_rec, build_tree, inorder}
use active_bgp_measurement.FilterTree.Find.{
  value, IsRange, IsDisjoint, search_list, root, find_tree_lem,
}
use mathlib.Core.List.{Permᴰ}
use Prim.Native.Nat.{max}

module _ {ℓ} {A : Type ℓ} where
  -- The element at `i`, with what stands before and behind it among the first `n`.
  take_middle :
      (n i : ℕ) (xs : List A) (x : A)
      → i < n
      → get_elem? xs i ≡ some x
      → take n xs ≡ take i xs ++ (x ∷ take (n - suc i) (drop (suc i) xs))
  take_middle zero i xs x h e = absurd (omega arith)
  take_middle (suc n) i [] x h e = cc
  take_middle (suc n) zero (y ∷ xs) x h e = ground arith
  take_middle (suc n) (suc i) (y ∷ xs) x h e =
      ap (λ (r : List A). y ∷ r) (take_middle n i xs x (omega arith) e)
      ∙ ap (λ (k : ℕ). y ∷ (take i xs ++ (x ∷ take k (drop (suc i) xs)))) (omega arith)

  get_elem?-drop : (l i : ℕ) (xs : List A) → get_elem? (drop l xs) i ≡ get_elem? xs (l + i)
  get_elem?-drop zero i xs = ap (λ (k : ℕ). get_elem? xs k) (omega arith)
  get_elem?-drop (suc l) i [] = refl
  get_elem?-drop (suc l) i (x ∷ xs) =
      get_elem?-drop l i xs ∙ ap (λ (k : ℕ). get_elem? (x ∷ xs) k) {x = suc (l + i)} (omega arith)

  get_elem?-lt : (i : ℕ) (xs : List A) → i < length xs → (x : A) × (get_elem? xs i ≡ some x)
  get_elem?-lt i [] h = absurd (omega arith)
  get_elem?-lt zero (x ∷ xs) h = (x, refl)
  get_elem?-lt (suc i) (x ∷ xs) h = get_elem?-lt i xs (omega arith)

  take-length : (xs : List A) → take (length xs) xs ≡ xs
  take-length [] = refl
  take-length (x ∷ xs) = ap (λ (r : List A). x ∷ r) (take-length xs)

module _ {ℓ} {A : Type ℓ} where
  slice_split :
      (buf : List A) (l pos h : ℕ) (x : A)
      → l ≤ pos
      → pos < h
      → get_elem? buf pos ≡ some x
      → take (h - l) (drop l buf)
        ≡ take (pos - l) (drop l buf) ++ (x ∷ take (h - (pos + 1)) (drop (pos + 1) buf))
  slice_split buf l pos h x low high at =
      take_middle (h - l) (pos - l) (drop l buf) x (omega arith)
        (get_elem?-drop l (pos - l) buf ∙ ap (λ (k : ℕ). get_elem? buf k) (omega arith) ∙ at)
      ∙ ap (λ (r : List A). take (pos - l) (drop l buf) ++ (x ∷ r)) tail
    where
      tail :
          take (h - l - suc (pos - l)) (drop (suc (pos - l)) (drop l buf))
          ≡ take (h - (pos + 1)) (drop (pos + 1) buf)
      tail =
          ap (λ (r : List A). take (h - l - suc (pos - l)) r)
            (sym (drop-drop l (suc (pos - l)) buf))
          ∙ ap (λ (k : ℕ). take (h - l - suc (pos - l)) (drop k buf)) (omega arith)
          ∙ ap (λ (k : ℕ). take k (drop (pos + 1) buf)) (omega arith)

module _ {D : Type 0} where
  -- The length of the longest path from the root.
  unfoldable pub depth : FTree D → ℕ
  depth leaf = 0
  depth (node item left right) = suc (max (depth left) (depth right))

  -- A tree over fewer than `2 ^ k` nodes is at most `k` deep.
  depth-build_tree_rec :
      (k fuel : ℕ) (buf : List (Item D)) (l h : ℕ)
      → h < l + 2 ^ k
      → depth (build_tree_rec fuel buf l h) ≤ k
  unfolding build_tree_rec depth
  depth-build_tree_rec k zero buf l h lt = omega arith
  depth-build_tree_rec zero (suc fuel) buf l h lt = ground arith
  depth-build_tree_rec (suc k) (suc fuel) buf l h lt = ground (
    arith,
    depth-build_tree_rec k fuel buf l ((l + h) / 2) (omega (arith, pow-suc 2 k)),
    depth-build_tree_rec k fuel buf ((l + h) / 2 + 1) h (omega (arith, pow-suc 2 k)),
  )

  build_tree_rec-inorder :
      (fuel : ℕ) (buf : List (Item D)) (l h : ℕ)
      → h ≤ length buf
      → h ≤ l + fuel
      → inorder (build_tree_rec fuel buf l h) ≡ take (h - l) (drop l buf)
  unfolding build_tree_rec inorder
  build_tree_rec-inorder zero buf l h b f =
      ap (λ (n : ℕ). take n (drop l buf)) {x = 0} (omega arith)
  build_tree_rec-inorder (suc fuel) buf l h b f = elim (Bool-cases (leb h l)) [
    | inl empty ↦ rw empty (ap (λ (n : ℕ). take n (drop l buf)) {x = 0} (ground arith))
    | inr some_left ↦
        let pos = (l + h) / 2 in
        let lt : l < h = ground arith in
        let (item, at) = get_elem?-lt pos buf (omega arith) in
        rw (some_left, at)
          (rw (build_tree_rec-inorder fuel buf l pos (omega arith) (omega arith)) (
            rw (build_tree_rec-inorder fuel buf (pos + 1) h b (omega arith))
              (sym (slice_split buf l pos h item (omega arith) (omega arith) at))))
  ]

-- Some range of the set holds the value.
unfoldable pub covered : {D : Type 0} → ℕ → List (Item D) → Bool
covered v [] = false
covered v (x ∷ xs) = (leb (value x.from) v && leb v (value x.to)) || covered v xs

abbrev pub is_some : {A : Type 0} → Option A → Bool
is_some none = false
is_some (some a) = true

module _ {D : Type 0} where
  is_some-search : (v : ℕ) (xs : List (Item D)) → is_some (search_list v xs) ≡ covered v xs
  unfolding search_list covered
  is_some-search v [] = refl
  is_some-search v (x ∷ xs) = ground (arith, is_some-search v xs)

  covered-perm : (v : ℕ) {xs ys : List (Item D)} → Permᴰ xs ys → covered v xs ≡ covered v ys
  unfolding covered
  covered-perm v Permᴰ.nil = refl
  covered-perm v (Permᴰ.cons e p) = ground (arith, e, covered-perm v p)
  covered-perm v (Permᴰ.swap e f) = rw (e, f) (ground arith)
  covered-perm v (Permᴰ.trans p q) = covered-perm v p ∙ covered-perm v q

  pub length-perm : {xs ys : List (Item D)} → Permᴰ xs ys → length xs ≡ length ys
  length-perm Permᴰ.nil = refl
  length-perm (Permᴰ.cons e p) = ap suc (length-perm p)
  length-perm (Permᴰ.swap e f) = refl
  length-perm (Permᴰ.trans p q) = length-perm p ∙ length-perm q

  empty_of_length : (xs : List (Item D)) → length xs ≡ 0 → xs ≡ []
  empty_of_length [] h = refl
  empty_of_length (x ∷ xs) h = absurd (omega arith)

  -- From left to right the nodes of the tree are the sorted array.
  pub build_tree-inorder :
      (qsort : List (Item D) → List (Item D)) (items : List (Item D))
      → Permᴰ (qsort items) items
      → inorder (build_tree qsort items) ≡ qsort items
  unfolding build_tree
  build_tree-inorder qsort [] p = unfold inorder in sym (empty_of_length (qsort []) (length-perm p))
  build_tree-inorder qsort (x ∷ xs) p =
      let len = length (x ∷ xs) in
      build_tree_rec-inorder len (qsort (x ∷ xs)) 0 len (omega (arith, length-perm p)) (omega arith)
      ∙ ap (λ (n : ℕ). take n (qsort (x ∷ xs))) (omega (arith, length-perm p))
      ∙ take-length (qsort (x ∷ xs))

  -- A tree built from fewer than `2 ^ k` nodes is at most `k` nodes deep, in any order that `qsort`
  -- puts them.
  pub depth-build_tree :
      (qsort : List (Item D) → List (Item D)) (items : List (Item D)) (k : ℕ)
      → length items < 2 ^ k
      → depth (build_tree qsort items) ≤ k
  unfolding build_tree
  depth-build_tree qsort [] k h = unfold depth in omega arith
  depth-build_tree qsort (x ∷ xs) k h =
      depth-build_tree_rec k (length (x ∷ xs)) (qsort (x ∷ xs)) 0 (length (x ∷ xs)) (omega arith)

  -- If `qsort` permutes the nodes and leaves them as disjoint ranges of scalars of one type in
  -- ascending order, then `find_tree` on the tree that `build_tree` makes finds a node exactly for
  -- the values that some range of the set holds.
  pub find_tree-build_sorted :
      (c : Comparisons) (qsort : List (Item D) → List (Item D)) (items : List (Item D)) (t v : ℕ)
      → Permᴰ (qsort items) items
      → All (IsRange t) (qsort items)
      → IsDisjoint (qsort items)
      → is_some (root (find_tree c (build_tree qsort items) (scalar t v))) ≡ covered v items
  find_tree-build_sorted c qsort items t v p r d =
      let same = build_tree-inorder qsort items p in
      ap is_some (find_tree_lem c t v (build_tree qsort items) (rw same r) (rw same d))
      ∙ is_some-search v (inorder (build_tree qsort items))
      ∙ ap (covered v) same
      ∙ covered-perm v p
