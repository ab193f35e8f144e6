-- ===== src/RouteTable/Sorted.antt =====
-- In a sorted table `rte_recalculate` keeps the order of the routes.
use active_bgp_measurement.Base.{
  ℕ, ◌≡◌, ◌++◌, not, List, [], ◌∷◌, Bool, true, false, All-append, All-append_left,
  All-append_right,
}
use active_bgp_measurement.Base.{
  Option, none, some, if◌then◌else◌, arith, append-nil, Bool-cases, inl, inr, sym, refl, subst,
}
use active_bgp_measurement.RouteTable.{
  Rte, Search, collision, unchanged, removed, absent, better, insert, last_of, link_sorted,
  find_old, link, rte_recalculate, after_search,
}
use active_bgp_measurement.RouteTable.Walk.{Splits, find_old-Splits}
use active_bgp_measurement.RouteTable.Best.{
  beats, IsBest, IsOrder, IsBest-better, beats_self, beats_of_not_better,
}

-- Besides, a route that is not better than a second is not better than a third that the second is
-- not better than.
pub record IsWeakOrder {D : Type 0} (hook : Rte D → Rte D → Bool) : Type 0 where
  pub order : IsOrder hook
  pub neg_trans : (a b c : Rte D) → hook a b ≡ false → hook b c ≡ false → hook a c ≡ false

module _ {D : Type 0} (hook : Rte D → Rte D → Bool) where
  -- No valid route is better than one in front of it.
  abbrev pub IsSorted : List (Rte D) → Type 0
  IsSorted [] = Unit {0}
  IsSorted (x ∷ xs) = IsBest hook x xs × IsSorted xs

module _ {D : Type 0} (hook : Rte D → Rte D → Bool) (weak : IsWeakOrder hook) where
  beats-neg_trans :
      (a b c : Rte D) → better hook a b ≡ false → beats hook b c ≡ false → beats hook a c ≡ false
  unfolding beats better
  beats-neg_trans a b c h k = ground (arith, weak.neg_trans a b c)

  IsBest-insert :
      (x n : Rte D) (ks : List (Rte D))
      → beats hook n x ≡ false
      → IsBest hook x ks
      → IsBest hook x (insert hook n ks)
  unfolding insert
  IsBest-insert x n [] h b = (h, tt)
  IsBest-insert x n (k ∷ ks) h b = elim (Bool-cases (better hook n k)) [
    | inl y ↦ rw y (h, b)
    | inr w ↦ rw w (b.0, IsBest-insert x n ks h b.1)
  ]

  insert-IsSorted :
      (n : Rte D) (ks : List (Rte D)) → IsSorted hook ks → IsSorted hook (insert hook n ks)
  unfolding insert
  insert-IsSorted n [] s = (tt, tt)
  insert-IsSorted n (k ∷ ks) s = elim (Bool-cases (better hook n k)) [
    | inl y ↦
        rw y (IsBest-better hook weak.order k n (k ∷ ks) y (beats_self hook weak.order k, s.0), s)
    | inr w ↦ rw w (
      IsBest-insert k n ks (beats_of_not_better hook weak.order n k w) s.0,
      insert-IsSorted n ks s.1,
    )
  ]

  last-IsBest :
      (x : Rte D) (ys : List (Rte D)) (b : Rte D)
      → last_of ys ≡ some b
      → IsBest hook x ys
      → beats hook b x ≡ false
  last-IsBest x [] b l h = cc
  last-IsBest x (y ∷ []) b l h = ground (arith, l, h.0)
  last-IsBest x (y ∷ z ∷ ys) b l h = last-IsBest x (z ∷ ys) b l h.1

  -- A route that is not better than the last of the front is better than none of the front.
  insert_behind :
      (n : Rte D) (before after : List (Rte D)) (b : Rte D)
      → last_of before ≡ some b
      → better hook n b ≡ false
      → IsSorted hook (before ++ after)
      → IsSorted hook (before ++ insert hook n after)
  insert_behind n [] after b l w s = cc
  insert_behind n (x ∷ []) after b l w s = (
    IsBest-insert x n after (beats_of_not_better hook weak.order n x (ground (arith, l, w))) s.0,
    insert-IsSorted n after s.1,
  )
  insert_behind n (x ∷ y ∷ ys) after b l w s = (
    All-append (λ r. beats hook r x ≡ false) (y ∷ ys) (insert hook n after)
        (All-append_left (λ r. beats hook r x ≡ false) (y ∷ ys) after s.0)
        (IsBest-insert x n after
          (beats-neg_trans n b x w (
            last-IsBest x (y ∷ ys) b l
              (All-append_left (λ r. beats hook r x ≡ false) (y ∷ ys) after s.0)))
          (All-append_right (λ r. beats hook r x ≡ false) (y ∷ ys) after s.0)),
    insert_behind n (y ∷ ys) after b l w s.1,
  )

  link_sorted-IsSorted :
      (had_old : Bool) (before after : List (Rte D)) (n : Rte D)
      → IsSorted hook (before ++ after)
      → IsSorted hook (link_sorted hook had_old before after n)
  unfolding link_sorted
  link_sorted-IsSorted false before after n s = insert-IsSorted n (before ++ after) s
  link_sorted-IsSorted true before after n s = placed (last_of before) refl
    where
      placed :
          (b : Option (Rte D))
          → last_of before ≡ b
          → IsSorted hook (elim b as (λ _. List (Rte D)) [
            | none ↦ insert hook n (before ++ after)
            | some x ↦
                if not (better hook n x)
                then before ++ insert hook n after
                else insert hook n (before ++ after)
          ])
      placed none l = insert-IsSorted n (before ++ after) s
      placed (some x) l = elim (Bool-cases (better hook n x)) [
        | inl y ↦ rw y (insert-IsSorted n (before ++ after) s)
        | inr w ↦ rw w (insert_behind n before after x l w s)
      ]

  -- Taking a route out keeps the order.
  IsSorted-removed :
      (before : List (Rte D)) (old : Rte D) (after : List (Rte D))
      → IsSorted hook (before ++ (old ∷ after))
      → IsSorted hook (before ++ after)
  IsSorted-removed [] old after s = s.1
  IsSorted-removed (x ∷ before) old after s = (
    All-append (λ r. beats hook r x ≡ false) before after
        (All-append_left (λ r. beats hook r x ≡ false) before (old ∷ after) s.0)
        (All-append_right (λ r. beats hook r x ≡ false) before (old ∷ after) s.0).1,
    IsSorted-removed before old after s.1,
  )

module _ {D : Type 0} (hook rte_same : Rte D → Rte D → Bool) (force : Bool)
    (weak : IsWeakOrder hook) where
  after_search-IsSorted :
      (src : ℕ) (routes : List (Rte D)) (new : Option (Rte D)) (found : Search D)
      → IsSorted hook routes
      → Splits src routes found
      → IsSorted hook (after_search hook rte_same true force new routes found)
  unfolding after_search link
  after_search-IsSorted src routes new collision h s = h
  after_search-IsSorted src routes new unchanged h s = h
  after_search-IsSorted src routes none absent h s = h
  after_search-IsSorted src routes (some n) absent h s =
      link_sorted-IsSorted hook weak false routes [] n (rw (append-nil routes) h)
  after_search-IsSorted src routes none (removed before old after) h s =
      IsSorted-removed hook weak before old after (subst (λ r. IsSorted hook r) (sym s.0) h)
  after_search-IsSorted src routes (some n) (removed before old after) h s =
      link_sorted-IsSorted hook weak true before after n
        (IsSorted-removed hook weak before old after (subst (λ r. IsSorted hook r) (sym s.0) h))

  -- In a sorted table, if the hook is a weak order, `rte_recalculate` keeps the routes sorted: where no
  -- valid route is better than one in front of it, this is so after it, whatever is announced or
  -- withdrawn, although the search for the place may start behind the old route.
  pub rte_recalculate-IsSorted :
      (src p : ℕ) (new : Option (Rte D)) (routes : List (Rte D))
      → IsSorted hook routes
      → IsSorted hook (rte_recalculate hook rte_same true force src p new routes)
  unfolding rte_recalculate
  rte_recalculate-IsSorted src p new routes h =
      after_search-IsSorted src routes new (find_old rte_same src p new [] routes) h
        (find_old-Splits rte_same src p new routes)
