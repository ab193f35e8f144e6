-- ===== src/RouteTable/Best.antt =====
-- In a table that is not sorted `rte_recalculate` keeps the best route in front.
use active_bgp_measurement.Base.{
  ℕ, ◌≡◌, ◌&&◌, ◌++◌, not, List, [], ◌∷◌, Bool, true, false, All, All-append, All-append_left,
  All-append_right,
}
use active_bgp_measurement.Base.{
  Option, none, some, arith, append-nil, append_assoc, Bool-cases, inl, inr, sym, subst,
}
use active_bgp_measurement.RouteTable.{
  Rte, Search, collision, unchanged, removed, absent, better, rte_better, elect, elect_all,
  link_best, find_old, link, rte_recalculate, with_new, after_search,
}
use active_bgp_measurement.RouteTable.Walk.{Splits, find_old-Splits}

module _ {D : Type 0} (hook : Rte D → Rte D → Bool) where
  -- A valid route is better than another.
  unfoldable pub beats : Rte D → Rte D → Bool
  beats r x = not r.is_filtered && better hook r x

  -- No valid route is better than `x`.
  abbrev pub IsBest : Rte D → List (Rte D) → Type 0
  IsBest x rs = All (λ r. beats r x ≡ false) rs

  -- The first route is the best.
  abbrev pub IsBestFirst : List (Rte D) → Type 0
  IsBestFirst [] = Unit {0}
  IsBestFirst (x ∷ xs) = IsBest x xs

-- The hook is transitive on routes of one type of protocol, and prefers no route to itself.
pub record IsOrder {D : Type 0} (hook : Rte D → Rte D → Bool) : Type 0 where
  pub irrefl : (a : Rte D) → hook a a ≡ false
  pub trans : (a b c : Rte D) → hook a b ≡ true → hook b c ≡ true → hook a c ≡ true

module _ {D : Type 0} (hook : Rte D → Rte D → Bool) (order : IsOrder hook) where
  pub beats-better :
      (a b c : Rte D) → beats hook a b ≡ true → better hook b c ≡ true → beats hook a c ≡ true
  unfolding beats better
  beats-better a b c h k = ground (arith, order.trans a b c)

  pub beats_self : (a : Rte D) → beats hook a a ≡ false
  unfolding beats better
  beats_self a = ground (arith, order.irrefl a)

  -- What is not beaten stays so when the best gets better.
  pub IsBest-better :
      (x y : Rte D) (rs : List (Rte D))
      → better hook y x ≡ true
      → IsBest hook x rs
      → IsBest hook y rs
  IsBest-better x y [] h b = tt
  IsBest-better x y (r ∷ rs) h b =
      (ground (arith, beats-better r y x, h, b.0), IsBest-better x y rs h b.1)

  pub beats_of_not_better : (a b : Rte D) → better hook a b ≡ false → beats hook a b ≡ false
  unfolding beats
  beats_of_not_better a b h = ground arith

  IsBest-moved :
      (x k : Rte D) (before between : List (Rte D))
      → better hook k x ≡ true
      → IsBest hook x (before ++ between)
      → IsBest hook k (before ++ (x ∷ between))
  IsBest-moved x k before between h b =
      All-append (λ r. beats hook r k ≡ false) before (x ∷ between)
        (IsBest-better x k before h
          (All-append_left (λ r. beats hook r x ≡ false) before between b))
        (
          ground (arith, beats-better x k x, beats_self x, h),
          IsBest-better x k between h
              (All-append_right (λ r. beats hook r x ≡ false) before between b),
        )

  elect-IsBestFirst :
      (before : List (Rte D)) (best : Rte D) (between rest : List (Rte D))
      → IsBest hook best (before ++ between)
      → IsBestFirst hook (elect hook before best between rest)
  unfolding elect
  elect-IsBestFirst before best between [] b = b
  elect-IsBestFirst before best between (k ∷ ks) b = elim (Bool-cases (better hook k best)) [
    | inl y ↦ rw y (
        elect-IsBestFirst (before ++ (best ∷ between)) k [] ks
          (rw (append-nil (before ++ (best ∷ between))) (IsBest-moved best k before between y b)))
    | inr n ↦ rw n (
        elect-IsBestFirst before best (between ++ (k ∷ [])) ks (
          rw⁻¹ (append_assoc before between (k ∷ [])) (
            All-append (λ r. beats hook r best ≡ false) (before ++ between) (k ∷ []) b
              (beats_of_not_better k best n, tt))))
  ]

  elect_all-IsBestFirst : (routes : List (Rte D)) → IsBestFirst hook (elect_all hook routes)
  elect_all-IsBestFirst [] = tt
  elect_all-IsBestFirst (x ∷ xs) = elect-IsBestFirst [] x [] xs tt

  -- The best route itself is taken out, or nothing was there.
  link_best-gone :
      (force : Bool) (b : Rte D) (routes : List (Rte D)) (new : Option (Rte D))
      → IsBest hook b routes
      → IsBestFirst hook (link_best hook force (some b) true routes new)
  unfolding link_best rte_better
  link_best-gone true b routes new h = elect_all-IsBestFirst (with_new new routes)
  link_best-gone false b routes none h = elect_all-IsBestFirst routes
  link_best-gone false b routes (some n) h = elim (Bool-cases (better hook n b)) [
    | inl y ↦ rw y (IsBest-better b n routes y h)
    | inr worse ↦ rw worse (elect_all-IsBestFirst (n ∷ routes))
  ]

  -- The best route stays in the list.
  link_best-kept :
      (force : Bool) (b : Rte D) (rest : List (Rte D)) (new : Option (Rte D))
      → IsBest hook b rest
      → IsBestFirst hook (link_best hook force (some b) false (b ∷ rest) new)
  unfolding link_best rte_better
  link_best-kept true b rest new h = elect_all-IsBestFirst (with_new new (b ∷ rest))
  link_best-kept false b rest none h = h
  link_best-kept false b rest (some n) h = elim (Bool-cases (better hook n b)) [
    | inl y ↦ rw y (IsBest-better b n (b ∷ rest) y (beats_self b, h))
    | inr worse ↦ rw worse (beats_of_not_better n b worse, h)
  ]

  link_best-empty :
      (force : Bool) (new : Option (Rte D))
      → IsBestFirst hook (link_best hook force none false [] new)
  unfolding link_best rte_better elect
  link_best-empty true none = tt
  link_best-empty true (some n) = tt
  link_best-empty false none = tt
  link_best-empty false (some n) = tt

module _ {D : Type 0} (hook rte_same : Rte D → Rte D → Bool) (force : Bool)
    (order : IsOrder hook) where
  after_search-IsBestFirst :
      (src : ℕ) (routes : List (Rte D)) (new : Option (Rte D)) (found : Search D)
      → IsBestFirst hook routes
      → Splits src routes found
      → IsBestFirst hook (after_search hook rte_same false force new routes found)
  unfolding after_search link
  after_search-IsBestFirst src routes new collision h s = h
  after_search-IsBestFirst src routes new unchanged h s = h
  after_search-IsBestFirst src routes none absent h s = h
  after_search-IsBestFirst src [] (some n) absent h s = link_best-empty hook order force (some n)
  after_search-IsBestFirst src (x ∷ xs) (some n) absent h s =
      rw (append-nil xs) (link_best-kept hook order force x xs (some n) h)
  after_search-IsBestFirst src routes new (removed [] old after) h s =
      rw⁻¹ (s.0) (
        link_best-gone hook order force old after new (subst (λ r. IsBestFirst hook r) (sym s.0) h))
  after_search-IsBestFirst src routes new (removed (b ∷ before) old after) h s =
      let best : IsBest hook b (before ++ (old ∷ after)) =
        subst (λ r. IsBestFirst hook r) (sym s.0) h in
      rw⁻¹ (s.0) (
        link_best-kept hook order force b (before ++ after) new (
          All-append (λ r. beats hook r b ≡ false) before after
            (All-append_left (λ r. beats hook r b ≡ false) before (old ∷ after) best)
            (All-append_right (λ r. beats hook r b ≡ false) before (old ∷ after) best).1))

  -- In a table that is not sorted, if the hook is irreflexive and transitive, `rte_recalculate` keeps
  -- the best route in front: if no valid route is better than the first one before, none is better
  -- than the first one after it, whatever is announced or withdrawn and whatever the
  -- `rte_recalculate` hook answers.
  pub rte_recalculate-IsBestFirst :
      (src p : ℕ) (new : Option (Rte D)) (routes : List (Rte D))
      → IsBestFirst hook routes
      → IsBestFirst hook (rte_recalculate hook rte_same false force src p new routes)
  unfolding rte_recalculate
  rte_recalculate-IsBestFirst src p new routes h =
      after_search-IsBestFirst src routes new (find_old rte_same src p new [] routes) h
        (find_old-Splits rte_same src p new routes)
