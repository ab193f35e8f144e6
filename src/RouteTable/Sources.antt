-- ===== src/RouteTable/Sources.antt =====
-- `rte_recalculate` and the sources of routes: one route of each, and no change to the others.
use active_bgp_measurement.Base.{ℕ, ◌+◌, ◌≤◌, ◌≡◌, ◌++◌, List, [], ◌∷◌, Bool, true, false, All}
use active_bgp_measurement.Base.{
  Option, none, some, ◌==◌, ==_iff, arith, Bool-cases, inl, inr, sym, refl, ◌∙◌, ap,
}
use active_bgp_measurement.RouteTable.{
  Rte, Search, collision, unchanged, removed, absent, rte_recalculate, after_search, find_old,
  head_of,
}
use active_bgp_measurement.RouteTable.Walk.{Splits, find_old-Splits}
use active_bgp_measurement.RouteTable.Contents.{
  count, count_new, count-append, count-link, count-link_absent,
}

-- The new route, if there is one, is of the source.
abbrev pub IsFrom : {D : Type 0} → ℕ → Option (Rte D) → Type 0
IsFrom src none = Unit {0}
IsFrom src (some n) = (n.src == src) ≡ true

-- How many routes a source has.
abbrev pub count_src : {D : Type 0} → ℕ → List (Rte D) → ℕ
count_src s routes = count (λ r. r.src == s) routes

module _ {D : Type 0} where
  count_none :
      (src : ℕ) (rs : List (Rte D)) → All (λ r. (r.src == src) ≡ false) rs → count_src src rs ≡ 0
  count_none src [] h = refl
  count_none src (r ∷ rs) h = ground (arith, count_none src rs h.1)

  count_removed :
      (test : Rte D → Bool) (before : List (Rte D)) (old : Rte D) (after routes : List (Rte D))
      → before ++ (old ∷ after) ≡ routes
      → count test routes ≡ count test (before ++ after) + count_new test (some old)
  count_removed test before old after routes e =
      ap (count test) (sym e)
      ∙ omega (arith, count-append test before (old ∷ after), count-append test before after)

  count_new-le : (test : Rte D → Bool) (new : Option (Rte D)) → count_new test new ≤ 1
  count_new-le test none = omega arith
  count_new-le test (some n) = ground arith

module _ {D : Type 0} (hook rte_same : Rte D → Rte D → Bool) (sorted force : Bool) where
  after_search-others :
      (test : Rte D → Bool) (src : ℕ) (new : Option (Rte D)) (routes : List (Rte D))
      (found : Search D)
      → ((r : Rte D) → (r.src == src) ≡ true → test r ≡ false)
      → IsFrom src new
      → Splits src routes found
      → count test (after_search hook rte_same sorted force new routes found) ≡ count test routes
  unfolding after_search
  after_search-others test src new routes collision o f s = refl
  after_search-others test src new routes unchanged o f s = refl
  after_search-others test src none routes absent o f s = refl
  after_search-others test src (some n) routes absent o f s =
      count-link_absent hook rte_same sorted force test routes n ∙ ground (arith, o n f)
  after_search-others test src none routes (removed before old after) o f s =
      count-link hook rte_same sorted force test _ before after none
      ∙ ground (arith, o old s.1, count_removed test before old after routes s.0)
  after_search-others test src (some n) routes (removed before old after) o f s =
      count-link hook rte_same sorted force test _ before after (some n)
      ∙ ground (arith, o n f, o old s.1, count_removed test before old after routes s.0)

  after_search_unique :
      (src : ℕ) (new : Option (Rte D)) (routes : List (Rte D)) (found : Search D)
      → count_src src routes ≤ 1
      → Splits src routes found
      → count_src src (after_search hook rte_same sorted force new routes found) ≤ 1
  unfolding after_search
  after_search_unique src new routes collision h s = h
  after_search_unique src new routes unchanged h s = h
  after_search_unique src none routes absent h s = h
  after_search_unique src (some n) routes absent h s = omega (
    arith,
    count-link_absent hook rte_same sorted force (λ r. r.src == src) routes n,
    count_none src routes s,
    count_new-le (λ (r : Rte D). r.src == src) (some n),
  )
  after_search_unique src new routes (removed before old after) h s =
      let once : count_new {D = D} (λ r. r.src == src) (some old) ≡ 1 = ground (arith, s.1) in
      omega (
        arith,
        count-link hook rte_same sorted force (λ r. r.src == src) (head_of routes) before after new,
        count_removed (λ r. r.src == src) before old after routes s.0,
        once,
        count_new-le (λ (r : Rte D). r.src == src) new,
      )

  -- In tables of both kinds: however routes are tested, `rte_recalculate` for a source leaves as many
  -- routes that pass as there were, if the test passes no route of the source
  -- and a new route is of the source.
  pub rte_recalculate-others :
      (test : Rte D → Bool) (src p : ℕ) (new : Option (Rte D)) (routes : List (Rte D))
      → ((r : Rte D) → (r.src == src) ≡ true → test r ≡ false)
      → IsFrom src new
      → count test (rte_recalculate hook rte_same sorted force src p new routes) ≡ count test routes
  unfolding rte_recalculate
  rte_recalculate-others test src p new routes o f =
      after_search-others test src new routes (find_old rte_same src p new [] routes) o f
        (find_old-Splits rte_same src p new routes)

  -- In tables of both kinds: if a network has at most one route of each source, it has at most one of
  -- each after `rte_recalculate` with a route of the source that is announced or withdrawn.
  pub rte_recalculate_unique :
      (src p s : ℕ) (new : Option (Rte D)) (routes : List (Rte D))
      → ((t : ℕ) → count_src t routes ≤ 1)
      → IsFrom src new
      → count_src s (rte_recalculate hook rte_same sorted force src p new routes) ≤ 1
  rte_recalculate_unique src p s new routes h f = elim (Bool-cases (src == s)) [
    | inl y ↦
        unfold rte_recalculate in
        rw⁻¹ ((==_iff src s).0 y) (
          after_search_unique src new routes (find_old rte_same src p new [] routes) (h src)
            (find_old-Splits rte_same src p new routes))
    | inr w ↦
        rw
          (rte_recalculate-others (λ r. r.src == s) src p new routes (λ r e. ground (arith, e, w))
            f)
          (h s)
  ]
