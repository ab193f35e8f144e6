-- ===== src/Decision/Merge.antt =====
-- Routes that `bgp_rte_mergable` puts into one multipath route differ in nothing that
-- `bgp_rte_better` looks at before the router identifiers.
use active_bgp_measurement.Base.{ℕ, ◌≡◌, Bool, true, arith}
use active_bgp_measurement.Base.{Res, ok}
use active_bgp_measurement.AsPath.Wire.{Unaligned}
use active_bgp_measurement.Decision.{BgpRte, path_len, smaller, rte_resolvable}
use active_bgp_measurement.Decision.{
  tie_break, after_med, compare_med, after_origin, after_length, by_length, after_pref,
  bgp_rte_better,
}
use active_bgp_measurement.Decision.{
  same_cost, same_med, same_origin, same_length, bgp_rte_mergable,
}
use active_bgp_measurement.Decision.Order.{bind_then}

smaller-same : (n o : ℕ) (r : Res Bool) → n ≡ o → smaller n o r ≡ r
smaller-same n o r e = ground arith

module _ (u : Unaligned) (ip_less : ℕ → ℕ → Bool) (a b : BgpRte) where
  after_med-same : same_cost u a b ≡ true → after_med u ip_less a b ≡ tie_break u ip_less a b
  unfolding same_cost after_med
  after_med-same h = ground arith

  after_origin-same :
      same_med u a b ≡ ok true → after_origin u ip_less a b ≡ tie_break u ip_less a b
  unfolding same_med after_origin
  after_origin-same h =
      bind_then (compare_med u a b) _ true h (λ c e k. rw e (ground (arith, k, after_med-same)))

  after_length-same :
      same_origin u a b ≡ ok true → after_length u ip_less a b ≡ tie_break u ip_less a b
  unfolding same_origin after_length
  after_length-same h = ground (arith, after_origin-same)

  by_length-same : same_length u a b ≡ ok true → by_length u ip_less a b ≡ tie_break u ip_less a b
  unfolding same_length by_length
  by_length-same h = bind_then (path_len a) _ true h (λ n e h'.
      bind_then (path_len b) _ true h'
        (λ o e' k. rw (e, e') (ground (arith, k, after_length-same))))

  -- Two routes that `bgp_rte_mergable` accepts, of which the first is resolvable too, are compared
  -- by `bgp_rte_better` by what comes from the router identifiers on, and nothing else.
  pub bgp_rte_better-mergable :
      bgp_rte_mergable u a b ≡ ok true
      → rte_resolvable a ≡ 1
      → bgp_rte_better u ip_less a b ≡ tie_break u ip_less a b
  unfolding bgp_rte_mergable bgp_rte_better after_pref rte_resolvable
  bgp_rte_better-mergable h r = ground (arith, by_length-same, after_length-same)
