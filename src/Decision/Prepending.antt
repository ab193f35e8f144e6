-- ===== src/Decision/Prepending.antt =====
-- Prepending an AS number makes a route lose.
use active_bgp_measurement.Base.{ℕ, ◌≡◌, Bool, true, List, some, arith, ◌+◌, ap, ◌∙◌}
use active_bgp_measurement.Base.{Res, ok, ◌>>=◌}
use active_bgp_measurement.AsPath.Wire.{Unaligned, Segment, IsKnownPath, encode}
use active_bgp_measurement.AsPath.Length.{path_length, as_path_getlen-encode}
use active_bgp_measurement.AsPath.Prepend.{
  as_path_prepend, prepend, as_path_prepend-encode, prepend-IsKnownPath, path_length-prepend,
}
use active_bgp_measurement.Decision.{BgpRte, path_len, smaller, rte_resolvable}
use active_bgp_measurement.Decision.{by_length, after_pref, bgp_rte_better}

-- The route with another AS path.
abbrev pub with_path : BgpRte → List ℕ → BgpRte
with_path r path = record r { as_path = some path }

smaller_self : (n : ℕ) (r : Res Bool) → smaller n n r ≡ r
smaller_self n r = ground arith

smaller-next : (n : ℕ) (r : Res Bool) → smaller n (n + 1) r ≡ ok true
smaller-next n r = ground arith

module _ (u : Unaligned) (ip_less : ℕ → ℕ → Bool) where
  better-path_len :
      (r : BgpRte) (p q : List ℕ) (n : ℕ)
      → r.proto.compare_path_lengths ≡ true
      → path_len (with_path r p) ≡ ok n
      → path_len (with_path r q) ≡ ok (n + 1)
      → bgp_rte_better u ip_less (with_path r p) (with_path r q) ≡ ok true
  unfolding bgp_rte_better after_pref by_length rte_resolvable
  better-path_len r p q n c e e' = rw (e, e') (ground arith)

  -- Where path lengths count, the route with a path of known segments is better than the same route
  -- after `as_path_prepend` on its path, which returns.
  pub bgp_rte_better-as_path_prepend :
      (r : BgpRte) (segs : List Segment) (as_number : ℕ)
      → IsKnownPath segs
      → r.proto.compare_path_lengths ≡ true
      → (as_path_prepend u (encode u segs) as_number >>= λ path.
          bgp_rte_better u ip_less (with_path r (encode u segs)) (with_path r path))
        ≡ ok true
  bgp_rte_better-as_path_prepend r segs as_number k c =
      rw (as_path_prepend-encode u segs as_number) (
        better-path_len r (encode u segs) (encode u (prepend segs as_number)) (path_length segs) c
          (as_path_getlen-encode u segs k)
          (as_path_getlen-encode u (prepend segs as_number) (prepend-IsKnownPath segs as_number k)
            ∙ ap ok (path_length-prepend segs as_number)))
