-- ===== src/Decision/Tests.antt =====
-- Runs of the decision process; addresses are compared as numbers.
use active_bgp_measurement.Base.{
  ℕ, ◌≡◌, Bool, true, false, List, [], ◌∷◌, none, some, ok, ◌>>=◌, ltb, arith, refl, inr,
}
use active_bgp_measurement.AsPath.Wire.{Segment, IsKnownPath, encode, as_path_sequence}
use active_bgp_measurement.AsPath.Prepend.{as_path_prepend}
use active_bgp_measurement.AsPath.NetworkOrder.{network_order}
use active_bgp_measurement.Decision.{
  BgpProto, BgpRte, tie_break, bgp_rte_better, bgp_rte_mergable, rte_resolvable,
}
use active_bgp_measurement.Decision.{
  after_pref, by_length, after_length, after_origin, after_med, compare_med, same_neighbor,
  bgp_get_neighbor, same_length, same_origin, same_med, same_cost,
}
use active_bgp_measurement.Decision.Order.{IsPlain, bgp_rte_better-swap, bgp_rte_better_trans}
use active_bgp_measurement.Decision.Merge.{bgp_rte_better-mergable}
use active_bgp_measurement.Decision.Prepending.{with_path, bgp_rte_better-as_path_prepend}

ip_asym : (a b : ℕ) → ltb a b ≡ true → ltb b a ≡ false
ip_asym a b h = ground arith

ip_trans : (a b c : ℕ) → ltb a b ≡ true → ltb b c ≡ true → ltb a c ≡ true
ip_trans a b c h k = ground arith

-- A peer of an AS, with its identifier, that compares MEDs always or not.
abbrev peer : Bool → ℕ → ℕ → BgpProto
peer always remote_as id = record {
  is_internal = 0;
  remote_as = remote_as;
  remote_id = id;
  remote_ip = id;
  compare_path_lengths = true;
  med_metric = always;
  igp_metric = true;
  prefer_older = false;
  default_local_pref = 100;
  default_med = 0;
}

abbrev route : Bool → ℕ → ℕ → ℕ → ℕ → BgpRte
route always remote_as id med cost = record {
  proto = peer always remote_as id;
  suppressed = 0;
  dest = 0;
  igp_cost = cost;
  local_pref = none;
  as_path = none;
  origin = some 0;
  multi_exit_disc = some med;
  originator_id = none;
  cluster_list = none;
}

bgp_rte_better-swap_example :
    bgp_rte_better network_order ltb (route true 1 2 9 0) (route true 1 1 3 0) ≡ ok false
bgp_rte_better-swap_example =
    bgp_rte_better-swap network_order ltb ip_asym (route true 1 1 3 0) (route true 1 2 9 0) (
      unfold bgp_rte_better after_pref by_length after_length after_origin compare_med
        rte_resolvable in
      refl)

plain : (remote_as id med cost : ℕ) → IsPlain true (route true remote_as id med cost)
plain remote_as id med cost = record { med_always = refl; no_older = refl; same_lengths = refl }

bgp_rte_better_trans_example :
    bgp_rte_better network_order ltb (route true 1 1 3 0) (route true 3 3 9 0) ≡ ok true
bgp_rte_better_trans_example =
    bgp_rte_better_trans network_order ltb ip_trans true (route true 1 1 3 0) (route true 2 2 5 0)
      (route true 3 3 9 0) (plain 1 1 3 0) (plain 2 2 5 0) (plain 3 3 9 0)
      (unfold bgp_rte_better after_pref by_length after_length after_origin compare_med
          rte_resolvable in
        refl)
      (unfold bgp_rte_better after_pref by_length after_length after_origin compare_med
          rte_resolvable in
        refl)

-- With MEDs compared only between routes of one neighbour the relation has cycles: the first beats
-- the second by MED, the second the third and the third the first by IGP costs.
med_cycle :
    (bgp_rte_better network_order ltb (route false 1 1 3 30) (route false 1 2 5 10) ≡ ok true)
    × (bgp_rte_better network_order ltb (route false 1 2 5 10) (route false 2 3 0 20) ≡ ok true)
    × (bgp_rte_better network_order ltb (route false 2 3 0 20) (route false 1 1 3 30) ≡ ok true)
unfolding bgp_rte_better after_pref by_length after_length after_origin after_med compare_med
    same_neighbor bgp_get_neighbor rte_resolvable
med_cycle = (refl, refl, refl)

bgp_rte_better-mergable_example :
    bgp_rte_better network_order ltb (route true 1 1 3 0) (route true 2 2 3 0)
    ≡ tie_break network_order ltb (route true 1 1 3 0) (route true 2 2 3 0)
bgp_rte_better-mergable_example =
    bgp_rte_better-mergable network_order ltb (route true 1 1 3 0) (route true 2 2 3 0)
      (unfold bgp_rte_mergable same_length same_origin same_med same_cost compare_med
          rte_resolvable in
        refl)
      (unfold rte_resolvable in refl)

abbrev two_hops : List Segment
two_hops = record { kind = as_path_sequence; asns = 65001 ∷ 65002 ∷ [] } ∷ []

two_hops-IsKnownPath : IsKnownPath two_hops
two_hops-IsKnownPath = (inr refl, tt)

bgp_rte_better-as_path_prepend_example :
    (as_path_prepend network_order (encode network_order two_hops) 65001 >>= λ path.
    bgp_rte_better network_order ltb
      (with_path (route true 1 1 3 0) (encode network_order two_hops))
      (with_path (route true 1 1 3 0) path))
    ≡ ok true
bgp_rte_better-as_path_prepend_example =
    bgp_rte_better-as_path_prepend network_order ltb (route true 1 1 3 0) two_hops 65001
      two_hops-IsKnownPath refl
