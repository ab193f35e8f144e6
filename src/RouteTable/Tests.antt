-- ===== src/RouteTable/Tests.antt =====
-- Runs of `rte_recalculate` on three routes; the hook compares a number, smaller is better.
use active_bgp_measurement.Base.{
  ℕ, ◌≤◌, ◌≡◌, List, [], ◌∷◌, Bool, true, false, some, ltb, ◌==◌, ◌&&◌, arith, refl, none,
}
use active_bgp_measurement.RouteTable.{
  Rte, better, rte_better, elect, link_best, find_old, link, after_search, rte_recalculate,
}
use active_bgp_measurement.RouteTable.Best.{
  IsOrder, IsBestFirst, beats, rte_recalculate-IsBestFirst,
}
use active_bgp_measurement.RouteTable.Sorted.{IsSorted, IsWeakOrder, rte_recalculate-IsSorted}
use active_bgp_measurement.AsPath.NetworkOrder.{network_order}
use active_bgp_measurement.RouteTable.Bgp.{
  PlainRte, Update, bgp_hook, IsChosen, rte_updates, rte_updates-IsChosen,
}
use active_bgp_measurement.Decision.{bgp_rte_better, after_pref, rte_resolvable}
use active_bgp_measurement.RouteTable.Contents.{count}
use active_bgp_measurement.RouteTable.Sources.{
  count_src, rte_recalculate-others, rte_recalculate_unique,
}

abbrev hook : Rte ℕ → Rte ℕ → Bool
hook new old = ltb new.attrs old.attrs

abbrev same_rte : Rte ℕ → Rte ℕ → Bool
same_rte a b = a.src == b.src && a.attrs == b.attrs

hook-IsOrder : IsOrder hook
hook-IsOrder = record { irrefl = λ a. ground arith; trans = λ a b c h k. ground arith }

abbrev route : ℕ → ℕ → Rte ℕ
route src cost = record {
  src = src;
  sender = 1;
  pref = 100;
  proto = 7;
  is_filtered = false;
  attrs = cost;
}

abbrev routes : List (Rte ℕ)
routes = route 1 10 ∷ route 2 30 ∷ route 3 20 ∷ []

routes-IsBestFirst : IsBestFirst hook routes
unfolding beats better
routes-IsBestFirst = (refl, (refl, tt))

routes_once : (t : ℕ) → count_src t routes ≤ 1
routes_once t = ground arith

-- The best route gets worse, and another is elected.
withdrawn :
    rte_recalculate hook same_rte false false 1 1 (some (route 1 40)) routes
    ≡ route 3 20 ∷ route 1 40 ∷ route 2 30 ∷ []
unfolding rte_recalculate after_search find_old link link_best elect rte_better better
withdrawn = refl

rte_recalculate-IsBestFirst_example :
    IsBestFirst hook (rte_recalculate hook same_rte false false 1 1 (some (route 1 40)) routes)
rte_recalculate-IsBestFirst_example =
    rte_recalculate-IsBestFirst hook same_rte false hook-IsOrder 1 1 (some (route 1 40)) routes
      routes-IsBestFirst

rte_recalculate-others_example :
    count
      (λ r. r.src == 2)
      (rte_recalculate hook same_rte true false 1 1 (some (route 1 40)) routes)
    ≡ count (λ r. r.src == 2) routes
rte_recalculate-others_example =
    rte_recalculate-others hook same_rte true false (λ r. r.src == 2) 1 1 (some (route 1 40)) routes
      (λ r e. ground (arith, e)) refl

rte_recalculate_unique_example :
    count_src 1 (rte_recalculate hook same_rte true false 1 1 (some (route 1 40)) routes) ≤ 1
rte_recalculate_unique_example =
    rte_recalculate_unique hook same_rte true false 1 1 1 (some (route 1 40)) routes routes_once
      refl

hook-IsWeakOrder : IsWeakOrder hook
hook-IsWeakOrder = record { order = hook-IsOrder; neg_trans = λ a b c h k. ground arith }

abbrev in_order : List (Rte ℕ)
in_order = route 1 10 ∷ route 2 20 ∷ route 3 30 ∷ []

in_order-IsSorted : IsSorted hook in_order
unfolding beats better
in_order-IsSorted = ((refl, (refl, tt)), ((refl, tt), (tt, tt)))

rte_recalculate-IsSorted_example :
    IsSorted hook (rte_recalculate hook same_rte true false 2 1 (some (route 2 40)) in_order)
rte_recalculate-IsSorted_example =
    rte_recalculate-IsSorted hook same_rte false hook-IsWeakOrder 2 1 (some (route 2 40)) in_order
      in_order-IsSorted

ip_asym : (a b : ℕ) → ltb a b ≡ true → ltb b a ≡ false
ip_asym a b h = ground arith

ip_trans : (a b c : ℕ) → ltb a b ≡ true → ltb b c ≡ true → ltb a c ≡ true
ip_trans a b c h k = ground arith

-- A route of a peer with a local preference.
abbrev of_peer : ℕ → ℕ → Rte (PlainRte true)
of_peer id pref = record {
  src = id;
  sender = 1;
  pref = 100;
  proto = 7;
  is_filtered = false;
  attrs = record {
    route = record {
      proto = record {
        is_internal = 0;
        remote_as = id;
        remote_id = id;
        remote_ip = id;
        compare_path_lengths = true;
        med_metric = true;
        igp_metric = true;
        prefer_older = false;
        default_local_pref = 100;
        default_med = 0;
      };
      suppressed = 0;
      dest = 0;
      igp_cost = 0;
      local_pref = some pref;
      as_path = none;
      origin = some 0;
      multi_exit_disc = none;
      originator_id = none;
      cluster_list = none;
    };
    plain = record { med_always = refl; no_older = refl; same_lengths = refl };
  };
}

abbrev announce : ℕ → ℕ → Update true
announce id pref = record { src = id; sender = 1; new = some (of_peer id pref); force = false }

-- No two routes are the same, so that none is ignored.
abbrev all_differ : Rte (PlainRte true) → Rte (PlainRte true) → Bool
all_differ r s = false

-- Two announcements, and then a better one.
abbrev three_updates : List (Update true)
three_updates = announce 1 100 ∷ announce 2 90 ∷ announce 3 200 ∷ []

updated :
    rte_updates network_order ltb true all_differ three_updates []
    ≡ of_peer 3 200 ∷ of_peer 1 100 ∷ of_peer 2 90 ∷ []
unfolding rte_updates rte_recalculate after_search find_old link link_best elect rte_better better
    bgp_hook bgp_rte_better after_pref rte_resolvable
updated = refl

rte_updates-IsChosen_example :
    IsChosen network_order ltb true (rte_updates network_order ltb true all_differ three_updates [])
rte_updates-IsChosen_example =
    rte_updates-IsChosen network_order ltb true ip_asym ip_trans all_differ three_updates
