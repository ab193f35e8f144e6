-- ===== src/CommunityFilter/Tests.antt =====
-- Runs of the filters by sets of communities.
use active_bgp_measurement.Base.{
  ℕ, ◌≡◌, [], ◌∷◌, length, true, false, none, some, ok, ◌>>=◌, arith, refl, List, inl,
}
use active_bgp_measurement.Base.Int.{uint_cmp}
use active_bgp_measurement.FilterTree.{
  scalar, ec, lc, Comparisons, FTree, leaf, node, Item, val_compare, find_tree, build_tree,
  tree_compare,
}
use active_bgp_measurement.CommunitySet.Spec.{mem}
use active_bgp_measurement.CommunitySet.Int.{int_set_contains, contains_words}
use active_bgp_measurement.CommunitySet.Ec.{ec_words}
use active_bgp_measurement.CommunitySet.Lc.{Lcomm, lc_eq, lc_words}
use active_bgp_measurement.CommunityFilter.{
  tree, words, found, clist_filter, eclist_filter, lclist_filter, clist_match_set, eclist_match_set,
  lclist_match_set,
}
use active_bgp_measurement.CommunityFilter.Correct.{keep, eclist_filter_lem, lclist_filter_lem}
use active_bgp_measurement.CommunityFilter.Ranges.{int_set_contains-clist_filter}
use active_bgp_measurement.FilterTree.Sets.{IsSortedBy}
use active_bgp_measurement.FilterTree.Build.{covered}
use mathlib.Core.List.{Permᴰ}
use active_bgp_measurement.CommunityFilter.MatchSet.{any_of, clist_match_set_lem}

abbrev comparisons : Comparisons
comparisons = record {
  ipa_compare = λ a b. uint_cmp a b;
  ipa_to_u32 = λ a. a;
  strcmp = λ s t. uint_cmp (length s) (length t);
}

-- The pairs `(0, 10 .. 20)`.
abbrev pairs : Item ℕ
pairs = record { from = scalar 0x12 10; to = scalar 0x12 20; content = 0 }

abbrev pair_set : FTree ℕ
pair_set = node pairs leaf leaf

abbrev more_pairs : Item ℕ
more_pairs = record { from = scalar 0x12 40; to = scalar 0x12 50; content = 0 }

-- The pairs are in order already, so that sorting them changes nothing.
abbrev in_order : List (Item ℕ) → List (Item ℕ)
in_order items = items

pairs-IsSortedBy : IsSortedBy comparisons (pairs ∷ more_pairs ∷ [])
unfolding tree_compare val_compare
pairs-IsSortedBy = ((refl, tt), (tt, tt))

-- Deleting the pairs of the set leaves the others.
int_set_contains-clist_filter_example :
    ((clist_filter comparisons
          (some (12 ∷ 30 ∷ 45 ∷ []))
          (tree (build_tree in_order (pairs ∷ more_pairs ∷ [])))
          false
        >>= λ l. ok (int_set_contains l 30))
      ≡ ok true)
    × ((clist_filter comparisons {D = ℕ} (some (12 ∷ 30 ∷ 45 ∷ [])) (words (some (30 ∷ []))) false
          >>= λ l. ok (int_set_contains l 30))
        ≡ ok false)
unfolding covered int_set_contains contains_words
int_set_contains-clist_filter_example =
    int_set_contains-clist_filter comparisons in_order pairs (more_pairs ∷ []) 0x12 (some (30 ∷ []))
      (12 ∷ 30 ∷ 45 ∷ []) false 30 refl (Permᴰ.cons refl (Permᴰ.cons refl Permᴰ.nil))
      pairs-IsSortedBy
      (
        record { known = refl; from_scalar = refl; to_scalar = refl; ordered = omega arith },
        (record { known = refl; from_scalar = refl; to_scalar = refl; ordered = omega arith }, tt),
      )
      ((inl (omega arith), tt), (tt, tt))

eclist_filter_lem_example :
    (eclist_filter comparisons (some (ec_words (1 ∷ 2 ∷ []))) (tree pair_set) true
      ≡ ok (some (ec_words (keep (λ v. found comparisons pair_set (ec v)) true (1 ∷ 2 ∷ [])))))
    × (eclist_filter comparisons {D = ℕ}
          (some (ec_words (1 ∷ 2 ∷ [])))
          (words (some (ec_words (2 ∷ []))))
          true
        ≡ ok (some (ec_words (2 ∷ []))))
unfolding keep
eclist_filter_lem_example =
    eclist_filter_lem comparisons (1 ∷ 2 ∷ []) (2 ∷ []) pair_set true (ground arith) (ground arith)

abbrev large : ℕ → Lcomm
large v = record { asn = 65001; ldp1 = 1; ldp2 = v }

lclist_filter_lem_example :
    (lclist_filter comparisons (some (lc_words (large 1 ∷ large 2 ∷ []))) (tree pair_set) true
      ≡ ok (
          some (
            lc_words (
              keep
                (λ v. found comparisons pair_set (lc v.asn v.ldp1 v.ldp2))
                true
                (large 1 ∷ large 2 ∷ [])))))
    × (lclist_filter comparisons {D = ℕ}
          (some (lc_words (large 1 ∷ large 2 ∷ [])))
          (words (some (lc_words (large 2 ∷ []))))
          true
        ≡ ok (
            some (lc_words (keep (λ v. mem lc_eq v (large 2 ∷ [])) true (large 1 ∷ large 2 ∷ [])))))
lclist_filter_lem_example =
    lclist_filter_lem comparisons (large 1 ∷ large 2 ∷ []) (large 2 ∷ []) pair_set true

clist_match_set_lem_example :
    (clist_match_set comparisons (some (12 ∷ 30 ∷ [])) pair_set
      ≡ ok (some (any_of (λ v. found comparisons pair_set (scalar 0x12 v)) (12 ∷ 30 ∷ []))))
    × (eclist_match_set comparisons (some (ec_words (1 ∷ []))) pair_set ≡ ok none)
    × (lclist_match_set comparisons (some (lc_words (large 1 ∷ []))) pair_set ≡ ok none)
clist_match_set_lem_example =
    clist_match_set_lem comparisons (12 ∷ 30 ∷ []) (1 ∷ []) (large 1 ∷ []) pairs leaf leaf
      (ground arith)

matched : any_of (λ v. found comparisons pair_set (scalar 0x12 v)) (12 ∷ 30 ∷ []) ≡ true
unfolding val_compare find_tree
matched = refl
