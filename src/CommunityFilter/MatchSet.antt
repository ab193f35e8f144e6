-- ===== src/CommunityFilter/MatchSet.antt =====
-- The tests whether a set of communities has an element in a filter set.
use active_bgp_measurement.Base.{ℕ, ◌≡◌, ◌||◌, ◌==◌, List, [], ◌∷◌, All, Bool, false, arith, refl}
use active_bgp_measurement.Base.{none, some, ok, if◌then◌else◌}
use active_bgp_measurement.FilterTree.{
  FVal, scalar, ec, lc, Comparisons, Item, FTree, node, type_of, t_quad,
}
use active_bgp_measurement.CommunitySet.Ec.{IsEc, ec_words, ec_get-halves}
use active_bgp_measurement.CommunitySet.Lc.{Lcomm, lc_words}
use active_bgp_measurement.CommunityFilter.{
  t_pair, t_ec, t_lc, t_ip, set_type, clist_set_type, found, match_words, match_ec, match_lc,
  clist_match_set, eclist_match_set, lclist_match_set,
}

-- Some value passes.
abbrev pub any_of : {A : Type 0} → (A → Bool) → List A → Bool
any_of test [] = false
any_of test (v ∷ vs) = test v || any_of test vs

match_words-any_of : (test : ℕ → Bool) (l : List ℕ) → match_words test l ≡ any_of test l
unfolding match_words
match_words-any_of test [] = refl
match_words-any_of test (v ∷ l) = ground (arith, match_words-any_of test l)

match_ec-words :
    (test : FVal → Bool) (vs : List ℕ)
    → All IsEc vs
    → match_ec test (ec_words vs) ≡ ok (any_of (λ v. test (ec v)) vs)
unfolding match_ec ec_words
match_ec-words test [] h = refl
match_ec-words test (v ∷ vs) h = rw (ec_get-halves v h.0, match_ec-words test vs h.1) (ground arith)

match_lc-words :
    (test : FVal → Bool) (vs : List Lcomm)
    → match_lc test (lc_words vs) ≡ ok (any_of (λ v. test (lc v.asn v.ldp1 v.ldp2)) vs)
unfolding match_lc lc_words
match_lc-words test [] = refl
match_lc-words test (v ∷ vs) = rw (match_lc-words test vs) (ground arith)

module _ (c : Comparisons) {D : Type 0} where
  -- On every list, of 64-bit values where the communities are extended ones, and every set that is
  -- not empty `clist_match_set`, `eclist_match_set` and `lclist_match_set` return: CMP_ERROR if the first value of the set is of no type of theirs (pair,
  -- quad or address; extended; large), and else whether `find_tree` finds some element.
  pub clist_match_set_lem :
      (list vs : List ℕ) (ls : List Lcomm) (item : Item D) (left right : FTree D)
      → All IsEc vs
      → (clist_match_set c (some list) (node item left right)
          ≡ ok (
              if type_of item.from == t_pair
              then some (any_of (λ v. found c (node item left right) (scalar t_pair v)) list)
              else (if type_of item.from == t_quad || type_of item.from == t_ip
                  then some (any_of (λ v. found c (node item left right) (scalar t_quad v)) list)
                  else none)))
        × (eclist_match_set c (some (ec_words vs)) (node item left right)
            ≡ ok (
                if type_of item.from == t_ec
                then some (any_of (λ v. found c (node item left right) (ec v)) vs)
                else none))
        × (lclist_match_set c (some (lc_words ls)) (node item left right)
            ≡ ok (
                if type_of item.from == t_lc
                then some (any_of (λ v. found c (node item left right) (lc v.asn v.ldp1 v.ldp2)) ls)
                else none))
  unfolding clist_match_set eclist_match_set lclist_match_set set_type clist_set_type
  clist_match_set_lem list vs ls item left right h = (
    ground (
      arith,
      match_words-any_of (λ v. found c (node item left right) (scalar t_pair v)) list,
      match_words-any_of (λ v. found c (node item left right) (scalar t_quad v)) list,
    ),
    ground (arith, match_ec-words (found c (node item left right)) vs h),
    ground (arith, match_lc-words (found c (node item left right)) ls),
  )
