-- ===== src/CommunityFilter/Correct.antt =====
-- What the filters by a set leave of sets of communities.
use active_bgp_measurement.Base.{
  ℕ, ◌≤◌, ◌≡◌, ◌&&◌, List, [], ◌∷◌, length, All, Bool, arith, refl, ap, sym, ◌∙◌,
}
use active_bgp_measurement.Base.{
  some, Res, ok, ◌>>=◌, ◌==◌, ==_iff, if◌then◌else◌, Bool-cases, inl, inr,
}
use active_bgp_measurement.FilterTree.{ec, lc, Comparisons, FTree}
use active_bgp_measurement.AsPath.Filter.{agrees}
use active_bgp_measurement.CommunitySet.Spec.{mem}
use active_bgp_measurement.CommunitySet.Int.{int_eq, contains_words, int_set_contains}
use active_bgp_measurement.CommunitySet.Ec.{
  IsEc, ec_words, ec_get-halves, length-ec_words, ec_set_add_lem,
}
use active_bgp_measurement.CommunitySet.Lc.{Lcomm, lc_eq, lc_words, length-lc_words, lc_set_add_lem}
use active_bgp_measurement.CommunityFilter.{
  FilterSet, tree, words, found, clist_kept, clist_member, clist_filter, eclist_kept, eclist_member,
  eclist_filter, lclist_kept, lclist_member, lclist_filter,
}

-- The values that are kept.
unfoldable pub keep : {A : Type 0} → (A → Bool) → Bool → List A → List A
keep member pos [] = []
keep member pos (v ∷ vs) =
    let rest = keep member pos vs in if agrees (member v) pos then v ∷ rest else rest

length-keep :
    {A : Type 0} (member : A → Bool) (pos : Bool) (vs : List A)
    → length (keep member pos vs) ≤ length vs
unfolding keep
length-keep member pos [] = omega arith
length-keep member pos (v ∷ vs) = ground (arith, length-keep member pos vs)

-- Where nothing is lost, nothing changes.
keep_all :
    {A : Type 0} (member : A → Bool) (pos : Bool) (vs : List A)
    → length (keep member pos vs) ≡ length vs
    → keep member pos vs ≡ vs
unfolding keep
keep_all member pos [] h = refl
keep_all member pos (v ∷ vs) h = elim (Bool-cases (agrees (member v) pos)) [
  | inl y ↦ rw y (ap (λ (r : List _). v ∷ r) (keep_all member pos vs (ground arith)))
  | inr n ↦ absurd (ground (arith, length-keep member pos vs))
]

contains_words-clist_kept :
    (member : ℕ → Bool) (pos : Bool) (l : List ℕ) (w : ℕ)
    → contains_words (clist_kept member pos l) w ≡ (agrees (member w) pos && contains_words l w)
unfolding clist_kept contains_words
contains_words-clist_kept member pos [] w = ground arith
contains_words-clist_kept member pos (v ∷ l) w = elim (Bool-cases (v == w)) [
  | inl y ↦ ground (
    arith,
    y,
    ap (λ (n : ℕ). agrees (member n) pos) ((==_iff v w).0 y),
    contains_words-clist_kept member pos l w,
  )
  | inr n ↦ ground (arith, n, contains_words-clist_kept member pos l w)
]

clist_kept-keep :
    (member : ℕ → Bool) (pos : Bool) (l : List ℕ) → clist_kept member pos l ≡ keep member pos l
unfolding clist_kept keep
clist_kept-keep member pos [] = refl
clist_kept-keep member pos (v ∷ l) = rw (clist_kept-keep member pos l) refl

module _ (c : Comparisons) {D : Type 0} where
  -- When membership in the set is `member`, the filtered list contains the members, or the others.
  pub int_set_contains-kept :
      (list : List ℕ) (set : FilterSet D) (pos : Bool) (member : ℕ → Bool) (w : ℕ)
      → clist_member c set ≡ ok member
      → (clist_filter c (some list) set pos >>= λ l. ok (int_set_contains l w))
        ≡ ok (agrees (member w) pos && int_set_contains (some list) w)
  unfolding clist_filter int_set_contains
  int_set_contains-kept list set pos member w m =
      rw m (elim (Bool-cases (length (clist_kept member pos list) == length list)) [
        | inl y ↦ rw y (
            ap ok (
              ap (λ (l : List ℕ). contains_words l w)
                (sym (
                  clist_kept-keep member pos list
                  ∙ keep_all member pos list
                      (rw⁻¹ (clist_kept-keep member pos list) ((==_iff _ _).0 y))))
              ∙ contains_words-clist_kept member pos list w))
        | inr n ↦ rw n (ap ok (contains_words-clist_kept member pos list w))
      ])

eclist_kept-words :
    (member : ℕ → Res Bool) (decide : ℕ → Bool) (pos : Bool) (vs : List ℕ)
    → ((v : ℕ) → IsEc v → member v ≡ ok (decide v))
    → All IsEc vs
    → eclist_kept member pos (ec_words vs) ≡ ok (ec_words (keep decide pos vs))
unfolding eclist_kept ec_words keep
eclist_kept-words member decide pos [] d h = refl
eclist_kept-words member decide pos (v ∷ vs) d h =
    rw (ec_get-halves v h.0, d v h.0, eclist_kept-words member decide pos vs d h.1) (ground arith)

-- The test for an unchanged length makes no difference.
same_words :
    {A : Type 0} (to_words : List A → List ℕ) (member : A → Bool) (pos : Bool) (vs : List A)
    → ((xs ys : List A) → length (to_words xs) ≡ length (to_words ys) → length xs ≡ length ys)
    → (if length (to_words (keep member pos vs)) == length (to_words vs)
        then to_words vs
        else to_words (keep member pos vs))
      ≡ to_words (keep member pos vs)
same_words to_words member pos vs l =
    elim (Bool-cases (length (to_words (keep member pos vs)) == length (to_words vs))) [
      | inl y ↦ rw y (ap to_words (sym (keep_all member pos vs (l _ _ ((==_iff _ _).0 y)))))
      | inr w ↦ rw w refl
    ]

module _ (c : Comparisons) {D : Type 0} where
  eclist_filter-member :
      (vs : List ℕ) (set : FilterSet D) (pos : Bool) (decide : ℕ → Bool)
      → ((v : ℕ) → IsEc v → eclist_member c set v ≡ ok (decide v))
      → All IsEc vs
      → eclist_filter c (some (ec_words vs)) set pos ≡ ok (some (ec_words (keep decide pos vs)))
  unfolding eclist_filter
  eclist_filter-member vs set pos decide d h =
      rw (eclist_kept-words (eclist_member c set) decide pos vs d h) (
        ap (λ (l : List ℕ). ok (some l))
          (same_words ec_words decide pos vs
            (λ xs ys e. omega (arith, e, length-ec_words xs, length-ec_words ys))))

  -- On the words of a list of 64-bit values `eclist_filter` by a tree or by the words of such a list
  -- returns, and its result is the words of the values whose membership in the set is `pos`.
  pub eclist_filter_lem :
      (vs ws : List ℕ) (set : FTree D) (pos : Bool)
      → All IsEc vs
      → All IsEc ws
      → (eclist_filter c (some (ec_words vs)) (tree set) pos
          ≡ ok (some (ec_words (keep (λ v. found c set (ec v)) pos vs))))
        × (eclist_filter c {D = D} (some (ec_words vs)) (words (some (ec_words ws))) pos
            ≡ ok (some (ec_words (keep (λ v. mem int_eq v ws) pos vs))))
  eclist_filter_lem vs ws set pos h k = (
    eclist_filter-member vs (tree set) pos _ (λ v b. unfold eclist_member in refl) h,
    eclist_filter-member vs (words (some (ec_words ws))) pos _
        (λ v b. unfold eclist_member in (ec_set_add_lem ws v k b).0) h,
  )

lclist_kept-words :
    (member : Lcomm → Res Bool) (decide : Lcomm → Bool) (pos : Bool) (vs : List Lcomm)
    → ((v : Lcomm) → member v ≡ ok (decide v))
    → lclist_kept member pos (lc_words vs) ≡ ok (lc_words (keep decide pos vs))
unfolding lclist_kept lc_words keep
lclist_kept-words member decide pos [] d = refl
lclist_kept-words member decide pos (v ∷ vs) d =
    rw (d v, lclist_kept-words member decide pos vs d) (ground arith)

module _ (c : Comparisons) {D : Type 0} where
  lclist_filter-member :
      (vs : List Lcomm) (set : FilterSet D) (pos : Bool) (decide : Lcomm → Bool)
      → ((v : Lcomm) → lclist_member c set v ≡ ok (decide v))
      → lclist_filter c (some (lc_words vs)) set pos ≡ ok (some (lc_words (keep decide pos vs)))
  unfolding lclist_filter
  lclist_filter-member vs set pos decide d =
      rw (lclist_kept-words (lclist_member c set) decide pos vs d) (
        ap (λ (l : List ℕ). ok (some l))
          (same_words lc_words decide pos vs
            (λ xs ys e. omega (arith, e, length-lc_words xs, length-lc_words ys))))

  -- On the words of a list of large communities `lclist_filter` by a tree or by the words of such a
  -- list returns, and its result is the words of the values whose membership in the set is `pos`.
  pub lclist_filter_lem :
      (vs ws : List Lcomm) (set : FTree D) (pos : Bool)
      → (lclist_filter c (some (lc_words vs)) (tree set) pos
          ≡ ok (some (lc_words (keep (λ v. found c set (lc v.asn v.ldp1 v.ldp2)) pos vs))))
        × (lclist_filter c {D = D} (some (lc_words vs)) (words (some (lc_words ws))) pos
            ≡ ok (some (lc_words (keep (λ v. mem lc_eq v ws) pos vs))))
  lclist_filter_lem vs ws set pos = (
    lclist_filter-member vs (tree set) pos _ (λ v. unfold lclist_member in refl),
    lclist_filter-member vs (words (some (lc_words ws))) pos _
        (λ v. unfold lclist_member in (lc_set_add_lem ws v).0),
  )
