-- ===== src/Roa/Check.antt =====
-- `roa_check` against the route validation of RFC 6483.
use active_bgp_measurement.Base.{leb, ◌==◌}
use active_bgp_measurement.Base.{
  ℕ, zero, suc, ◌≡◌, ◌||◌, ◌&&◌, ◌++◌, not, List, [], ◌∷◌, Bool, false,
}
use active_bgp_measurement.Base.{Option, none, some, if◌then◌else◌, arith, refl}
use active_bgp_measurement.Roa.{
  RoaItem, RoaNode, roa_unknown, roa_valid, roa_invalid, fib_find, any_valid, is_empty, check_node,
  check_loop, roa_check,
}

-- The items at a prefix.
abbrev pub items_of : Option RoaNode → List RoaItem
items_of none = []
items_of (some n) = n.items

unfoldable pub items_at : List RoaNode → ℕ → ℕ → List RoaItem
items_at t prefix pxlen = items_of (fib_find t prefix pxlen)

module _ (network : ℕ → ℕ → ℕ) where
  -- The candidate ROAs: all items whose prefix covers the network, with a length of `len` at most.
  unfoldable pub candidates : List RoaNode → ℕ → ℕ → List RoaItem
  candidates t prefix zero = items_at t (network prefix 0) 0
  candidates t prefix (suc len) =
      items_at t (network prefix (suc len)) (suc len) ++ candidates t prefix len

  -- RFC 6483: valid if a candidate matches, unknown if there is none, and invalid otherwise.
  abbrev pub validity : ℕ → ℕ → Bool → List RoaItem → ℕ
  validity pxlen asn anything items =
      if any_valid pxlen asn items
      then roa_valid
      else (if anything || not (is_empty items) then roa_invalid else roa_unknown)

  pub any_valid-append :
      (pxlen asn : ℕ) (xs ys : List RoaItem)
      → any_valid pxlen asn (xs ++ ys) ≡ (any_valid pxlen asn xs || any_valid pxlen asn ys)
  any_valid-append pxlen asn [] ys = refl
  any_valid-append pxlen asn (x ∷ xs) ys = ground (arith, any_valid-append pxlen asn xs ys)

  is_empty-append : (xs ys : List RoaItem) → is_empty (xs ++ ys) ≡ (is_empty xs && is_empty ys)
  is_empty-append [] ys = refl
  is_empty-append (x ∷ xs) ys = refl

  check_node_lem :
      (found : Option RoaNode) (pxlen asn : ℕ) (anything : Bool)
      → check_node network found pxlen asn anything ≡ (
          if any_valid pxlen asn (items_of found)
          then none
          else some (anything || not (is_empty (items_of found))))
  unfolding check_node
  check_node_lem none pxlen asn anything = ground arith
  check_node_lem (some n) pxlen asn anything = refl

  check_loop_lem :
      (t : List RoaNode) (prefix pxlen asn len : ℕ) (anything : Bool)
      → check_loop network t prefix pxlen asn len anything
        ≡ validity pxlen asn anything (candidates t prefix len)
  unfolding check_loop candidates items_at
  check_loop_lem t prefix pxlen asn zero anything =
      rw (check_loop, check_node_lem (fib_find t (network prefix 0) 0) pxlen asn anything)
        (ground arith)
  check_loop_lem t prefix pxlen asn (suc len) anything =
      let here = items_of (fib_find t (network prefix (suc len)) (suc len)) in
      rw
        (
          check_loop,
          check_node_lem (fib_find t (network prefix (suc len)) (suc len)) pxlen asn anything,
        )
        (ground (
          arith,
          check_loop_lem t prefix pxlen asn len (anything || not (is_empty here)),
          any_valid-append pxlen asn here (candidates t prefix len),
          is_empty-append here (candidates t prefix len),
        ))

  pub roa_check-candidates :
      (t : List RoaNode) (prefix pxlen asn : ℕ)
      → roa_check network t prefix pxlen asn ≡ (
          if any_valid pxlen asn (candidates t prefix pxlen)
          then roa_valid
          else (if is_empty (candidates t prefix pxlen) then roa_unknown else roa_invalid))
  unfolding roa_check
  roa_check-candidates t prefix pxlen asn =
      rw (check_loop_lem t prefix pxlen asn pxlen false) (ground arith)

-- Some ROA is for the AS number and allows the prefix length.
abbrev pub any_allows : ℕ → ℕ → List RoaItem → Bool
any_allows pxlen asn [] = false
any_allows pxlen asn (it ∷ items) =
    (it.asn == asn && leb pxlen it.maxlen) || any_allows pxlen asn items

any_valid-any_allows :
    (pxlen asn : ℕ) (items : List RoaItem)
    → any_valid pxlen asn items ≡ (not (asn == 0) && any_allows pxlen asn items)
any_valid-any_allows pxlen asn [] = ground arith
any_valid-any_allows pxlen asn (it ∷ items) = ground (arith, any_valid-any_allows pxlen asn items)

-- `roa_check` answers ROA_VALID if the AS number is not 0 and some candidate ROA is for it and allows
-- the prefix length, ROA_UNKNOWN if there is no candidate, and ROA_INVALID otherwise.
pub roa_check_lem :
    (network : ℕ → ℕ → ℕ) (t : List RoaNode) (prefix pxlen asn : ℕ)
    → roa_check network t prefix pxlen asn ≡ (
        if not (asn == 0) && any_allows pxlen asn (candidates network t prefix pxlen)
        then roa_valid
        else (if is_empty (candidates network t prefix pxlen) then roa_unknown else roa_invalid))
roa_check_lem network t prefix pxlen asn =
    rw
      (
        roa_check-candidates network t prefix pxlen asn,
        any_valid-any_allows pxlen asn (candidates network t prefix pxlen),
      )
      refl
