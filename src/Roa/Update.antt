-- ===== src/Roa/Update.antt =====
-- What the operations on ROA tables do to the items at every prefix.
use active_bgp_measurement.Base.{
  ℕ, zero, suc, ◌≤◌, ◌<◌, ◌≡◌, ◌&&◌, List, [], ◌∷◌, Bool, true, false,
}
use active_bgp_measurement.Base.{
  ◌==◌, ==_iff, if◌then◌else◌, arith, Bool-cases, inl, inr, refl, ◌∙◌,
}
use active_bgp_measurement.Roa.{
  RoaItem, RoaNode, roa_unknown, roa_valid, any_same, fib_find, any_valid, add_item, delete_item,
  flush_items, roa_add_item, roa_delete_item, roa_flush, roa_check,
}
use active_bgp_measurement.Roa.Check.{items_at, candidates, any_valid-append, roa_check-candidates}

-- The keys of two lookups are the same.
abbrev pub same_key : ℕ → ℕ → ℕ → ℕ → Bool
same_key prefix pxlen q l = prefix == q && pxlen == l

items_at-roa_add_item :
    (t : List RoaNode) (prefix pxlen maxlen asn src q l : ℕ)
    → items_at (roa_add_item t prefix pxlen maxlen asn src) q l ≡ (
        if same_key prefix pxlen q l
        then add_item maxlen asn src (items_at t q l)
        else items_at t q l)
unfolding items_at fib_find roa_add_item
items_at-roa_add_item [] prefix pxlen maxlen asn src q l = ground arith
items_at-roa_add_item (n ∷ t) prefix pxlen maxlen asn src q l =
    ground (arith, items_at-roa_add_item t prefix pxlen maxlen asn src q l)

items_at-roa_delete_item :
    (t : List RoaNode) (prefix pxlen maxlen asn src q l : ℕ)
    → items_at (roa_delete_item t prefix pxlen maxlen asn src) q l ≡ (
        if same_key prefix pxlen q l
        then delete_item maxlen asn src (items_at t q l)
        else items_at t q l)
unfolding items_at fib_find roa_delete_item delete_item
items_at-roa_delete_item [] prefix pxlen maxlen asn src q l = ground arith
items_at-roa_delete_item (n ∷ t) prefix pxlen maxlen asn src q l =
    ground (arith, items_at-roa_delete_item t prefix pxlen maxlen asn src q l)

items_at-roa_flush :
    (t : List RoaNode) (src q l : ℕ)
    → items_at (roa_flush t src) q l ≡ flush_items src (items_at t q l)
unfolding items_at fib_find roa_flush flush_items
items_at-roa_flush [] src q l = refl
items_at-roa_flush (n ∷ t) src q l = ground (arith, items_at-roa_flush t src q l)

delete_item-add_item :
    (maxlen asn src : ℕ) (items : List RoaItem)
    → any_same maxlen asn src items ≡ false
    → delete_item maxlen asn src (add_item maxlen asn src items) ≡ items
unfolding add_item delete_item
delete_item-add_item maxlen asn src items h = ground arith

-- If the table has no such entry, `roa_delete_item` after `roa_add_item` of an entry leaves at every
-- prefix the items that were there.
pub roa_delete_item-roa_add_item :
    (t : List RoaNode) (prefix pxlen maxlen asn src q l : ℕ)
    → any_same maxlen asn src (items_at t prefix pxlen) ≡ false
    → items_at
        (roa_delete_item (roa_add_item t prefix pxlen maxlen asn src) prefix pxlen maxlen asn src)
        q
        l
      ≡ items_at t q l
roa_delete_item-roa_add_item t prefix pxlen maxlen asn src q l h =
    rw
      (
        items_at-roa_delete_item (roa_add_item t prefix pxlen maxlen asn src) prefix pxlen maxlen
            asn src q l,
        items_at-roa_add_item t prefix pxlen maxlen asn src q l,
      )
      (ground (arith, delete_item-add_item maxlen asn src (items_at t prefix pxlen) h))

any_valid-any_same :
    (pxlen maxlen asn src : ℕ) (items : List RoaItem)
    → pxlen ≤ maxlen
    → 0 < asn
    → any_same maxlen asn src items ≡ true
    → any_valid pxlen asn items ≡ true
any_valid-any_same pxlen maxlen asn src [] m a h = cc
any_valid-any_same pxlen maxlen asn src (it ∷ items) m a h =
    ground (arith, any_valid-any_same pxlen maxlen asn src items m a)

any_valid-add_item :
    (pxlen maxlen asn src : ℕ) (items : List RoaItem)
    → pxlen ≤ maxlen
    → 0 < asn
    → any_valid pxlen asn (add_item maxlen asn src items) ≡ true
unfolding add_item
any_valid-add_item pxlen maxlen asn src items m a =
    ground (arith, any_valid-any_same pxlen maxlen asn src items m a)

module _ (network : ℕ → ℕ → ℕ) where
  any_valid-candidates :
      (t : List RoaNode) (prefix pxlen asn len n : ℕ)
      → any_valid pxlen asn (items_at t (network prefix len) len) ≡ true
      → len ≤ n
      → any_valid pxlen asn (candidates network t prefix n) ≡ true
  unfolding candidates
  any_valid-candidates t prefix pxlen asn zero zero v h = v
  any_valid-candidates t prefix pxlen asn (suc len) zero v h = absurd (omega arith)
  any_valid-candidates t prefix pxlen asn len (suc n) v h =
      rw
        (any_valid-append network pxlen asn (items_at t (network prefix (suc n)) (suc n))
          (candidates network t prefix n))
        (elim (Bool-cases (len == suc n)) [
          | inl y ↦ ground (arith, v, (==_iff len (suc n)).0 y)
          | inr w ↦ ground (arith, w, any_valid-candidates t prefix pxlen asn len n v)
        ])

  -- After `roa_add_item` of an entry at a prefix that covers a network, with a maximal length that
  -- allows it, `roa_check` of the network with the AS number of the entry, if that is not 0, answers
  -- ROA_VALID.
  pub roa_check-roa_add_item :
      (t : List RoaNode) (prefix pxlen len maxlen asn src : ℕ)
      → len ≤ pxlen
      → pxlen ≤ maxlen
      → 0 < asn
      → roa_check network (roa_add_item t (network prefix len) len maxlen asn src) prefix pxlen asn
        ≡ roa_valid
  roa_check-roa_add_item t prefix pxlen len maxlen asn src c m a =
      let t' = roa_add_item t (network prefix len) len maxlen asn src in
      let here : any_valid pxlen asn (items_at t' (network prefix len) len) ≡ true =
        rw
          (items_at-roa_add_item t (network prefix len) len maxlen asn src (network prefix len) len)
          (ground (
            arith,
            any_valid-add_item pxlen maxlen asn src (items_at t (network prefix len) len) m a,
          )) in
      rw
        (
          roa_check-candidates network t' prefix pxlen asn,
          any_valid-candidates t' prefix pxlen asn len pxlen here c,
        )
        refl

  flush_items_any : (items : List RoaItem) → flush_items 0 items ≡ []
  unfolding flush_items
  flush_items_any [] = refl
  flush_items_any (it ∷ items) = flush_items_any items

  candidates_any :
      (t : List RoaNode) (prefix n : ℕ) → candidates network (roa_flush t 0) prefix n ≡ []
  unfolding candidates
  candidates_any t prefix zero =
      items_at-roa_flush t 0 (network prefix 0) 0
      ∙ flush_items_any (items_at t (network prefix 0) 0)
  candidates_any t prefix (suc n) =
      rw
        (
          items_at-roa_flush t 0 (network prefix (suc n)) (suc n),
          flush_items_any (items_at t (network prefix (suc n)) (suc n)),
          candidates_any t prefix n,
        )
        refl

  -- After `roa_flush` of any source `roa_check` answers ROA_UNKNOWN for every network.
  pub roa_check-roa_flush :
      (t : List RoaNode) (prefix pxlen asn : ℕ)
      → roa_check network (roa_flush t 0) prefix pxlen asn ≡ roa_unknown
  roa_check-roa_flush t prefix pxlen asn =
      rw
        (
          roa_check-candidates network (roa_flush t 0) prefix pxlen asn,
          candidates_any t prefix pxlen,
        )
        refl
