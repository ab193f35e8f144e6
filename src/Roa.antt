-- ===== src/Roa.antt =====
-- The tables of route origin authorizations, nest/rt-roa.c. The table is the list of its nodes, as
-- `fib_find` and `fib_get` of nest/rt-fib.c see it.
pub mod Check
pub mod Update
mod Tests
use active_bgp_measurement.Base.{
  ℕ, zero, suc, ◌≡◌, ◌||◌, ◌&&◌, ◌++◌, not, List, [], ◌∷◌, Bool, true, false,
}
use active_bgp_measurement.Base.{Option, none, some, ltb, leb, ◌==◌, if◌then◌else◌}

pub record RoaItem : Type 0 where
  pub asn : ℕ
  pub maxlen : ℕ
  pub src : ℕ

pub record RoaNode : Type 0 where
  pub prefix : ℕ
  pub pxlen : ℕ
  pub items : List RoaItem

abbrev pub roa_unknown : ℕ
roa_unknown = 0

abbrev pub roa_valid : ℕ
roa_valid = 1

abbrev pub roa_invalid : ℕ
roa_invalid = 2

-- `!src || it->src == src`; the source 0 is any.
abbrev pub src_match : RoaItem → ℕ → Bool
src_match it src = src == 0 || it.src == src

-- The test of the loops of `roa_add_item` and `roa_delete_item`.
abbrev pub is_same : ℕ → ℕ → ℕ → RoaItem → Bool
is_same maxlen asn src it = it.maxlen == maxlen && it.asn == asn && src_match it src

abbrev pub has_key : ℕ → ℕ → RoaNode → Bool
has_key prefix pxlen n = n.prefix == prefix && n.pxlen == pxlen

unfoldable pub fib_find : List RoaNode → ℕ → ℕ → Option RoaNode
fib_find [] prefix pxlen = none
fib_find (n ∷ t) prefix pxlen =
    let rest = fib_find t prefix pxlen in if has_key prefix pxlen n then some n else rest

abbrev pub any_same : ℕ → ℕ → ℕ → List RoaItem → Bool
any_same maxlen asn src [] = false
any_same maxlen asn src (it ∷ items) = is_same maxlen asn src it || any_same maxlen asn src items

-- The new item is linked in front, if there is no such item yet.
unfoldable pub add_item : ℕ → ℕ → ℕ → List RoaItem → List RoaItem
add_item maxlen asn src items =
    if any_same maxlen asn src items
    then items
    else record { asn = asn; maxlen = maxlen; src = src } ∷ items

-- `fib_get` finds the node or makes one without items.
unfoldable pub roa_add_item : List RoaNode → ℕ → ℕ → ℕ → ℕ → ℕ → List RoaNode
roa_add_item [] prefix pxlen maxlen asn src =
    record { prefix = prefix; pxlen = pxlen; items = add_item maxlen asn src [] } ∷ []
roa_add_item (n ∷ t) prefix pxlen maxlen asn src =
    let rest = roa_add_item t prefix pxlen maxlen asn src in
    if has_key prefix pxlen n
    then record n { items = add_item maxlen asn src n.items } ∷ t
    else n ∷ rest

-- The first such item is unlinked.
unfoldable pub delete_item : ℕ → ℕ → ℕ → List RoaItem → List RoaItem
delete_item maxlen asn src [] = []
delete_item maxlen asn src (it ∷ items) =
    let rest = delete_item maxlen asn src items in
    if is_same maxlen asn src it then items else it ∷ rest

unfoldable pub roa_delete_item : List RoaNode → ℕ → ℕ → ℕ → ℕ → ℕ → List RoaNode
roa_delete_item [] prefix pxlen maxlen asn src = []
roa_delete_item (n ∷ t) prefix pxlen maxlen asn src =
    let rest = roa_delete_item t prefix pxlen maxlen asn src in
    if has_key prefix pxlen n
    then record n { items = delete_item maxlen asn src n.items } ∷ t
    else n ∷ rest

unfoldable pub flush_items : ℕ → List RoaItem → List RoaItem
flush_items src [] = []
flush_items src (it ∷ items) =
    let rest = flush_items src items in if src_match it src then rest else it ∷ rest

unfoldable pub roa_flush : List RoaNode → ℕ → List RoaNode
roa_flush [] src = []
roa_flush (n ∷ t) src = record n { items = flush_items src n.items } ∷ roa_flush t src

-- The inner loop of `roa_check`: `true` returns ROA_VALID.
abbrev pub any_valid : ℕ → ℕ → List RoaItem → Bool
any_valid pxlen asn [] = false
any_valid pxlen asn (it ∷ items) =
    (leb pxlen it.maxlen && it.asn == asn && not (asn == 0)) || any_valid pxlen asn items

abbrev pub is_empty : List RoaItem → Bool
is_empty [] = true
is_empty (it ∷ items) = false

-- `network prefix len` is `ipa_and(prefix, ipa_mkmask(len))`.
module _ (network : ℕ → ℕ → ℕ) where
  -- The round of the loop at one node.
  unfoldable pub check_node : Option RoaNode → ℕ → ℕ → Bool → Option Bool
  check_node none pxlen asn anything = some anything
  check_node (some n) pxlen asn anything =
      if any_valid pxlen asn n.items then none else some (anything || not (is_empty n.items))

  -- `for (len = pxlen; len >= 0; len--)`, from `len` on.
  unfoldable pub check_loop : List RoaNode → ℕ → ℕ → ℕ → ℕ → Bool → ℕ
  check_loop t prefix pxlen asn zero anything =
      elim (check_node (fib_find t (network prefix 0) 0) pxlen asn anything) [
        | none ↦ roa_valid
        | some b ↦ if b then roa_invalid else roa_unknown
      ]
  check_loop t prefix pxlen asn (suc len) anything =
      elim (check_node (fib_find t (network prefix (suc len)) (suc len)) pxlen asn anything) [
        | none ↦ roa_valid
        | some b ↦ check_loop t prefix pxlen asn len b
      ]

  unfoldable pub roa_check : List RoaNode → ℕ → ℕ → ℕ → ℕ
  roa_check t prefix pxlen asn = check_loop t prefix pxlen asn pxlen false
