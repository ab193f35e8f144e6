-- ===== src/CommunitySet/Lc.antt =====
-- The operations on sets of large communities, each three words: `lc_set_contains`, `lc_set_add`,
-- `lc_set_del` and `lc_set_union` of nest/a-set.c, and `lcomm`, `lc_match`, `lc_get`, `lc_put` and
-- `lc_copy` of nest/attrs.h.
use active_bgp_measurement.Base.{ℕ, ◌-◌, ◌*◌, ◌≡◌, ◌&&◌, ◌++◌, not, refl, ap, sym}
use active_bgp_measurement.Base.{
  List, [], ◌∷◌, length, Bool, true, false, arith, if◌then◌else◌, ◌==◌,
}
use active_bgp_measurement.Base.{
  Option, none, some, Res, ok, fault, ◌>>=◌, Bool-cases, inl, inr, append-nil, ◌↔◌,
}
use active_bgp_measurement.CommunitySet.Words.{Alloc, write_block, words_of, write_block_full}
use active_bgp_measurement.CommunitySet.Spec.{
  Equality, mem, add, remove, news, IsSetList, length-remove, count_of_IsSetList,
}

pub record Lcomm : Type 0 where
  pub asn : ℕ
  pub ldp1 : ℕ
  pub ldp2 : ℕ

unfoldable pub lc_match : ℕ → ℕ → ℕ → Lcomm → Bool
lc_match a b c v = a == v.asn && b == v.ldp1 && c == v.ldp2

pub lc_put : Lcomm → List ℕ
lc_put v = v.asn ∷ v.ldp1 ∷ v.ldp2 ∷ []

-- A list that ends inside a value is read out of bounds behind matching words.
pub lc_contains_loop : List ℕ → Lcomm → Res Bool
lc_contains_loop [] val = ok false
lc_contains_loop (a ∷ []) val = if a == val.asn then fault else ok false
lc_contains_loop (a ∷ b ∷ []) val = if a == val.asn && b == val.ldp1 then fault else ok false
lc_contains_loop (a ∷ b ∷ c ∷ l) val =
    let rest = lc_contains_loop l val in if lc_match a b c val then ok true else rest

pub lc_set_contains : Option (List ℕ) → Lcomm → Res Bool
lc_set_contains none val = ok false
lc_set_contains (some l) val = lc_contains_loop l val

pub lc_set_add : Option (List ℕ) → Lcomm → Res (Option (List ℕ))
lc_set_add list val = do
  found ← lc_set_contains list val
  ok (if found then list else some (words_of list ++ lc_put val))

pub lc_kept : List ℕ → Lcomm → Res (List ℕ)
lc_kept [] val = ok []
lc_kept (a ∷ []) val = fault
lc_kept (a ∷ b ∷ []) val = fault
lc_kept (a ∷ b ∷ c ∷ l) val =
    lc_kept l val >>= λ k. ok (if not (lc_match a b c val) then a ∷ b ∷ c ∷ k else k)

-- The new block has room for one value less.
pub lc_set_del : Alloc → Option (List ℕ) → Lcomm → Res (Option (List ℕ))
lc_set_del m list val = do
  found ← lc_set_contains list val
  let copied = do
    k ← lc_kept (words_of list) val
    l ← write_block k (m.fresh (length (words_of list) - 3))
    ok (some l)
  if not found then ok list else copied

pub lc_new : List ℕ → List ℕ → Res (List ℕ)
lc_new l1 [] = ok []
lc_new l1 (a ∷ []) = fault
lc_new l1 (a ∷ b ∷ []) = fault
lc_new l1 (a ∷ b ∷ c ∷ l) = do
  found ← lc_set_contains (some l1) (record { asn = a; ldp1 = b; ldp2 = c })
  k ← lc_new l1 l
  ok (if not found then a ∷ b ∷ c ∷ k else k)

pub lc_set_union : Option (List ℕ) → Option (List ℕ) → Res (Option (List ℕ))
lc_set_union none l2 = ok l2
lc_set_union (some l1) none = ok (some l1)
lc_set_union (some l1) (some l2) = do
  tmp ← lc_new l1 l2
  ok (elim tmp [ [] ↦ some l1 | x ∷ rest ↦ some (l1 ++ x ∷ rest) ])

-- The words of a list of values.
unfoldable pub lc_words : List Lcomm → List ℕ
lc_words [] = []
lc_words (v ∷ vs) = v.asn ∷ v.ldp1 ∷ v.ldp2 ∷ lc_words vs

pub lc_match_iff : (v w : Lcomm) → (lc_match (v.asn) (v.ldp1) (v.ldp2) w ≡ true) ↔ (v ≡ w)
unfolding lc_match
lc_match_iff v w = ground arith

abbrev pub lc_eq : Equality Lcomm
lc_eq = record { same = λ v w. lc_match (v.asn) (v.ldp1) (v.ldp2) w; same_iff = lc_match_iff }

lc_contains-words :
    (vs : List Lcomm) (val : Lcomm) → lc_contains_loop (lc_words vs) val ≡ ok (mem lc_eq val vs)
unfolding lc_contains_loop lc_words
lc_contains-words [] val = refl
lc_contains-words (v ∷ vs) val = ground (arith, lc_contains-words vs val)

lc_words-append : (vs ws : List Lcomm) → lc_words (vs ++ ws) ≡ lc_words vs ++ lc_words ws
unfolding lc_words
lc_words-append [] ws = refl
lc_words-append (v ∷ vs) ws =
    ap (λ (r : List ℕ). v.asn ∷ v.ldp1 ∷ v.ldp2 ∷ r) (lc_words-append vs ws)

pub length-lc_words : (vs : List Lcomm) → length (lc_words vs) ≡ 3 * length vs
unfolding lc_words
length-lc_words [] = omega arith
length-lc_words (v ∷ vs) = omega (arith, length-lc_words vs)

lc_kept-words :
    (vs : List Lcomm) (val : Lcomm)
    → lc_kept (lc_words vs) val ≡ ok (lc_words (remove lc_eq vs val))
unfolding lc_kept lc_words
lc_kept-words [] val = refl
lc_kept-words (v ∷ vs) val = rw (lc_kept-words vs val) (ground arith)

lc_new-words :
    (vs ws : List Lcomm) → lc_new (lc_words vs) (lc_words ws) ≡ ok (lc_words (news lc_eq vs ws))
unfolding lc_new lc_words lc_set_contains
lc_new-words vs [] = refl
lc_new-words vs (w ∷ ws) = rw (lc_contains-words vs w, lc_new-words vs ws) (ground arith)

-- On the words of a list of large communities `lc_set_contains` says whether the value is in the
-- list, and `lc_set_add` returns the list with the value behind it, if it was not in it.
pub lc_set_add_lem :
    (vs : List Lcomm) (val : Lcomm)
    → (lc_set_contains (some (lc_words vs)) val ≡ ok (mem lc_eq val vs))
      × (lc_set_add (some (lc_words vs)) val ≡ ok (some (lc_words (add lc_eq vs val))))
unfolding lc_set_contains lc_set_add
lc_set_add_lem vs val = (
  lc_contains-words vs val,
  rw (lc_contains-words vs val) (ground (arith, lc_words-append vs (val ∷ []), added)),
)
  where
    added : lc_words (val ∷ []) ≡ lc_put val
    added = unfold lc_words lc_put in refl

-- On the words of a list without duplicates `lc_set_del` returns the words of the list without the
-- value.
pub lc_set_del_lem :
    (m : Alloc) (vs : List Lcomm) (val : Lcomm)
    → IsSetList lc_eq vs
    → lc_set_del m (some (lc_words vs)) val
      ≡ ok (some (lc_words (if mem lc_eq val vs then remove lc_eq vs val else vs)))
unfolding lc_set_del lc_set_contains
lc_set_del_lem m vs val s = elim (Bool-cases (mem lc_eq val vs)) [
  | inl y ↦
      rw (lc_contains-words vs val, y, lc_kept-words vs val)
        (rw
          (write_block_full (lc_words (remove lc_eq vs val)) (m.fresh (length (lc_words vs) - 3)) (
            omega (
              arith,
              length-lc_words vs,
              length-lc_words (remove lc_eq vs val),
              length-remove lc_eq val vs,
              count_of_IsSetList lc_eq val vs s y,
              m.length-fresh (length (lc_words vs) - 3),
            )))
          refl)
  | inr n ↦ rw (lc_contains-words vs val, n) refl
]

-- On the words of two lists of large communities `lc_set_union` returns the words of the first list
-- with the values behind it that only the second has, in their order.
pub lc_set_union_lem :
    (vs ws : List Lcomm)
    → lc_set_union (some (lc_words vs)) (some (lc_words ws))
      ≡ ok (some (lc_words (vs ++ news lc_eq vs ws)))
unfolding lc_set_union
lc_set_union_lem vs ws =
    rw (lc_new-words vs ws, lc_words-append vs (news lc_eq vs ws))
      (ap ok (joined (lc_words (news lc_eq vs ws))))
  where
    joined :
        (tmp : List ℕ)
        → (elim tmp as (λ r. Option (List ℕ)) [
          | [] ↦ some (lc_words vs)
          | x ∷ rest ↦ some (lc_words vs ++ x ∷ rest)
        ])
          ≡ some (lc_words vs ++ tmp)
    joined [] = ap some (sym (append-nil (lc_words vs)))
    joined (x ∷ rest) = refl
