-- ===== src/CommunitySet/Ec.antt =====
-- The operations on sets of 64-bit extended communities, each two words, the high one first:
-- `ec_set_contains`, `ec_set_add`, `ec_set_del` and `ec_set_union` of nest/a-set.c, and `ec_hi`,
-- `ec_lo` and `ec_get` of nest/attrs.h.
use active_bgp_measurement.Base.{
  ℕ, ◌+◌, ◌-◌, ◌*◌, ◌/◌, ◌%◌, ◌^◌, ◌<◌, ◌≡◌, ◌&&◌, ◌++◌, not, refl, ap, sym,
}
use active_bgp_measurement.Base.{
  List, [], ◌∷◌, length, Bool, true, false, arith, if◌then◌else◌, ◌==◌, All,
}
use active_bgp_measurement.Base.{
  Option, none, some, Res, ok, fault, ◌>>=◌, Bool-cases, inl, inr, append-nil,
}
use active_bgp_measurement.CommunitySet.Words.{Alloc, write_block, words_of, write_block_full}
use active_bgp_measurement.CommunitySet.Int.{int_eq}
use active_bgp_measurement.CommunitySet.Spec.{
  mem, add, remove, news, IsSetList, length-remove, count_of_IsSetList,
}

pub ec_hi : ℕ → ℕ
ec_hi ec = ec / 2 ^ 32 % 2 ^ 32

pub ec_lo : ℕ → ℕ
ec_lo ec = ec % 2 ^ 32

-- `((u64) hi << 32) | lo`, where `lo` has 32 bits.
pub ec_get : ℕ → ℕ → ℕ
ec_get hi lo = hi * 2 ^ 32 + lo

-- A list that ends inside a value is read out of bounds behind a matching first word.
pub ec_contains_loop : ℕ → ℕ → List ℕ → Res Bool
ec_contains_loop eh el [] = ok false
ec_contains_loop eh el (a ∷ []) = if a == eh then fault else ok false
ec_contains_loop eh el (a ∷ b ∷ l) =
    let rest = ec_contains_loop eh el l in if a == eh && b == el then ok true else rest

pub ec_set_contains : Option (List ℕ) → ℕ → Res Bool
ec_set_contains none val = ok false
ec_set_contains (some l) val = ec_contains_loop (ec_hi val) (ec_lo val) l

pub ec_set_add : Option (List ℕ) → ℕ → Res (Option (List ℕ))
ec_set_add list val = do
  found ← ec_set_contains list val
  ok (if found then list else some (words_of list ++ ec_hi val ∷ ec_lo val ∷ []))

pub ec_kept : ℕ → ℕ → List ℕ → Res (List ℕ)
ec_kept eh el [] = ok []
ec_kept eh el (a ∷ []) = fault
ec_kept eh el (a ∷ b ∷ l) =
    ec_kept eh el l >>= λ k. ok (if not (a == eh && b == el) then a ∷ b ∷ k else k)

-- The new block has room for one value less.
pub ec_set_del : Alloc → Option (List ℕ) → ℕ → Res (Option (List ℕ))
ec_set_del m list val = do
  found ← ec_set_contains list val
  let copied = do
    k ← ec_kept (ec_hi val) (ec_lo val) (words_of list)
    l ← write_block k (m.fresh (length (words_of list) - 2))
    ok (some l)
  if not found then ok list else copied

pub ec_new : List ℕ → List ℕ → Res (List ℕ)
ec_new l1 [] = ok []
ec_new l1 (a ∷ []) = fault
ec_new l1 (a ∷ b ∷ l) = do
  found ← ec_set_contains (some l1) (ec_get a b)
  k ← ec_new l1 l
  ok (if not found then a ∷ b ∷ k else k)

pub ec_set_union : Option (List ℕ) → Option (List ℕ) → Res (Option (List ℕ))
ec_set_union none l2 = ok l2
ec_set_union (some l1) none = ok (some l1)
ec_set_union (some l1) (some l2) = do
  tmp ← ec_new l1 l2
  ok (elim tmp [ [] ↦ some l1 | x ∷ rest ↦ some (l1 ++ x ∷ rest) ])

-- The words of a list of values.
unfoldable pub ec_words : List ℕ → List ℕ
ec_words [] = []
ec_words (v ∷ vs) = ec_hi v ∷ ec_lo v ∷ ec_words vs

abbrev pub IsEc : ℕ → Type 0
IsEc v = v < 2 ^ 64

ec_halves : (v w : ℕ) → IsEc v → IsEc w → (ec_hi v == ec_hi w && ec_lo v == ec_lo w) ≡ (v == w)
unfolding ec_hi ec_lo
ec_halves v w h k = ground arith

pub ec_get-halves : (v : ℕ) → IsEc v → ec_get (ec_hi v) (ec_lo v) ≡ v
unfolding ec_get ec_hi ec_lo
ec_get-halves v h = omega arith

ec_contains-words :
    (vs : List ℕ) (val : ℕ)
    → All IsEc vs
    → IsEc val
    → ec_contains_loop (ec_hi val) (ec_lo val) (ec_words vs) ≡ ok (mem int_eq val vs)
unfolding ec_contains_loop ec_words
ec_contains-words [] val h k = refl
ec_contains-words (v ∷ vs) val h k =
    rw (ec_halves v val h.0 k) (ground (arith, ec_contains-words vs val h.1 k))

ec_words-append : (vs ws : List ℕ) → ec_words (vs ++ ws) ≡ ec_words vs ++ ec_words ws
unfolding ec_words
ec_words-append [] ws = refl
ec_words-append (v ∷ vs) ws = ap (λ (r : List ℕ). ec_hi v ∷ ec_lo v ∷ r) (ec_words-append vs ws)

pub length-ec_words : (vs : List ℕ) → length (ec_words vs) ≡ 2 * length vs
unfolding ec_words
length-ec_words [] = omega arith
length-ec_words (v ∷ vs) = omega (arith, length-ec_words vs)

ec_kept-words :
    (vs : List ℕ) (val : ℕ)
    → All IsEc vs
    → IsEc val
    → ec_kept (ec_hi val) (ec_lo val) (ec_words vs) ≡ ok (ec_words (remove int_eq vs val))
unfolding ec_kept ec_words
ec_kept-words [] val h k = refl
ec_kept-words (v ∷ vs) val h k =
    rw (ec_halves v val h.0 k, ec_kept-words vs val h.1 k) (ground arith)

ec_new-words :
    (vs ws : List ℕ)
    → All IsEc vs
    → All IsEc ws
    → ec_new (ec_words vs) (ec_words ws) ≡ ok (ec_words (news int_eq vs ws))
unfolding ec_new ec_words ec_set_contains
ec_new-words vs [] h k = refl
ec_new-words vs (w ∷ ws) h k =
    rw (ec_get-halves w k.0, ec_contains-words vs w h k.0, ec_new-words vs ws h k.1) (ground arith)

-- On the words of a list of values `ec_set_contains` says whether the value is in the list, and
-- `ec_set_add` returns the list with the value behind it, if it was not in it.
pub ec_set_add_lem :
    (vs : List ℕ) (val : ℕ)
    → All IsEc vs
    → IsEc val
    → (ec_set_contains (some (ec_words vs)) val ≡ ok (mem int_eq val vs))
      × (ec_set_add (some (ec_words vs)) val ≡ ok (some (ec_words (add int_eq vs val))))
unfolding ec_set_contains ec_set_add
ec_set_add_lem vs val h k = (
  ec_contains-words vs val h k,
  rw (ec_contains-words vs val h k) (ground (arith, ec_words-append vs (val ∷ []), added)),
)
  where
    added : ec_words (val ∷ []) ≡ ec_hi val ∷ ec_lo val ∷ []
    added = unfold ec_words in refl

-- On the words of a list without duplicates `ec_set_del` returns the words of the list without the
-- value.
pub ec_set_del_lem :
    (m : Alloc) (vs : List ℕ) (val : ℕ)
    → All IsEc vs
    → IsEc val
    → IsSetList int_eq vs
    → ec_set_del m (some (ec_words vs)) val
      ≡ ok (some (ec_words (if mem int_eq val vs then remove int_eq vs val else vs)))
unfolding ec_set_del ec_set_contains
ec_set_del_lem m vs val h k s = elim (Bool-cases (mem int_eq val vs)) [
  | inl y ↦
      rw (ec_contains-words vs val h k, y, ec_kept-words vs val h k)
        (rw
          (write_block_full (ec_words (remove int_eq vs val)) (m.fresh (length (ec_words vs) - 2)) (
            omega (
              arith,
              length-ec_words vs,
              length-ec_words (remove int_eq vs val),
              length-remove int_eq val vs,
              count_of_IsSetList int_eq val vs s y,
              m.length-fresh (length (ec_words vs) - 2),
            )))
          refl)
  | inr n ↦ rw (ec_contains-words vs val h k, n) refl
]

-- On the words of two lists of values `ec_set_union` returns the words of the first list with the
-- values behind it that only the second has, in their order.
pub ec_set_union_lem :
    (vs ws : List ℕ)
    → All IsEc vs
    → All IsEc ws
    → ec_set_union (some (ec_words vs)) (some (ec_words ws))
      ≡ ok (some (ec_words (vs ++ news int_eq vs ws)))
unfolding ec_set_union
ec_set_union_lem vs ws h k =
    rw (ec_new-words vs ws h k, ec_words-append vs (news int_eq vs ws))
      (ap ok (joined (ec_words (news int_eq vs ws))))
  where
    joined :
        (tmp : List ℕ)
        → (elim tmp as (λ r. Option (List ℕ)) [
          | [] ↦ some (ec_words vs)
          | x ∷ rest ↦ some (ec_words vs ++ x ∷ rest)
        ])
          ≡ some (ec_words vs ++ tmp)
    joined [] = ap some (sym (append-nil (ec_words vs)))
    joined (x ∷ rest) = refl
