-- ===== src/CommunitySet/Tests.antt =====
-- Runs of nest/a-set.c on concrete sets; fresh blocks hold 99.
use active_bgp_measurement.Base.{ℕ, zero, suc, ◌+◌, ◌≡◌, List, [], ◌∷◌, length, arith, refl, ap}
use active_bgp_measurement.Base.{not, ◌&&◌, ◌||◌, ◌==◌, some, ok, ◌>>=◌}
use active_bgp_measurement.CommunitySet.Words.{Alloc, words_of}
use active_bgp_measurement.CommunitySet.Spec.{count, IsSetList}
use active_bgp_measurement.CommunitySet.Int.{
  int_eq, contains_words, int_set_contains, int_set_del, int_set_union,
}
use active_bgp_measurement.CommunitySet.Int.{
  int_set_union_lem, int_set_del_lem, int_set_contains-int_set_del,
}
use active_bgp_measurement.CommunitySet.Lc.{Lcomm}

filled : ℕ → List ℕ
filled zero = []
filled (suc n) = 99 ∷ filled n

length-filled : (n : ℕ) → length (filled n) ≡ n
unfolding filled
length-filled zero = refl
length-filled (suc n) = ap suc (length-filled n)

abbrev alloc : Alloc
alloc = record { fresh = filled; length-fresh = length-filled }

-- 65000:100 and 65000:200
abbrev communities : List ℕ
communities = 4259840100 ∷ 4259840200 ∷ []

communities-IsSetList : IsSetList int_eq communities
communities-IsSetList = ground arith

int_set_union_lem_example :
    (int_set_contains (int_set_union (some communities) (some (7 ∷ []))) 4259840200 ≡ (
      int_set_contains (some communities) 4259840200
      || int_set_contains (some (7 ∷ [])) 4259840200))
    × IsSetList int_eq (words_of (int_set_union (some communities) (some (7 ∷ []))))
int_set_union_lem_example =
    int_set_union_lem (some communities) (some (7 ∷ [])) 4259840200 communities-IsSetList (refl, tt)

abbrev twice : List ℕ
twice = 5 ∷ 5 ∷ 6 ∷ []

-- A value that stands twice leaves a stale word behind.
int_set_del_lem_example :
    (int_set_del alloc (some twice) 5 ≡ ok (some (6 ∷ 99 ∷ []))) × (1 + 1 ≡ count int_eq 5 twice)
unfolding filled
int_set_del_lem_example =
    int_set_del_lem alloc twice 5 (unfold int_set_contains contains_words in refl)

int_set_contains-int_set_del_example :
    (int_set_del alloc (some communities) 4259840100 >>= λ l. ok (int_set_contains l 4259840200))
    ≡ ok (not (4259840100 == 4259840200) && int_set_contains (some communities) 4259840200)
int_set_contains-int_set_del_example =
    int_set_contains-int_set_del alloc (some communities) 4259840100 4259840200
      communities-IsSetList

abbrev extended : List ℕ
extended = 844424930131968 ∷ 844424930131969 ∷ []

abbrev large : ℕ → ℕ → ℕ → Lcomm
large a b c = record { asn = a; ldp1 = b; ldp2 = c }

abbrev large_communities : List Lcomm
large_communities = large 65000 1 2 ∷ large 65000 1 3 ∷ []
