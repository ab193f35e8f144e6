-- ===== src/AsPath/Match/Correct.antt =====
-- `as_path_match` on the buffer of a list of segments.
use active_bgp_measurement.Base.{ℕ, suc, ◌≤◌, ◌<◌, ◌≡◌, refl, ap, sym, ◌∙◌}
use active_bgp_measurement.Base.{List, [], ◌∷◌, length, Bool, false, arith}
use active_bgp_measurement.Base.{Res, ok, fault, All}
use active_bgp_measurement.AsPath.Match.{
  PmVal, is_set, MaskItem, pm_asn, pm_question, pm_asterisk, pm_asn_expr, pm_asn_range, item_test,
  pm_match, as_path_match,
}
use active_bgp_measurement.AsPath.Match.Parse.{
  Hop, is_any, path_hops, hop_between, hop_test, path_vals, parse_path-encode, SameHops,
  SameHops-path,
}
use active_bgp_measurement.AsPath.Match.Language.{accepts, after_step, any_suffix, skip_any}
use active_bgp_measurement.AsPath.Match.Mask.{Agrees, ItemAgrees, match_first}
use active_bgp_measurement.AsPath.Wire.{Unaligned, Segment, IsPath, IsKnownPath, encode}

-- The parser of filters replaces every PM_ASN_EXPR by a PM_ASN before the mask is used.
abbrev pub IsEvaluated : MaskItem → Type 0
IsEvaluated pm_asn_expr = ⊥
IsEvaluated item = Unit {0}

abbrev answer : Res Bool → Bool
answer (ok b) = b
answer _ = false

-- The answer of an item on a position, where it gives one.
abbrev val_test : Unaligned → MaskItem → PmVal → Bool
val_test u item v = answer (item_test u item v)

module _ (u : Unaligned) where
  -- Two acceptance predicates that agree on positions and the hops that they stand for.
  abbrev SameAccepts : (List PmVal → Bool) → (List Hop → Bool) → Type 0
  SameAccepts acc acc' = (vs : List PmVal) (hs : List Hop) → SameHops u vs hs → acc vs ≡ acc' hs

  skip_any-same :
      (acc : List PmVal → Bool) (acc' : List Hop → Bool)
      → SameAccepts acc acc'
      → (vs : List PmVal) (hs : List Hop) → SameHops u vs hs
      → skip_any is_set acc vs ≡ skip_any is_any acc' hs
  skip_any-same acc acc' same [] [] k = same [] [] tt
  skip_any-same acc acc' same [] (h ∷ hs) k = absurd k
  skip_any-same acc acc' same (v ∷ vs) [] k = absurd k
  skip_any-same acc acc' same (v ∷ vs) (h ∷ hs) k =
      rw (same (v ∷ vs) (h ∷ hs) k, k.0, skip_any-same acc acc' same vs hs k.2) refl

  any_suffix-same :
      (acc : List PmVal → Bool) (acc' : List Hop → Bool)
      → SameAccepts acc acc'
      → SameAccepts (any_suffix is_set acc) (any_suffix is_any acc')
  any_suffix-same acc acc' same [] [] k = same [] [] tt
  any_suffix-same acc acc' same [] (h ∷ hs) k = absurd k
  any_suffix-same acc acc' same (v ∷ vs) [] k = absurd k
  any_suffix-same acc acc' same (v ∷ vs) (h ∷ hs) k =
      rw (same (v ∷ vs) (h ∷ hs) k, any_suffix-same acc acc' same vs hs k.2) refl

  -- An item that takes a hop answers on the position as on the hop.
  abbrev SameTest : MaskItem → Type 0
  SameTest item =
      (v : PmVal) (h : Hop)
      → ((lo hi : ℕ) → pm_match u lo hi v ≡ ok (hop_between lo hi h))
      → item_test u item v ≡ ok (hop_test item h)

  after_step-same :
      (item : MaskItem) (acc : List PmVal → Bool) (acc' : List Hop → Bool)
      → SameTest item
      → SameAccepts acc acc'
      → SameAccepts
          (after_step is_set (val_test u item) acc)
          (after_step is_any (hop_test item) acc')
  after_step-same item acc acc' st same [] [] k = refl
  after_step-same item acc acc' st same [] (h ∷ hs) k = absurd k
  after_step-same item acc acc' st same (v ∷ vs) [] k = absurd k
  after_step-same item acc acc' st same (v ∷ vs) (h ∷ hs) k =
      let tested : val_test u item v ≡ hop_test item h = ap answer (st v h k.1) in
      ground (arith, tested, skip_any-same acc acc' same vs hs k.2, k.0, same (v ∷ vs) (h ∷ hs) k)

  Agrees-of_same :
      (item : MaskItem) (vs : List PmVal) (hs : List Hop)
      → SameTest item
      → SameHops u vs hs
      → Agrees u vs (val_test u) item
  Agrees-of_same item [] hs st k = tt
  Agrees-of_same item (v ∷ vs) [] st k = absurd k
  Agrees-of_same item (v ∷ vs) (h ∷ hs) st k =
      (st v h k.1 ∙ ap ok (sym (ap answer (st v h k.1))), Agrees-of_same item vs hs st k.2)

  item_same :
      (item : MaskItem) (vs : List PmVal) (hs : List Hop)
      → IsEvaluated item
      → SameHops u vs hs
      → ItemAgrees u vs (val_test u) item
  unfolding item_test
  item_same pm_asterisk vs hs e k = tt
  item_same pm_asn_expr vs hs e k = e
  item_same (pm_asn v) vs hs e k = Agrees-of_same (pm_asn v) vs hs (λ w h p. p v v) k
  item_same (pm_asn_range lo hi) vs hs e k =
      Agrees-of_same (pm_asn_range lo hi) vs hs (λ w h p. p lo hi) k
  item_same pm_question vs hs e k = Agrees-of_same pm_question vs hs (λ w h p. refl) k

  accepts-same :
      (mask : List MaskItem)
      → All IsEvaluated mask
      → SameAccepts (accepts is_set (val_test u) mask) (accepts is_any hop_test mask)
  unfolding accepts item_test
  accepts-same [] e [] [] k = refl
  accepts-same [] e [] (h ∷ hs) k = absurd k
  accepts-same [] e (v ∷ vs) [] k = absurd k
  accepts-same [] e (v ∷ vs) (h ∷ hs) k = refl
  accepts-same (pm_asterisk ∷ mask) e vs hs k =
      any_suffix-same (accepts is_set (val_test u) mask) (accepts is_any hop_test mask)
        (accepts-same mask e.1) vs hs k
  accepts-same (pm_asn_expr ∷ mask) e vs hs k = absurd e.0
  accepts-same (pm_asn v ∷ mask) e vs hs k =
      after_step-same (pm_asn v) (accepts is_set (val_test u) mask) (accepts is_any hop_test mask)
        (λ w h p. p v v) (accepts-same mask e.1) vs hs k
  accepts-same (pm_asn_range lo hi ∷ mask) e vs hs k =
      after_step-same (pm_asn_range lo hi) (accepts is_set (val_test u) mask)
        (accepts is_any hop_test mask) (λ w h p. p lo hi) (accepts-same mask e.1) vs hs k
  accepts-same (pm_question ∷ mask) e vs hs k =
      after_step-same pm_question (accepts is_set (val_test u) mask) (accepts is_any hop_test mask)
        (λ w h p. refl) (accepts-same mask e.1) vs hs k

  length-same : (vs : List PmVal) (hs : List Hop) → SameHops u vs hs → length vs ≡ length hs
  length-same [] [] k = refl
  length-same [] (h ∷ hs) k = absurd k
  length-same (v ∷ vs) [] k = absurd k
  length-same (v ∷ vs) (h ∷ hs) k = ap suc (length-same vs hs k.2)

  items_same :
      (mask : List MaskItem) (vs : List PmVal) (hs : List Hop)
      → All IsEvaluated mask
      → SameHops u vs hs
      → All (ItemAgrees u vs (val_test u)) mask
  items_same [] vs hs e k = tt
  items_same (item ∷ mask) vs hs e k = (item_same item vs hs e.0 k, items_same mask vs hs e.1 k)

  -- On the buffer of a path of known segments with at most 2048 hops `as_path_match` returns for every
  -- evaluated mask, and the answer is whether the mask accepts the hops: an item takes a hop that it
  -- matches, behind which any number of sets may be passed over, and stays at it if it is a set; an
  -- asterisk takes any number of hops.
  pub as_path_match-encode :
      (segs : List Segment) (mask : List MaskItem)
      → IsPath segs
      → IsKnownPath segs
      → length (path_hops segs) ≤ 2048
      → All IsEvaluated mask
      → as_path_match u (encode u segs) mask ≡ ok (accepts is_any hop_test mask (path_hops segs))
  unfolding as_path_match
  as_path_match-encode segs mask h k n e =
      let vals = path_vals u segs in
      let same = SameHops-path u segs h in
      rw (parse_path-encode u segs h k) (
        rw (match_first u vals (val_test u) mask (items_same mask vals (path_hops segs) e same)) (
          ground (
            arith,
            length-same vals (path_hops segs) same,
            accepts-same mask e vals (path_hops segs) same,
          )))

  -- On a path of known segments with more than 2048 hops `as_path_match` writes behind its array of
  -- positions, whatever the mask.
  pub as_path_match_overflow :
      (segs : List Segment) (mask : List MaskItem)
      → IsPath segs
      → IsKnownPath segs
      → 2048 < length (path_hops segs)
      → as_path_match u (encode u segs) mask ≡ fault
  unfolding as_path_match
  as_path_match_overflow segs mask h k n =
      let vals = path_vals u segs in
      rw (parse_path-encode u segs h k)
        (ground (arith, length-same vals (path_hops segs) (SameHops-path u segs h)))
