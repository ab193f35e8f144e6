-- ===== src/AsPath/Tests.antt =====
-- Runs of nest/a-path.c on concrete paths: the numbers in network byte order.
use active_bgp_measurement.Base.{ℕ, ◌≡◌, List, [], ◌∷◌, length, arith, refl}
use active_bgp_measurement.Base.{true, false, none, some, ok, fault, ◌>>=◌, inr}
use active_bgp_measurement.AsPath.Wire.{
  Segment, IsPath, IsKnownPath, encode, as_path_set, as_path_sequence,
}
use active_bgp_measurement.Base.{zero, suc, ltb, leb}
use active_bgp_measurement.AsPath.Length.{
  as_path_getlen, as_path_getlen_int, getlen_loop, path_length,
}
use active_bgp_measurement.AsPath.Prepend.{as_path_prepend, as_path_getlen-prepend}
use active_bgp_measurement.AsPath.Contains.{as_path_contains, occurrences, as_path_contains-encode}
use active_bgp_measurement.AsPath.Ends.{as_path_get_last, origin}
use active_bgp_measurement.AsPath.Ends.Last.{as_path_get_last-encode}
use active_bgp_measurement.AsPath.Convert.{
  as_path_convert_to_old, as_path_convert_to_new, encode_old, shorten_path, has_large, front,
}
use active_bgp_measurement.AsPath.Convert.ToOld.{as_path_convert_to_old-encode}
use active_bgp_measurement.AsPath.Convert.ToNew.{
  as_path_convert_to_new-encode_old, as_path_convert_roundtrip,
}
use active_bgp_measurement.Base.{◌&&◌}
use active_bgp_measurement.Base.Int.{uint_cmp}
use active_bgp_measurement.FilterTree.{scalar, Comparisons, FTree, leaf, node}
use active_bgp_measurement.AsPath.Filter.{
  as_path_filter, as_path_match_set, matches, agrees, filter_path,
}
use active_bgp_measurement.AsPath.Filter.Correct.{
  as_path_filter-encode, as_path_contains-as_path_filter,
}
use active_bgp_measurement.AsPath.Filter.MatchSet.{any_asn, as_path_match_set-encode}
use active_bgp_measurement.AsPath.Match.{MaskItem, pm_asn, pm_asterisk, pm_asn_range, as_path_match}
use active_bgp_measurement.AsPath.Match.Parse.{is_any, path_hops, hop_test}
use active_bgp_measurement.AsPath.Match.Language.{accepts}
use active_bgp_measurement.AsPath.Match.Correct.{as_path_match-encode, as_path_match_overflow}
use active_bgp_measurement.AsPath.NetworkOrder.{network_order}

-- 70000 65002 65003 {65004 65005} 65006
abbrev path : List Segment
path =
    record { kind = as_path_sequence; asns = 70000 ∷ 65002 ∷ 65003 ∷ [] }
    ∷ record { kind = as_path_set; asns = 65004 ∷ 65005 ∷ [] }
    ∷ record { kind = as_path_sequence; asns = 65006 ∷ [] }
    ∷ []

path-IsPath : IsPath path
path-IsPath = ground arith

path-IsKnownPath : IsKnownPath path
path-IsKnownPath = ground arith

-- `length` copies of a sequence of one number.
repeated : ℕ → List Segment
repeated zero = []
repeated (suc n) = record { kind = as_path_sequence; asns = 7 ∷ [] } ∷ repeated n

repeated-IsPath : (n : ℕ) → IsPath (repeated n)
unfolding repeated
repeated-IsPath zero = tt
repeated-IsPath (suc n) = (ground arith, repeated-IsPath n)

repeated-IsKnownPath : (n : ℕ) → IsKnownPath (repeated n)
unfolding repeated
repeated-IsKnownPath zero = tt
repeated-IsKnownPath (suc n) = (inr refl, repeated-IsKnownPath n)

length-repeated : (n : ℕ) → length (path_hops (repeated n)) ≡ n
unfolding repeated path_hops
length-repeated zero = refl
length-repeated (suc n) = ground (arith, length-repeated n)

abbrev mask : List MaskItem
mask = pm_asn 70000 ∷ pm_asterisk ∷ pm_asn_range 65000 65010 ∷ []

as_path_match-encode_example :
    as_path_match network_order (encode network_order path) mask
    ≡ ok (accepts is_any hop_test mask (path_hops path))
as_path_match-encode_example =
    as_path_match-encode network_order path mask path-IsPath path-IsKnownPath
      (unfold path_hops in omega arith) (ground arith)

accepted : accepts is_any hop_test mask (path_hops path) ≡ true
unfolding accepts path_hops
accepted = refl

as_path_match_overflow_example :
    as_path_match network_order (encode network_order (repeated 2049)) mask ≡ fault
as_path_match_overflow_example =
    as_path_match_overflow network_order (repeated 2049) mask (repeated-IsPath 2049)
      (repeated-IsKnownPath 2049) (omega (arith, length-repeated 2049))

-- A truncated sequence is not noticed.
truncated : as_path_getlen (2 ∷ 9 ∷ 1 ∷ []) ≡ ok 9
unfolding as_path_getlen as_path_getlen_int getlen_loop
truncated = refl

as_path_getlen-prepend_example :
    (as_path_prepend network_order (encode network_order path) 64999 >>= as_path_getlen) ≡ ok 6
unfolding path_length
as_path_getlen-prepend_example = as_path_getlen-prepend network_order path 64999 path-IsKnownPath

as_path_contains-encode_example :
    as_path_contains network_order (encode network_order path) 65004 1 ≡ ok true
unfolding occurrences
as_path_contains-encode_example = as_path_contains-encode network_order 65004 1 path path-IsPath

as_path_get_last-encode_example :
    as_path_get_last network_order (encode network_order path) ≡ ok (some 65006)
unfolding origin
as_path_get_last-encode_example =
    as_path_get_last-encode network_order path path-IsPath path-IsKnownPath

as_path_convert_to_old-encode_example :
    as_path_convert_to_old network_order (encode network_order path)
    ≡ ok (encode_old network_order (shorten_path path), true)
unfolding has_large
as_path_convert_to_old-encode_example = as_path_convert_to_old-encode network_order path path-IsPath

-- The path with numbers of two bytes.
abbrev old_path : List Segment
old_path =
    record { kind = as_path_sequence; asns = 65001 ∷ 65002 ∷ [] }
    ∷ record { kind = as_path_set; asns = 65004 ∷ 65005 ∷ [] }
    ∷ []

as_path_convert_to_new-encode_old_example :
    as_path_convert_to_new network_order (encode_old network_order old_path) 1
    ≡ ok (encode network_order (front 1 old_path))
as_path_convert_to_new-encode_old_example =
    as_path_convert_to_new-encode_old network_order old_path 1 (ground arith)

as_path_convert_roundtrip_example :
    (as_path_convert_to_old network_order (encode network_order old_path) >>= λ r.
    as_path_convert_to_new network_order r.0 3)
    ≡ ok (encode network_order old_path)
as_path_convert_roundtrip_example =
    as_path_convert_roundtrip network_order old_path 3 (ground arith) (ground arith)
      (unfold path_length in omega arith)

abbrev comparisons : Comparisons
comparisons = record {
  ipa_compare = λ a b. uint_cmp a b;
  ipa_to_u32 = λ a. a;
  strcmp = λ s t. uint_cmp (length s) (length t);
}

-- The set `[ 65002 .. 65004 ]`.
abbrev set_of : FTree ℕ
set_of = node record { from = scalar 0x10 65002; to = scalar 0x10 65004; content = 0 } leaf leaf

as_path_filter-encode_example :
    as_path_filter network_order comparisons (some (encode network_order path)) (some set_of) 0 true
    ≡ ok (
        some (
          encode network_order
            (filter_path (λ v. agrees (matches comparisons (some set_of) 0 v) true) path)))
as_path_filter-encode_example =
    as_path_filter-encode network_order comparisons path (some set_of) 0 true path-IsPath

as_path_contains-as_path_filter_example :
    (as_path_filter {D = ℕ} network_order comparisons
        (some (encode network_order path))
        none
        65002
        false
      >>= elim [ none ↦ ok false | some p ↦ as_path_contains network_order p 65002 1 ])
    ≡ ok (
        agrees (matches {D = ℕ} comparisons none 65002 65002) false
        && (ltb 0 1 && leb 1 (occurrences 65002 path)))
as_path_contains-as_path_filter_example =
    as_path_contains-as_path_filter network_order comparisons {D = ℕ} path none 65002 65002 1 false
      path-IsPath

as_path_match_set-encode_example :
    as_path_match_set network_order comparisons (encode network_order path) set_of
    ≡ ok (any_asn (λ v. matches comparisons (some set_of) 0 v) path)
as_path_match_set-encode_example =
    as_path_match_set-encode network_order comparisons path set_of path-IsPath

-- A set at the front is not passed over, a set behind a matched position is.
front_set :
    (accepts is_any hop_test (pm_asn 65001 ∷ []) (
        path_hops (
          record { kind = as_path_set; asns = 65004 ∷ [] }
          ∷ record { kind = as_path_sequence; asns = 65001 ∷ [] }
          ∷ []))
      ≡ false)
    × (accepts is_any hop_test (pm_asn 65001 ∷ []) (
          path_hops (
            record { kind = as_path_sequence; asns = 65001 ∷ [] }
            ∷ record { kind = as_path_set; asns = 65004 ∷ [] }
            ∷ []))
        ≡ true)
unfolding accepts path_hops
front_set = (refl, refl)
