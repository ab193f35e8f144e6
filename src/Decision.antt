-- ===== src/Decision.antt =====
-- The BGP decision process: `bgp_get_neighbor`, `rte_resolvable`, `bgp_rte_better` and
-- `bgp_rte_mergable` of proto/bgp/attrs.c.
pub mod Order
pub mod Merge
pub mod Prepending
mod Tests
use active_bgp_measurement.Base.{ℕ, ◌<◌, ◌≡◌, ◌||◌, ◌&&◌, not, List, length, Bool, true, false}
use active_bgp_measurement.Base.{Option, none, some, Res, ok, ◌>>=◌, ltb, ◌==◌, if◌then◌else◌}
use active_bgp_measurement.AsPath.Wire.{Unaligned}
use active_bgp_measurement.AsPath.Length.{as_path_getlen}
use active_bgp_measurement.AsPath.Ends.{as_path_get_first}

-- `struct bgp_config` and `struct bgp_proto`, as far as the decision reads them. `is_internal` is 0
-- or 1.
pub record BgpProto : Type 0 where
  pub is_internal : ℕ
  pub remote_as : ℕ
  pub remote_id : ℕ
  pub remote_ip : ℕ
  pub compare_path_lengths : Bool
  pub med_metric : Bool
  pub igp_metric : Bool
  pub prefer_older : Bool
  pub default_local_pref : ℕ
  pub default_med : ℕ

-- A route of BGP. The attributes are as `ea_find` finds them, `none` for a missing one; the AS path
-- is its buffer and the cluster list its words.
pub record BgpRte : Type 0 where
  pub proto : BgpProto
  pub suppressed : ℕ
  pub dest : ℕ
  pub igp_cost : ℕ
  pub local_pref : Option ℕ
  pub as_path : Option (List ℕ)
  pub origin : Option ℕ
  pub multi_exit_disc : Option ℕ
  pub originator_id : Option ℕ
  pub cluster_list : Option (List ℕ)

-- RTD_ROUTER, RTD_DEVICE and RTD_MULTIPATH.
unfoldable pub rte_resolvable : BgpRte → ℕ
rte_resolvable rt = if rt.dest == 0 || rt.dest == 1 || rt.dest == 5 then 1 else 0

unfoldable pub bgp_get_neighbor : Unaligned → BgpRte → Res ℕ
bgp_get_neighbor u r = elim r.as_path [
  | none ↦ ok r.proto.remote_as
  | some path ↦ as_path_get_first u path >>= elim [ none ↦ ok r.proto.remote_as | some v ↦ ok v ]
]

-- `x ? x->u.data : d`
abbrev pub data_or : ℕ → Option ℕ → ℕ
data_or d none = d
data_or d (some v) = v

abbrev pub path_maxlen : ℕ
path_maxlen = 10000

abbrev pub origin_incomplete : ℕ
origin_incomplete = 2

abbrev pub path_len : BgpRte → Res ℕ
path_len r = elim r.as_path [ none ↦ ok path_maxlen | some path ↦ as_path_getlen path ]

abbrev pub list_size : Option (List ℕ) → ℕ
list_size none = 0
list_size (some words) = length words

-- `if (n < o) return 1; if (n > o) return 0;` in front of `rest`.
abbrev pub smaller : ℕ → ℕ → Res Bool → Res Bool
smaller n o rest = if ltb n o then ok true else (if ltb o n then ok false else rest)

abbrev pub pref_of : BgpRte → ℕ
pref_of r = data_or r.proto.default_local_pref r.local_pref

abbrev pub origin_of : BgpRte → ℕ
origin_of r = data_or origin_incomplete r.origin

abbrev pub med_of : BgpRte → ℕ
med_of r = data_or r.proto.default_med r.multi_exit_disc

abbrev pub cost_of : BgpRte → ℕ
cost_of r = if r.proto.igp_metric then r.igp_cost else 0

abbrev pub id_of : BgpRte → ℕ
id_of r = data_or r.proto.remote_id r.originator_id

module _ (u : Unaligned) where
  unfoldable pub same_neighbor : BgpRte → BgpRte → Res Bool
  same_neighbor new old = do n ← bgp_get_neighbor u new; o ← bgp_get_neighbor u old; ok (n == o)

  -- The condition of the MED comparison; `||` does not look at the neighbours behind a set flag.
  unfoldable pub compare_med : BgpRte → BgpRte → Res Bool
  compare_med new old =
      let same = same_neighbor new old in
      if new.proto.med_metric || old.proto.med_metric then ok true else same

-- The answers of `ipa_compare(a, b) < 0` come as a parameter.
module _ (u : Unaligned) (ip_less : ℕ → ℕ → Bool) where
  -- From the router identifiers on.
  unfoldable pub tie_break : BgpRte → BgpRte → Res Bool
  tie_break new old =
      let n = id_of new in
      let o = id_of old in
      if (new.proto.prefer_older || old.proto.prefer_older)
        && new.proto.is_internal == 0
        && not (n == o)
      then ok false
      else smaller n o (
          smaller (list_size new.cluster_list) (list_size old.cluster_list)
            (ok (ip_less new.proto.remote_ip old.proto.remote_ip)))

  -- From the test for external peers on.
  unfoldable pub after_med : BgpRte → BgpRte → Res Bool
  after_med new old =
      smaller new.proto.is_internal old.proto.is_internal
        (smaller (cost_of new) (cost_of old) (tie_break new old))

  unfoldable pub after_origin : BgpRte → BgpRte → Res Bool
  after_origin new old = do
    compared ← compare_med u new old
    (if compared then smaller (med_of new) (med_of old) (after_med new old) else after_med new old)

  -- From the origins on.
  unfoldable pub after_length : BgpRte → BgpRte → Res Bool
  after_length new old = smaller (origin_of new) (origin_of old) (after_origin new old)

  unfoldable pub by_length : BgpRte → BgpRte → Res Bool
  by_length new old = do n ← path_len new; o ← path_len old; smaller n o (after_length new old)

  -- From the AS path lengths on.
  unfoldable pub after_pref : BgpRte → BgpRte → Res Bool
  after_pref new old =
      if new.proto.compare_path_lengths || old.proto.compare_path_lengths
      then by_length new old
      else after_length new old

  unfoldable pub bgp_rte_better : BgpRte → BgpRte → Res Bool
  bgp_rte_better new old = smaller new.suppressed old.suppressed (
      smaller (rte_resolvable old) (rte_resolvable new)
        (smaller (pref_of old) (pref_of new) (after_pref new old)))

module _ (u : Unaligned) where
  -- From the test for external peers on.
  unfoldable pub same_cost : BgpRte → BgpRte → Bool
  same_cost pri sec =
      pri.proto.is_internal == sec.proto.is_internal && (cost_of pri) == (cost_of sec)

  unfoldable pub same_med : BgpRte → BgpRte → Res Bool
  same_med pri sec = do
    compared ← compare_med u pri sec
    (if compared && not (med_of pri == med_of sec) then ok false else ok (same_cost pri sec))

  -- From the origins on.
  unfoldable pub same_origin : BgpRte → BgpRte → Res Bool
  same_origin pri sec = if origin_of pri == origin_of sec then same_med pri sec else ok false

  unfoldable pub same_length : BgpRte → BgpRte → Res Bool
  same_length pri sec = do
    p ← path_len pri
    s ← path_len sec
    (if p == s then same_origin pri sec else ok false)

  unfoldable pub bgp_rte_mergable : BgpRte → BgpRte → Res Bool
  bgp_rte_mergable pri sec =
      if not (pri.suppressed == sec.suppressed) || rte_resolvable sec == 0
      then ok false
      else (if pref_of pri == pref_of sec
          then (if pri.proto.compare_path_lengths || sec.proto.compare_path_lengths
              then same_length pri sec
              else same_origin pri sec)
          else ok false)
