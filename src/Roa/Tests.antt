-- ===== src/Roa/Tests.antt =====
-- Runs of nest/rt-roa.c with IPv4 prefixes as numbers of 32 bits.
use active_bgp_measurement.Base.{ℕ, ◌-◌, ◌*◌, ◌/◌, ◌^◌, ◌≡◌, List, [], ◌∷◌, arith, refl}
use active_bgp_measurement.Roa.{
  RoaNode, roa_unknown, roa_valid, roa_invalid, fib_find, roa_check, roa_add_item, roa_delete_item,
}
use active_bgp_measurement.Roa.{check_loop, check_node}
use active_bgp_measurement.Roa.Check.{items_at, candidates, roa_check_lem}
use active_bgp_measurement.Roa.Update.{roa_delete_item-roa_add_item, roa_check-roa_add_item}

-- The bits behind the length are cleared.
abbrev network : ℕ → ℕ → ℕ
network prefix len = prefix / 2 ^ (32 - len) * 2 ^ (32 - len)

-- 10.0.0.0/8 up to /16 from AS 65001.
abbrev table : List RoaNode
table =
    record {
      prefix = 167772160;
      pxlen = 8;
      items = record { asn = 65001; maxlen = 16; src = 1 } ∷ [];
    }
    ∷ []

-- 10.1.0.0/16 of AS 65001 is valid, of another AS invalid, and 11.0.0.0/8 unknown.
checked :
    (roa_check network table 167837696 16 65001 ≡ roa_valid)
    × (roa_check network table 167837696 16 65002 ≡ roa_invalid)
    × (roa_check network table 184549376 8 65001 ≡ roa_unknown)
unfolding roa_check check_loop check_node fib_find
checked = (refl, refl, refl)

roa_check_lem_example : roa_check network table 167837696 16 65001 ≡ roa_valid
unfolding candidates items_at fib_find
roa_check_lem_example = roa_check_lem network table 167837696 16 65001

roa_delete_item-roa_add_item_example :
    items_at
      (roa_delete_item (roa_add_item table 167772160 8 24 65003 2) 167772160 8 24 65003 2)
      167772160
      8
    ≡ items_at table 167772160 8
roa_delete_item-roa_add_item_example =
    roa_delete_item-roa_add_item table 167772160 8 24 65003 2 167772160 8
      (unfold items_at fib_find in refl)

roa_check-roa_add_item_example :
    roa_check network (roa_add_item table (network 184549376 8) 8 16 65002 2) 184549376 16 65002
    ≡ roa_valid
roa_check-roa_add_item_example =
    roa_check-roa_add_item network table 184549376 16 8 16 65002 2 (omega arith) (omega arith)
      (omega arith)
