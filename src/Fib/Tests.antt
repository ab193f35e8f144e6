-- ===== src/Fib/Tests.antt =====
-- The table of rt-fib.c at concrete inputs.
use active_bgp_measurement.Base.{
  ℕ, ◌-◌, ◌*◌, ◌/◌, ◌%◌, ◌^◌, ◌<◌, ◌≤◌, ◌≡◌, refl, [], ◌∷◌, none, some, ok, arith, ◌⊎◌, bug, Bool,
  true, false, Option, ◌==◌, ◌>>=◌,
}
use active_bgp_measurement.Fib.{
  FibNode, Fib, fib_init, fib_get, fib_find, fib_rehash, fib_delete, fib_route, flatten, fib_hash,
  find_in, link_node, link_free, count_up, fib_ht_alloc,
}
use active_bgp_measurement.Fib.Invariant.{IsFib}
use active_bgp_measurement.Fib.Resize.{fib_rehash_lem}
use active_bgp_measurement.Fib.Get.{fib_get_lem, Gets}
use active_bgp_measurement.Fib.Delete.{fib_delete_lem, Deleted}
use active_bgp_measurement.Fib.Route.{fib_route_lem, Longest}

abbrev low_bits : ℕ → ℕ
low_bits a = a % 2 ^ 16

low_bits-hashed : (a : ℕ) → low_bits a < 2 ^ 16
low_bits-hashed a = omega arith

abbrev length_of : ℕ → ℕ → ℕ
length_of a len = len

abbrev no_table : Fib ℕ
no_table = record {
  hash_table = [];
  hash_size = 0;
  hash_order = 0;
  hash_shift = 0;
  entries = 0;
  entries_min = 0;
  entries_max = 0;
}

-- Two prefixes with the same hash, in a table of four buckets.
abbrev two_nets : Fib ℕ
two_nets = record {
  hash_table =
      (record { prefix = 512; pxlen = 24; uid = 33554432; content = 24 }
        ∷ record { prefix = 512; pxlen = 23; uid = 33554433; content = 23 }
        ∷ [])
      ∷ []
      ∷ []
      ∷ []
      ∷ [];
  hash_size = 4;
  hash_order = 2;
  hash_shift = 14;
  entries = 2;
  entries_min = 0;
  entries_max = 16;
}

-- The network of an IPv4 address.
abbrev network : ℕ → ℕ → ℕ
network a len = a / 2 ^ (32 - len) * 2 ^ (32 - len)

abbrev is_network : ℕ → ℕ → Bool
is_network a len = network a len == a

two_nets_built :
    (fib_get low_bits true 32 is_network length_of (fib_init no_table 2) 512 24 >>= λ r.
    fib_get low_bits true 32 is_network length_of r.1 512 23 >>= λ r. ok r.1)
    ≡ ok two_nets
unfolding fib_init fib_ht_alloc fib_get fib_hash find_in link_node link_free count_up
two_nets_built = refl

two_nets-IsFib : IsFib low_bits two_nets
unfolding fib_hash find_in
two_nets-IsFib = (
  omega arith,
  refl,
  refl,
  refl,
  (
    ((omega arith, tt), refl, (tt, refl, tt)),
    ((refl, refl, omega arith), ((refl, refl, omega arith), tt)),
    (tt, tt, (tt, tt, (tt, tt, tt))),
  ),
  refl,
  λ more. absurd (omega arith),
  λ _. refl,
)

fib_get_lem_example :
    Gets low_bits two_nets 768 24 (fib_get low_bits true 32 is_network length_of two_nets 768 24)
unfolding fib_hash
fib_get_lem_example =
    fib_get_lem low_bits low_bits-hashed true 32 is_network length_of two_nets 768 24 (omega arith)
      (omega arith) refl two_nets-IsFib (omega arith) (omega arith)

-- Whether the node of 512/280 is found, and the length that is stored.
abbrev asked : FibNode ℕ × Fib ℕ × Bool → Option (FibNode ℕ) × ℕ
asked r = (fib_find low_bits r.1 512 280, FibNode.pxlen r.0)

-- A build without the check takes the length 280 for a byte, which is 24: the node is not found
-- under the length that was asked for.
wrapped :
    (fib_get low_bits false 32 is_network length_of (fib_init no_table 2) 512 280 >>= λ r.
    ok (asked r))
    ≡ ok (none, 24)
unfolding fib_init fib_ht_alloc fib_get fib_hash find_in link_node link_free count_up fib_find
wrapped = refl

fib_delete_lem_example :
    ((fib_find low_bits two_nets 512 24 ≡ none) × (fib_delete low_bits two_nets 512 24 ≡ bug))
    ⊎ ((e : FibNode ℕ) × (fib_find low_bits two_nets 512 24 ≡ some e)
        × ((f' : Fib ℕ) × (fib_delete low_bits two_nets 512 24 ≡ ok f')
            × Deleted low_bits two_nets 512 24 f'))
fib_delete_lem_example =
    fib_delete_lem low_bits low_bits-hashed two_nets 512 24 two_nets-IsFib (omega arith)

fib_rehash_lem_example :
    (flatten (Fib.hash_table (fib_rehash low_bits two_nets 4)) ≡ flatten two_nets.hash_table)
    × ((a len : ℕ)
        → fib_find low_bits (fib_rehash low_bits two_nets 4) a len
          ≡ fib_find low_bits two_nets a len)
    × IsFib low_bits (fib_rehash low_bits two_nets 4)
fib_rehash_lem_example =
    fib_rehash_lem low_bits low_bits-hashed two_nets 4 (omega arith) two_nets-IsFib

fib_route_lem_example :
    ((fib_route low_bits network two_nets 600 32 ≡ none)
      × ((m : ℕ) → m ≤ 32 → fib_find low_bits two_nets (network 600 m) m ≡ none))
    ⊎ ((e : FibNode ℕ) × (fib_route low_bits network two_nets 600 32 ≡ some e)
        × Longest low_bits network two_nets 600 32 e)
fib_route_lem_example = fib_route_lem low_bits network two_nets 600 32

-- The longest network of the address is found, and after its deletion the next one.
routed :
    fib_route low_bits network two_nets 600 32
    ≡ some (record { prefix = 512; pxlen = 24; uid = 33554432; content = 24 })
unfolding fib_route fib_find fib_hash find_in
routed = refl
