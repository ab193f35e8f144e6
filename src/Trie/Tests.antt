-- ===== src/Trie/Tests.antt =====
-- Prefix sets of filter/trie.c at IPv4 addresses.
use active_bgp_measurement.Base.{
  ℕ, ◌+◌, ◌*◌, ◌%◌, ◌≡◌, ◌≤◌, ◌>>=◌, refl, ok, List, [], ◌∷◌, Bool, true, false, arith, map,
}
use active_bgp_measurement.Trie.{
  Trie, FPrefix, f_new_trie, trie_add_prefix, trie_match_prefix, trie_same, fprefix_set,
  trie_match_fprefix, trie_add_fprefix, add_all, fprefix_get_bounds, add_walk, attach_node,
  match_walk, trie_node_same,
}
use active_bgp_measurement.Trie.Network.{ipv4, ipv4-IpLaws, address}
use active_bgp_measurement.Trie.Correct.{IsTrie}
use active_bgp_measurement.Trie.Add.{
  AddsPattern, trie_match_prefix-trie_add_prefix, IsTrie-f_new_trie,
}
use active_bgp_measurement.Trie.Pattern.{
  Pattern, longer, shorter, between, fprefix, some_matches, trie_match_fprefix-fprefix_set,
}
use active_bgp_measurement.Trie.Same.{trie_match_prefix-trie_same}

-- 10.0.0.0/8+ and 10.1.0.0/16{20,24}.
abbrev ten_plus : FPrefix (ℕ → Bool)
ten_plus = record { ip = address 167772160; len = 16777216 + 8 }

abbrev ten_one : FPrefix (ℕ → Bool)
ten_one = record { ip = address 167837696; len = 67108864 + 20 * 65536 + 24 * 256 + 16 }

-- 192.168.0.0/16-
abbrev private_minus : FPrefix (ℕ → Bool)
private_minus = record { ip = address 3232235520; len = 33554432 + 16 }

-- What a set answers for three prefixes: 10.1.0.0/22, 10.1.0.0/25 and 192.0.0.0/8.
abbrev answers : Trie (ℕ → Bool) → List Bool
answers t =
    trie_match_fprefix ipv4 t (record { ip = address 167837696; len = 22 })
    ∷ trie_match_fprefix ipv4 t (record { ip = address 167837696; len = 25 })
    ∷ trie_match_fprefix ipv4 t (record { ip = address 3221225472; len = 8 })
    ∷ []

matched :
    (fprefix_set ipv4 ten_one (private_minus ∷ []) >>= (λ t. ok (answers t)))
    ≡ ok (true ∷ false ∷ true ∷ [])
unfolding fprefix_set trie_match_fprefix trie_add_fprefix add_all fprefix_get_bounds trie_add_prefix
    add_walk attach_node trie_match_prefix match_walk
matched = refl

trie_match_prefix-trie_add_prefix_example :
    (t' : Trie (ℕ → Bool)) × (trie_add_prefix ipv4 (f_new_trie ipv4) (address 167772160) 8 8 32
      ≡ ok t')
    × IsTrie ipv4 ipv4-IpLaws t'
    × AddsPattern ipv4 ipv4-IpLaws (f_new_trie ipv4) (address 167772160) 8 8 32 t'
trie_match_prefix-trie_add_prefix_example =
    trie_match_prefix-trie_add_prefix ipv4 ipv4-IpLaws (f_new_trie ipv4) (address 167772160) 8 8 32
      (IsTrie-f_new_trie ipv4 ipv4-IpLaws) (omega arith) (omega arith) (omega arith)

-- 10.0.0.0/8+, 10.1.0.0/16{20,24} and 192.168.0.0/16-.
abbrev ten : Pattern (ℕ → Bool)
ten = longer (address 167772160) 8

abbrev ten_middle : Pattern (ℕ → Bool)
ten_middle = between (address 167837696) 16 20 24

abbrev private : Pattern (ℕ → Bool)
private = shorter (address 3232235520) 16

encoded : fprefix ten_middle ≡ ten_one
unfolding fprefix
encoded = refl

trie_match_fprefix-fprefix_set_example :
    (t : Trie (ℕ → Bool)) × (fprefix_set ipv4
        (fprefix ten)
        (map fprefix (ten_middle ∷ private ∷ []))
      ≡ ok t)
    × ((q : FPrefix (ℕ → Bool))
        → q.len % 256 ≤ 32
        → trie_match_fprefix ipv4 t q
          ≡ some_matches ipv4 (ten ∷ ten_middle ∷ private ∷ []) q.ip (q.len % 256))
trie_match_fprefix-fprefix_set_example =
    trie_match_fprefix-fprefix_set ipv4 (omega arith) ipv4-IpLaws ten (ten_middle ∷ private ∷ [])
      (omega arith, ((omega arith, omega arith, omega arith), (omega arith, tt)))

trie_match_prefix-trie_same_example :
    trie_match_prefix ipv4 (f_new_trie ipv4) (address 167772160) 8
    ≡ trie_match_prefix ipv4 (f_new_trie ipv4) (address 167772160) 8
unfolding trie_same trie_node_same
trie_match_prefix-trie_same_example =
    trie_match_prefix-trie_same ipv4 ipv4-IpLaws (f_new_trie ipv4) (f_new_trie ipv4)
      (IsTrie-f_new_trie ipv4 ipv4-IpLaws) (IsTrie-f_new_trie ipv4 ipv4-IpLaws) refl
      (address 167772160) 8 (omega arith)
