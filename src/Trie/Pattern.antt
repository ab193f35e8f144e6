-- ===== src/Trie/Pattern.antt =====
-- The patterns of prefix sets as the configuration writes them (filter/config.Y), and the sets that are
-- built of them.
use active_bgp_measurement.Base.{
  ℕ, ◌+◌, ◌*◌, ◌%◌, ◌≡◌, ◌∙◌, ◌≤◌, ◌<◌, ◌||◌, ok, List, [], ◌∷◌, All, arith, Bool, true, false, map,
  refl, ◌==◌, ◌/◌, ◌^◌,
}
use active_bgp_measurement.Trie.{
  IpOps, FPrefix, Trie, fprefix_get_bounds, trie_match_fprefix, fprefix_set,
}
use active_bgp_measurement.Trie.Bits.{IpLaws}
use active_bgp_measurement.Trie.Add.{prefix_matches}
use active_bgp_measurement.Trie.PrefixSet.{IsFPrefix, fprefix_matches, any_matches, fprefix_set_lem}

-- `ip/len`, `ip/len+`, `ip/len-` and `ip/len{low,high}`
pub data Pattern (Ip : Type 0) : Type 0 where
  exactly longer shorter : Ip → ℕ → Pattern Ip
  between : Ip → ℕ → ℕ → ℕ → Pattern Ip

-- What the parser makes of a pattern. The bits that it sets with `|` are zero before.
unfoldable pub fprefix : {Ip : Type 0} → Pattern Ip → FPrefix Ip
fprefix (exactly ip len) = record { ip = ip; len = len }
fprefix (longer ip len) = record { ip = ip; len = len + 16777216 }
fprefix (shorter ip len) = record { ip = ip; len = len + 33554432 }
fprefix (between ip len low high) = record {
  ip = ip;
  len = len + (67108864 + low * 65536 + high * 256);
}

-- The prefixes that the documentation says a pattern matches.
abbrev pub pattern_matches : (ops : IpOps) → Pattern ops.Ip → ops.Ip → ℕ → Bool
pattern_matches ops (exactly ip len) q k = prefix_matches ops ip len len len q k
pattern_matches ops (longer ip len) q k = prefix_matches ops ip len len ops.bits_per_ip_address q k
pattern_matches ops (shorter ip len) q k = prefix_matches ops ip len 0 len q k
pattern_matches ops (between ip len low high) q k = prefix_matches ops ip len low high q k

abbrev pub some_matches : (ops : IpOps) → List (Pattern ops.Ip) → ops.Ip → ℕ → Bool
some_matches ops [] q k = false
some_matches ops (p ∷ ps) q k = pattern_matches ops p q k || some_matches ops ps q k

-- What the parser checks, for an address of `bits` bits.
abbrev pub IsPattern : {Ip : Type 0} → ℕ → Pattern Ip → Type 0
IsPattern bits (exactly ip len) = len ≤ bits
IsPattern bits (longer ip len) = len ≤ bits
IsPattern bits (shorter ip len) = len ≤ bits
IsPattern bits (between ip len low high) = (len ≤ bits) × (low ≤ high) × (high ≤ bits)

-- The bounds of a pattern.
abbrev low_of : {Ip : Type 0} → Pattern Ip → ℕ
low_of (exactly ip len) = len
low_of (longer ip len) = len
low_of (shorter ip len) = 0
low_of (between ip len low high) = low

abbrev high_of : {Ip : Type 0} → ℕ → Pattern Ip → ℕ
high_of bits (exactly ip len) = len
high_of bits (longer ip len) = bits
high_of bits (shorter ip len) = len
high_of bits (between ip len low high) = high

abbrev len_of : {Ip : Type 0} → Pattern Ip → ℕ
len_of (exactly ip len) = len
len_of (longer ip len) = len
len_of (shorter ip len) = len
len_of (between ip len low high) = len

module _ (ops : IpOps) (byte : ops.bits_per_ip_address < 256) where
  -- The length and the bounds come out of the encoding as they went in.
  len_lem :
      (p : Pattern ops.Ip) → IsPattern ops.bits_per_ip_address p → (fprefix p).len % 256 ≡ len_of p
  unfolding fprefix
  len_lem (exactly ip len) fits = omega arith
  len_lem (longer ip len) fits = omega arith
  len_lem (shorter ip len) fits = omega arith
  len_lem (between ip len low high) fits = omega arith

  bounds_lem :
      (p : Pattern ops.Ip)
      → IsPattern ops.bits_per_ip_address p
      → fprefix_get_bounds ops (fprefix p) ≡ (low_of p, high_of ops.bits_per_ip_address p)
  unfolding fprefix fprefix_get_bounds
  bounds_lem (exactly ip len) fits =
      let small : (len % 256) ≡ len = omega arith in
      let minus : (len / 2 ^ 25 % 2 == 1) ≡ false = ground arith in
      let plus : (len / 2 ^ 24 % 2 == 1) ≡ false = ground arith in
      let range : (len / 2 ^ 26 % 2 == 1) ≡ false = ground arith in
      rw (minus, plus, range, small) refl
  bounds_lem (longer ip len) fits =
      let n = len + 16777216 in
      let small : (n % 256) ≡ len = omega arith in
      let minus : (n / 2 ^ 25 % 2 == 1) ≡ false = ground arith in
      let plus : (n / 2 ^ 24 % 2 == 1) ≡ true = ground arith in rw (minus, plus, small) refl
  bounds_lem (shorter ip len) fits =
      let n = len + 33554432 in
      let small : (n % 256) ≡ len = omega arith in
      let minus : (n / 2 ^ 25 % 2 == 1) ≡ true = ground arith in rw (minus, small) refl
  bounds_lem (between ip len low high) fits =
      let n = len + (67108864 + low * 65536 + high * 256) in
      let minus : (n / 2 ^ 25 % 2 == 1) ≡ false = ground arith in
      let plus : (n / 2 ^ 24 % 2 == 1) ≡ false = ground arith in
      let range : (n / 2 ^ 26 % 2 == 1) ≡ true = ground arith in
      let lower : (n / 2 ^ 16 % 256) ≡ low = omega arith in
      let upper : (n / 2 ^ 8 % 256) ≡ high = omega arith in
      rw (minus, plus, range, lower, upper) refl

  fprefix-IsFPrefix :
      (p : Pattern ops.Ip) → IsPattern ops.bits_per_ip_address p → IsFPrefix ops (fprefix p)
  fprefix-IsFPrefix p fits = rw (len_lem p fits, bounds_lem p fits) (ordered p fits)
    where
      ordered :
          (p : Pattern ops.Ip)
          → IsPattern ops.bits_per_ip_address p
          → (len_of p ≤ ops.bits_per_ip_address)
            × (low_of p ≤ high_of ops.bits_per_ip_address p)
            × (high_of ops.bits_per_ip_address p ≤ ops.bits_per_ip_address)
      ordered (exactly ip len) fits = (fits, omega arith, fits)
      ordered (longer ip len) fits = (fits, fits, omega arith)
      ordered (shorter ip len) fits = (fits, omega arith, fits)
      ordered (between ip len low high) fits = fits

  fprefix_matches_lem :
      (p : Pattern ops.Ip)
      → IsPattern ops.bits_per_ip_address p
      → (q : ops.Ip) (k : ℕ) → fprefix_matches ops (fprefix p) q k ≡ pattern_matches ops p q k
  unfolding fprefix
  fprefix_matches_lem p fits q k = rw (len_lem p fits, bounds_lem p fits) (same p)
    where
      same :
          (p : Pattern ops.Ip)
          → prefix_matches ops
              (fprefix p).ip
              (len_of p)
              (low_of p)
              (high_of ops.bits_per_ip_address p)
              q
              k
            ≡ pattern_matches ops p q k
      same (exactly ip len) = refl
      same (longer ip len) = refl
      same (shorter ip len) = refl
      same (between ip len low high) = refl

  some_matches_lem :
      (ps : List (Pattern ops.Ip))
      → All (IsPattern ops.bits_per_ip_address) ps
      → All (IsFPrefix ops) (map fprefix ps)
        × ((q : ops.Ip) (k : ℕ) → any_matches ops (map fprefix ps) q k ≡ some_matches ops ps q k)
  some_matches_lem [] fits = (fits, λ q k. refl)
  some_matches_lem (p ∷ ps) fits =
      let (good, same) = some_matches_lem ps fits.1 in
      (
        (fprefix-IsFPrefix p fits.0, good),
        λ q k. rw (fprefix_matches_lem p fits.0 q k, same q k) refl,
      )

  -- For the laws of the bits of addresses, addresses of less than 256 bits, and patterns as the parser
  -- admits them (lengths and bounds at most the length of an address, no lower bound above the upper
  -- one): building the trie of the patterns of a prefix set returns, and trie_match_fprefix of a
  -- prefix, whose length is at most that of an address, answers 1 exactly if the prefix is one of
  -- those that some pattern of the set matches by the documentation.
  pub trie_match_fprefix-fprefix_set :
      IpLaws ops
      → (p : Pattern ops.Ip) (ps : List (Pattern ops.Ip))
      → All (IsPattern ops.bits_per_ip_address) (p ∷ ps)
      → (t : Trie ops.Ip) × (fprefix_set ops (fprefix p) (map fprefix ps) ≡ ok t)
        × ((q : FPrefix ops.Ip)
            → q.len % 256 ≤ ops.bits_per_ip_address
            → trie_match_fprefix ops t q ≡ some_matches ops (p ∷ ps) q.ip (q.len % 256))
  trie_match_fprefix-fprefix_set laws p ps fits =
      let (good, same) = some_matches_lem (p ∷ ps) fits in
      let (t, built, matches) = fprefix_set_lem ops laws (fprefix p) (map fprefix ps) good in
      (t, built, λ q small. matches q small ∙ same q.ip (q.len % 256))
