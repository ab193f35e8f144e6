-- ===== src/Fib/Invariant.antt =====
-- What holds of a table of rt-fib.c between its operations: each bucket has the nodes of its hash,
-- in the order of their numbers, whose high half is the primary hash; lengths are bytes.
use native.Mathlib.Nat.{
  div-mul-le_self, le-div_iff_mul-le, div-lt_iff_lt-mul, one-le-pow, pow-suc, pow-zero,
}
use active_bgp_measurement.Base.{
  ℕ, zero, suc, ◌+◌, ◌-◌, ◌*◌, ◌/◌, ◌^◌, ◌<◌, ◌≤◌, ◌≡◌, ap, ◌∙◌, subst,
}
use active_bgp_measurement.Base.{List, [], ◌∷◌, length, arith}
use active_bgp_measurement.Base.{leb, All, leb→le, Bool-cases, inl, inr}
use active_bgp_measurement.Fib.{FibNode, Fib, uint_max, fib_hash, flatten}
use active_bgp_measurement.Fib.Chain.{IsNodes}

pub pow_pos : (n : ℕ) → 0 < 2 ^ n
pow_pos n = one-le-pow n 2 (omega arith)

pow-sum : (m n : ℕ) → 2 ^ (m + n) ≡ 2 ^ m * 2 ^ n
pow-sum m zero =
    rw (pow-zero 2) (ap (λ (n : ℕ). 2 ^ n) {x = m + 0} {y = m} (omega arith) ∙ omega arith)
pow-sum m (suc n) = grind (arith, pow-sum m n, pow-suc 2 n, pow-suc 2 (m + n))

-- A quotient that is smaller is one of a smaller number.
pub div-lt : (a b n : ℕ) → a / 2 ^ n < b / 2 ^ n → a < b
div-lt a b n h = elim (Bool-cases (leb b a)) [
  | inl y ↦
      let low : b / 2 ^ n * 2 ^ n ≤ a = grind (arith, div-mul-le_self b (2 ^ n), leb→le b a y) in
      absurd (omega (arith, (le-div_iff_mul-le (pow_pos n)).1 low))
  | inr n ↦ ground arith
]

pub div_mono : (a b n : ℕ) → a ≤ b → a / 2 ^ n ≤ b / 2 ^ n
div_mono a b n h = elim (Bool-cases (leb (a / 2 ^ n) (b / 2 ^ n))) [
  | inl y ↦ leb→le _ _ y
  | inr more ↦ absurd (omega (arith, h, div-lt b a n (ground arith)))
]

-- The quotient of a 16-bit hash is the number of a bucket.
pub fib_hash-lt :
    (ipa_hash : ℕ → ℕ) (order a : ℕ)
    → order ≤ 16
    → ipa_hash a < 2 ^ 16
    → fib_hash ipa_hash (16 - order) a < 2 ^ order
unfolding fib_hash
fib_hash-lt ipa_hash order a small h =
    let whole : 2 ^ 16 ≡ 2 ^ order * 2 ^ (16 - order) =
      ap (λ (n : ℕ). 2 ^ n) {x = 16} {y = order + (16 - order)} (omega arith)
      ∙ pow-sum order (16 - order) in
    (div-lt_iff_lt-mul (pow_pos (16 - order))).1 (subst (λ (n : ℕ). ipa_hash a < n) whole h)

module _ {V : Type 0} (ipa_hash : ℕ → ℕ) where
  -- The node stands in the bucket `i`, its number is one of its primary hash, and its length is a byte.
  abbrev pub Belongs : ℕ → ℕ → FibNode V → Type 0
  Belongs shift i e =
      (fib_hash ipa_hash shift e.prefix ≡ i)
      × (e.uid / 2 ^ 16 ≡ ipa_hash e.prefix)
      × (e.pxlen < 2 ^ 8)

  -- The chains of the buckets from `i` on.
  abbrev pub IsTable : ℕ → ℕ → List (List (FibNode V)) → Type 0
  IsTable shift i [] = Unit
  IsTable shift i (c ∷ table) = IsNodes c × All (Belongs shift i) c × IsTable shift (i + 1) table

  -- The fields that `fib_ht_alloc` sets agree with each other and with the table; the number of
  -- entries is the number of nodes.
  abbrev pub IsFib : Fib V → Type 0
  IsFib f =
      (f.hash_order ≤ 16)
      × (f.hash_shift ≡ 16 - f.hash_order)
      × (f.hash_size ≡ 2 ^ f.hash_order)
      × (length f.hash_table ≡ f.hash_size)
      × IsTable f.hash_shift 0 f.hash_table
      × (f.entries ≡ length (flatten f.hash_table))
      × (14 < f.hash_order → f.entries_max ≡ uint_max)
      × (f.hash_order < 12 → f.entries_min ≡ 0)
