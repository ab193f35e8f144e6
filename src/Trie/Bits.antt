-- ===== src/Trie/Bits.antt =====
-- The bits of addresses as filter/trie.c uses them: the laws of the operations, and the prefixes on
-- which two addresses agree.
use active_bgp_measurement.Base.{
  ℕ, zero, suc, ◌≡◌, ◌≤◌, ◌<◌, ◌↔◌, ◌||◌, ◌&&◌, not, refl, sym, ◌∙◌, subst,
}
use active_bgp_measurement.Base.{
  Bool, true, false, ltb, if◌then◌else◌, arith, ltb→lt, Bool-cases, inl, inr,
}
use active_bgp_measurement.Trie.{IpOps, xor}

-- What the operations do bit by bit.
pub record IpLaws (ops : IpOps) : Type 0 where
  pub none_bit : (i : ℕ) → i < ops.bits_per_ip_address → ops.ipa_getbit ops.ipa_none i ≡ false
  pub mkmask_bit :
      (n i : ℕ)
      → n ≤ ops.bits_per_ip_address
      → i < ops.bits_per_ip_address
      → ops.ipa_getbit (ops.ipa_mkmask n) i ≡ ltb i n
  pub and_bit :
      (a b : ops.Ip) (i : ℕ)
      → i < ops.bits_per_ip_address
      → ops.ipa_getbit (ops.ipa_and a b) i ≡ (ops.ipa_getbit a i && ops.ipa_getbit b i)
  pub or_bit :
      (a b : ops.Ip) (i : ℕ)
      → i < ops.bits_per_ip_address
      → ops.ipa_getbit (ops.ipa_or a b) i ≡ (ops.ipa_getbit a i || ops.ipa_getbit b i)
  pub xor_bit :
      (a b : ops.Ip) (i : ℕ)
      → i < ops.bits_per_ip_address
      → ops.ipa_getbit (ops.ipa_xor a b) i ≡ xor (ops.ipa_getbit a i) (ops.ipa_getbit b i)
  pub equal_iff :
      (a b : ops.Ip)
      → (ops.ipa_equal a b ≡ true)
        ↔ ((i : ℕ) → i < ops.bits_per_ip_address → ops.ipa_getbit a i ≡ ops.ipa_getbit b i)
  pub pxlen_le : (a b : ops.Ip) → ops.ipa_pxlen a b ≤ ops.bits_per_ip_address
  pub pxlen_same :
      (a b : ops.Ip) (i : ℕ) → i < ops.ipa_pxlen a b → ops.ipa_getbit a i ≡ ops.ipa_getbit b i
  pub pxlen_differ :
      (a b : ops.Ip)
      → ops.ipa_pxlen a b < ops.bits_per_ip_address
      → ops.ipa_getbit a (ops.ipa_pxlen a b) ≡ not (ops.ipa_getbit b (ops.ipa_pxlen a b))

pub and-true : (x y : Bool) → (x && y) ≡ true → (x ≡ true) × (y ≡ true)
and-true true y h = (refl, h)
and-true false y h = (ground arith, ground arith)

pub xor-false : (x y : Bool) → not (xor x y) ≡ true → x ≡ y
xor-false true true h = refl
xor-false true false h = sym h
xor-false false true h = h
xor-false false false h = refl

pub xor_self : (x : Bool) → not (xor x x) ≡ true
xor_self true = refl
xor_self false = refl

pub not_self : (x y : Bool) → x ≡ y → x ≡ not y → true ≡ false
not_self x true e n = sym e ∙ n
not_self x false e n = sym n ∙ e

abbrev pub lesser : ℕ → ℕ → ℕ
lesser m n = if ltb n m then n else m

module _ (ops : IpOps) where
  -- The first `n` bits are the same.
  abbrev pub agree : ops.Ip → ops.Ip → ℕ → Bool
  agree a b zero = true
  agree a b (suc n) = agree a b n && not (xor (ops.ipa_getbit a n) (ops.ipa_getbit b n))

  pub agree-bit :
      (a b : ops.Ip) (n i : ℕ)
      → agree a b n ≡ true
      → i < n
      → ops.ipa_getbit a i ≡ ops.ipa_getbit b i
  agree-bit a b zero i h less = absurd (omega arith)
  agree-bit a b (suc n) i h less =
      let both = and-true (agree a b n) _ h in
      elim (Bool-cases (ltb i n)) [
        | inl y ↦ agree-bit a b n i both.0 (ltb→lt i n y)
        | inr m ↦
            subst (λ (k : ℕ). ops.ipa_getbit a k ≡ ops.ipa_getbit b k) {x = n} {y = i}
              (ground arith) (xor-false _ _ both.1)
      ]

  pub agree-intro :
      (a b : ops.Ip) (n : ℕ)
      → ((i : ℕ) → i < n → ops.ipa_getbit a i ≡ ops.ipa_getbit b i)
      → agree a b n ≡ true
  agree-intro a b zero h = refl
  agree-intro a b (suc n) h =
      rw (agree-intro a b n (λ i less. h i (omega arith)), h n (omega arith))
        (xor_self (ops.ipa_getbit b n))

  pub agree_sym : (a b : ops.Ip) (n : ℕ) → agree a b n ≡ true → agree b a n ≡ true
  agree_sym a b n h = agree-intro b a n (λ i less. sym (agree-bit a b n i h less))

  pub agree-le : (a b : ops.Ip) (m n : ℕ) → m ≤ n → agree a b n ≡ true → agree a b m ≡ true
  agree-le a b m n h all = agree-intro a b m (λ i less. agree-bit a b n i all (omega arith))

  -- The second address may be replaced by one that agrees with it.
  pub agree-subst :
      (a b c : ops.Ip) (m n : ℕ) → m ≤ n → agree b c n ≡ true → agree a b m ≡ agree a c m
  agree-subst a b c zero n h all = refl
  agree-subst a b c (suc m) n h all =
      rw (agree-subst a b c m n (omega arith) all, agree-bit b c n m all (omega arith)) refl

  -- Where a bit differs, the addresses do not agree further.
  pub agree-differ :
      (a b : ops.Ip) (n i : ℕ)
      → i < n
      → ops.ipa_getbit a i ≡ not (ops.ipa_getbit b i)
      → agree a b n ≡ false
  agree-differ a b n i less h = elim (Bool-cases (agree a b n)) [
    | inl y ↦ absurd (ground (arith, not_self _ _ (agree-bit a b n i y less) h))
    | inr n' ↦ n'
  ]
