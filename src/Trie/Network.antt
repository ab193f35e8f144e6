-- ===== src/Trie/Network.antt =====
-- Addresses of 32 bits as functions of the index of a bit, to run filter/trie.c on.
use active_bgp_measurement.Base.{
  ℕ, zero, suc, ◌-◌, ◌/◌, ◌%◌, ◌^◌, ◌≡◌, ◌≤◌, ◌<◌, ◌||◌, ◌&&◌, not, refl, sym, ap, ◌∙◌, subst,
}
use active_bgp_measurement.Base.{
  Bool, true, false, ltb, ◌==◌, if◌then◌else◌, arith, ltb→lt, Bool-cases, inl, inr,
}
use active_bgp_measurement.Trie.{IpOps, xor}
use active_bgp_measurement.Trie.Bits.{IpLaws, and-true, xor-false, xor_self}

-- The first `n` bits are the same.
abbrev pub same_bits : (ℕ → Bool) → (ℕ → Bool) → ℕ → Bool
same_bits a b zero = true
same_bits a b (suc n) = same_bits a b n && not (xor (a n) (b n))

-- The number of bits of the first `n` that are shared at the front.
abbrev pub shared : (ℕ → Bool) → (ℕ → Bool) → ℕ → ℕ
shared a b zero = 0
shared a b (suc n) = if same_bits a b (suc n) then suc n else shared a b n

abbrev pub ipv4 : IpOps
ipv4 = record {
  Ip = ℕ → Bool;
  bits_per_ip_address = 32;
  ipa_none = λ i. false;
  ipa_getbit = λ a i. a i;
  ipa_mkmask = λ n i. ltb i n;
  ipa_and = λ a b i. a i && b i;
  ipa_or = λ a b i. a i || b i;
  ipa_xor = λ a b i. xor (a i) (b i);
  ipa_equal = λ a b. same_bits a b 32;
  ipa_pxlen = λ a b. shared a b 32;
}

same_bits-lt : (a b : ℕ → Bool) (n i : ℕ) → same_bits a b n ≡ true → i < n → a i ≡ b i
same_bits-lt a b zero i h less = absurd (omega arith)
same_bits-lt a b (suc n) i h less =
    let both = and-true (same_bits a b n) _ h in
    elim (Bool-cases (ltb i n)) [
      | inl y ↦ same_bits-lt a b n i both.0 (ltb→lt i n y)
      | inr m ↦ subst (λ (k : ℕ). a k ≡ b k) {x = n} {y = i} (ground arith) (xor-false _ _ both.1)
    ]

same_bits-intro : (a b : ℕ → Bool) (n : ℕ) → ((i : ℕ) → i < n → a i ≡ b i) → same_bits a b n ≡ true
same_bits-intro a b zero h = refl
same_bits-intro a b (suc n) h =
    rw (same_bits-intro a b n (λ i less. h i (omega arith)), h n (omega arith)) (xor_self (b n))

shared-le : (a b : ℕ → Bool) (n : ℕ) → shared a b n ≤ n
shared-le a b zero = omega arith
shared-le a b (suc n) = elim (Bool-cases (same_bits a b (suc n))) [
  | inl y ↦ rw y (omega arith)
  | inr m ↦ rw m (omega (arith, shared-le a b n))
]

shared-same_bits : (a b : ℕ → Bool) (n : ℕ) → same_bits a b (shared a b n) ≡ true
shared-same_bits a b zero = refl
shared-same_bits a b (suc n) = elim (Bool-cases (same_bits a b (suc n))) [
  | inl y ↦ rw (y, y) refl
  | inr m ↦ rw m (shared-same_bits a b n)
]

whole : (a b : ℕ → Bool) (n : ℕ) → same_bits a b (suc n) ≡ true → shared a b (suc n) ≡ suc n
whole a b n y = rw y refl

shorter :
    (a b : ℕ → Bool) (n : ℕ) → same_bits a b (suc n) ≡ false → shared a b (suc n) ≡ shared a b n
shorter a b n m = rw m refl

apart_not : (x y : Bool) → not (xor x y) ≡ false → x ≡ not y
apart_not true y h = sym (ground arith)
apart_not false y h = ground arith

last : (x y : Bool) → (x && y) ≡ false → x ≡ true → y ≡ false
last x y h e = ground arith

-- Behind the shared bits comes one that differs.
shared-differ :
    (a b : ℕ → Bool) (n : ℕ) → shared a b n < n → a (shared a b n) ≡ not (b (shared a b n))
shared-differ a b zero less = absurd (omega arith)
shared-differ a b (suc n) less = elim (Bool-cases (same_bits a b (suc n))) [
  | inl y ↦ absurd (omega (arith, less, whole a b n y))
  | inr m ↦
      subst (λ (k : ℕ). a k ≡ not (b k)) (sym (shorter a b n m))
        (elim (Bool-cases (ltb (shared a b n) n)) [
          | inl y ↦ shared-differ a b n (ltb→lt (shared a b n) n y)
          | inr most ↦
              let all : n ≡ shared a b n = ground (arith, shared-le a b n) in
              subst (λ (k : ℕ). a k ≡ not (b k)) all
                (apart_not (a n) (b n) (
                  last (same_bits a b n) _ m
                    (ap (λ (k : ℕ). same_bits a b k) all ∙ shared-same_bits a b n)))
        ])
]

pub ipv4-IpLaws : IpLaws ipv4
ipv4-IpLaws = record {
  none_bit = λ i less. refl;
  mkmask_bit = λ n i small less. refl;
  and_bit = λ a b i less. refl;
  or_bit = λ a b i less. refl;
  xor_bit = λ a b i less. refl;
  equal_iff = λ a b. (λ h i less. same_bits-lt a b 32 i h less, same_bits-intro a b 32);
  pxlen_le = λ a b. shared-le a b 32;
  pxlen_same = λ a b i less. same_bits-lt a b (shared a b 32) i (shared-same_bits a b 32) less;
  pxlen_differ = λ a b less. shared-differ a b 32 less;
}

-- The bits of a number.
abbrev pub address : ℕ → ℕ → Bool
address n i = n / 2 ^ (31 - i) % 2 == 1
