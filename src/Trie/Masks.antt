-- ===== src/Trie/Masks.antt =====
-- How the accept masks that `trie_add_prefix` of filter/trie.c makes answer a query: a query of `k` bits
-- is on the path of a node or not, and its length is in the mask of the node, of the pattern or of
-- what is below.
use active_bgp_measurement.Base.{ℕ, ◌-◌, ◌≡◌, ◌<◌, ◌||◌, ◌&&◌}
use active_bgp_measurement.Base.{Bool, true, false, ltb, arith, Bool-cases, inl, inr}

-- A node on the path of the pattern takes its accepted lengths up to its own, and the child the rest.
pub deeper :
    (on acc am p below below' : Bool) (k plen : ℕ)
    → 0 < k
    → (ltb plen k ≡ false → p ≡ on)
    → (ltb plen k ≡ true → below' ≡ (below || (am && p)))
    → (p ≡ true → on ≡ true)
    → (on && ((acc || (am && ltb (k - 1) plen)) || (ltb plen k && below')))
      ≡ ((on && (acc || (ltb plen k && below))) || (am && p))
deeper on acc am p below below' k plen pos short long under = elim (Bool-cases (ltb plen k)) [
  | inl y ↦
      let outside : ltb (k - 1) plen ≡ false = ground arith in
      rw (y, outside, long y) (deeper_long on acc am p below under)
  | inr n ↦
      let inside : ltb (k - 1) plen ≡ true = ground arith in
      rw (n, inside, short n) (deeper_short on acc am)
]
  where
    deeper_long :
        (on acc am p below : Bool)
        → (p ≡ true → on ≡ true)
        → (on && ((acc || (am && false)) || (below || (am && p))))
          ≡ ((on && (acc || below)) || (am && p))
    deeper_long true acc am p below h = ground arith
    deeper_long false acc am p below h = ground arith

    deeper_short :
        (on acc am : Bool)
        → (on && ((acc || (am && true)) || false)) ≡ ((on && (acc || false)) || (am && on))
    deeper_short on acc am = ground arith

-- A new node in front of one that extends it.
pub between :
    (on acc am p below above : Bool) (k plen nplen : ℕ)
    → 0 < k
    → plen < nplen
    → (ltb plen k ≡ false → on ≡ p)
    → (ltb plen k ≡ true → above ≡ (on && (acc || (ltb nplen k && below))))
    → (on ≡ true → p ≡ true)
    → (p && ((am || (acc && ltb (k - 1) plen)) || (ltb plen k && above)))
      ≡ ((on && (acc || (ltb nplen k && below))) || (am && p))
between on acc am p below above k plen nplen pos less short long under =
    elim (Bool-cases (ltb plen k)) [
      | inl y ↦
          let outside : ltb (k - 1) plen ≡ false = ground arith in
          rw (y, outside, long y) (between_long on acc am p (ltb nplen k && below) under)
      | inr n ↦
          let inside : ltb (k - 1) plen ≡ true = ground arith in
          let shorter : ltb nplen k ≡ false = ground arith in
          rw (n, inside, short n, shorter) (between_short p acc am)
    ]
  where
    between_long :
        (on acc am p rest : Bool)
        → (on ≡ true → p ≡ true)
        → (p && ((am || (acc && false)) || (on && (acc || rest))))
          ≡ ((on && (acc || rest)) || (am && p))
    between_long true acc am p rest h = ground arith
    between_long false acc am p rest h = ground arith

    between_short :
        (p acc am : Bool)
        → (p && ((am || (acc && true)) || false)) ≡ ((p && (acc || false)) || (am && p))
    between_short p acc am = ground arith

-- A branching node in front of two.
pub branching :
    (d on acc am p below above : Bool) (k blen nplen : ℕ)
    → 0 < k
    → blen < nplen
    → (ltb blen k ≡ false → (on ≡ d) × (p ≡ d))
    → (ltb blen k ≡ true → above ≡ ((on && (acc || (ltb nplen k && below))) || (am && p)))
    → (on ≡ true → d ≡ true)
    → (p ≡ true → d ≡ true)
    → (d && (((am || acc) && ltb (k - 1) blen) || (ltb blen k && above)))
      ≡ ((on && (acc || (ltb nplen k && below))) || (am && p))
branching d on acc am p below above k blen nplen pos less short long under under' =
    elim (Bool-cases (ltb blen k)) [
      | inl y ↦
          let outside : ltb (k - 1) blen ≡ false = ground arith in
          rw (y, outside, long y) (branching_long d on acc am p (ltb nplen k && below) under under')
      | inr n ↦
          let inside : ltb (k - 1) blen ≡ true = ground arith in
          let shorter : ltb nplen k ≡ false = ground arith in
          rw (n, inside, (short n).0, (short n).1, shorter) (branching_short d acc am)
    ]
  where
    branching_long :
        (d on acc am p rest : Bool)
        → (on ≡ true → d ≡ true)
        → (p ≡ true → d ≡ true)
        → (d && (((am || acc) && false) || ((on && (acc || rest)) || (am && p))))
          ≡ ((on && (acc || rest)) || (am && p))
    branching_long true on acc am p rest h k = ground arith
    branching_long false on acc am p rest h k = ground arith

    branching_short :
        (d acc am : Bool)
        → (d && (((am || acc) && true) || false)) ≡ ((d && (acc || false)) || (am && d))
    branching_short d acc am = ground arith
