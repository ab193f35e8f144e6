-- ===== src/Fib.antt =====
-- The forwarding information base, nest/rt-fib.c: a hash table of nodes by network prefix. The
-- asynchronous readers of a node are not modelled.
pub mod Chain
pub mod Unlink
pub mod Rehash
pub mod Invariant
pub mod Lookup
pub mod Resize
pub mod Update
pub mod Count
pub mod Get
pub mod Delete
pub mod Route
mod Tests
use active_bgp_measurement.Base.{
  ℕ, zero, suc, ◌+◌, ◌-◌, ◌*◌, ◌/◌, ◌%◌, ◌^◌, ◌≡◌, ◌||◌, ◌&&◌, ◌++◌, not,
}
use active_bgp_measurement.Base.{
  List, [], ◌∷◌, length, set, get_elem?, Bool, true, false, Option, none, some,
}
use active_bgp_measurement.Base.{Res, ok, bug, ◌>>=◌, ltb, leb, ◌==◌, if◌then◌else◌}

-- `struct fib_node`; the user data behind it is `content`. `pxlen` is a byte: what is stored there is
-- taken modulo 2 ^ 8.
pub record FibNode (V : Type 0) : Type 0 where
  pub prefix : ℕ
  pub pxlen : ℕ
  pub uid : ℕ
  pub content : V

-- `struct fib`
pub record Fib (V : Type 0) : Type 0 where
  pub hash_table : List (List (FibNode V))
  pub hash_size : ℕ
  pub hash_order : ℕ
  pub hash_shift : ℕ
  pub entries : ℕ
  pub entries_min : ℕ
  pub entries_max : ℕ

abbrev pub hash_def_order : ℕ
hash_def_order = 10

abbrev pub hash_hi_step : ℕ
hash_hi_step = 2

abbrev pub hash_hi_max : ℕ
hash_hi_max = 16

abbrev pub hash_lo_step : ℕ
hash_lo_step = 2

abbrev pub hash_lo_min : ℕ
hash_lo_min = 10

-- `~0`
abbrev pub uint_max : ℕ
uint_max = 2 ^ 32 - 1

module _ {V : Type 0} where
  -- The chain of a bucket.
  abbrev pub chain_at : List (List (FibNode V)) → ℕ → List (FibNode V)
  chain_at table h = elim (get_elem? table h) [ none ↦ [] | some c ↦ c ]

  abbrev pub empty_chains : ℕ → List (List (FibNode V))
  empty_chains zero = []
  empty_chains (suc n) = [] ∷ empty_chains n

  -- `fib_ht_alloc` at an order; the buckets are `table`, which the callers fill.
  unfoldable pub fib_ht_alloc : Fib V → ℕ → List (List (FibNode V)) → Fib V
  fib_ht_alloc f order table = record {
    hash_table = table;
    hash_size = 2 ^ order;
    hash_order = order;
    hash_shift = 16 - order;
    entries = f.entries;
    entries_min = if ltb order (hash_lo_min + hash_lo_step) then 0 else 2 ^ order / 5;
    entries_max = if ltb (hash_hi_max - hash_hi_step) order then uint_max else 2 ^ order * 4;
  }

  -- The fields of the structure before it is initialized count for nothing.
  unfoldable pub fib_init : Fib V → ℕ → Fib V
  fib_init f hash_order =
      let order = if hash_order == 0 then hash_def_order else hash_order in
      record (fib_ht_alloc f order (empty_chains (2 ^ order))) { entries = 0; entries_min = 0 }

  abbrev pub same_key : ℕ → ℕ → FibNode V → Bool
  same_key a len e = e.pxlen == len && a == e.prefix

  -- The loop that walks a chain.
  unfoldable pub find_in : ℕ → ℕ → List (FibNode V) → Option (FibNode V)
  find_in a len [] = none
  find_in a len (e ∷ c) = let rest = find_in a len c in if same_key a len e then some e else rest

  -- The second loop of `fib_get`: past the nodes with the next numbers. Then the node is linked in.
  unfoldable pub link_free : FibNode V → List (FibNode V) → List (FibNode V) × ℕ
  link_free e [] = (e ∷ [], e.uid)
  link_free e (g ∷ c) =
      let next = link_free (record e { uid = (e.uid + 1) % 2 ^ 32 }) c in
      if g.uid == e.uid then (g ∷ next.0, next.1) else (e ∷ g ∷ c, e.uid)

  -- The first loop: past the nodes with smaller numbers.
  unfoldable pub link_node : FibNode V → List (FibNode V) → List (FibNode V) × ℕ
  unfolding link_free
  link_node e [] = (e ∷ [], e.uid)
  link_node e (g ∷ c) =
      let next = link_node e c in
      let here = link_free e (g ∷ c) in if ltb g.uid e.uid then (g ∷ next.0, next.1) else here

  unfoldable pub unlink : ℕ → ℕ → List (FibNode V) → Option (List (FibNode V))
  unlink a len [] = none
  unlink a len (e ∷ c) =
      let rest = unlink a len c in
      if same_key a len e then some c else elim rest [ none ↦ none | some c' ↦ some (e ∷ c') ]

  abbrev pub flatten : List (List (FibNode V)) → List (FibNode V)
  flatten [] = []
  flatten (c ∷ table) = c ++ flatten table

  -- `while (nh > ni)` closes `k` chains, the first of which is `cur`; `then` continues behind them
  -- with the chain that is open.
  abbrev pub close_chains :
      ℕ → List (FibNode V) → (List (FibNode V) → List (List (FibNode V))) → List (List (FibNode V))
  close_chains zero cur continue = continue cur
  close_chains (suc k) cur continue = cur ∷ close_chains k [] continue

-- `fib_hash` over the primary hash.
unfoldable pub fib_hash : (ℕ → ℕ) → ℕ → ℕ → ℕ
fib_hash ipa_hash hash_shift a = ipa_hash a / 2 ^ hash_shift

-- `ipa_hash` is the daemon's library, which the repository does not hold: a primary hash of 16 bits.
module _ {V : Type 0} (ipa_hash : ℕ → ℕ) where
  -- The loops of `fib_rehash` over all nodes in their order: the chains from `ni` on, the first of
  -- which has `cur` so far.
  unfoldable pub rehash_loop :
      ℕ → ℕ → ℕ → List (FibNode V) → List (FibNode V) → List (List (FibNode V))
  rehash_loop shift newn ni cur [] = close_chains (newn - ni) cur (λ _. [])
  rehash_loop shift newn ni cur (e ∷ es) =
      let k = fib_hash ipa_hash shift e.prefix - ni in
      close_chains k cur (λ c. rehash_loop shift newn (ni + k) (c ++ (e ∷ [])) es)

  unfoldable pub fib_rehash : Fib V → ℕ → Fib V
  fib_rehash f new =
      let newn = 2 ^ new in
      fib_ht_alloc f new (rehash_loop (16 - new) newn 0 [] (flatten f.hash_table))

  unfoldable pub fib_find : Fib V → ℕ → ℕ → Option (FibNode V)
  fib_find f a len = find_in a len (chain_at f.hash_table (fib_hash ipa_hash f.hash_shift a))

  -- `f->entries++ > f->entries_max` compares the count before.
  unfoldable pub count_up : Fib V → Fib V
  count_up f =
      let f' = record f { entries = (f.entries + 1) % 2 ^ 32 } in
      if ltb f.entries_max f.entries then fib_rehash f' (f.hash_order + hash_hi_step) else f'

  -- The node, the table, and whether the error of too long chains is logged. `debugging` is whether
  -- the daemon is built with DEBUGGING; `bits` is BITS_PER_IP_ADDRESS. A negative `len`
  -- is not modelled.
  unfoldable pub fib_get :
      Bool → ℕ → (ℕ → ℕ → Bool) → (ℕ → ℕ → V) → Fib V → ℕ → ℕ → Res (FibNode V × Fib V × Bool)
  fib_get debugging bits ip_is_prefix init f a len =
      let h = ipa_hash a in
      let i = h / 2 ^ f.hash_shift in
      let chain = chain_at f.hash_table i in
      let pxlen = len % 2 ^ 8 in
      let linked =
        link_node (record { prefix = a; pxlen = pxlen; uid = h * 2 ^ 16; content = init a pxlen })
          chain in
      let e : FibNode V = record {
        prefix = a;
        pxlen = pxlen;
        uid = linked.1;
        content = init a pxlen;
      } in
      elim (find_in a len chain) [
        | some old ↦ ok (old, f, false)
        | none ↦
            if debugging && (ltb bits len || not (ip_is_prefix a len))
            then bug
            else ok (
              e,
              count_up (record f { hash_table = set f.hash_table i linked.0 }),
              not (linked.1 / 2 ^ 16 == h),
            )
      ]

  -- `f->entries-- < f->entries_min` compares the count before; the count wraps at 0.
  unfoldable pub count_down : Fib V → Fib V
  count_down f =
      let f' = record f { entries = (f.entries + (2 ^ 32 - 1)) % 2 ^ 32 } in
      if ltb f.entries f.entries_min then fib_rehash f' (f.hash_order - hash_lo_step) else f'

  -- The node is named by its prefix.
  unfoldable pub fib_delete : Fib V → ℕ → ℕ → Res (Fib V)
  fib_delete f a len =
      let h = fib_hash ipa_hash f.hash_shift a in
      elim (unlink a len (chain_at f.hash_table h)) [
        | none ↦ bug
        | some c ↦ ok (count_down (record f { hash_table = set f.hash_table h c }))
      ]

  -- `while (len >= 0)`; `network a len` is `ipa_and(a, ipa_mkmask(len))`.
  unfoldable pub fib_route : (ℕ → ℕ → ℕ) → Fib V → ℕ → ℕ → Option (FibNode V)
  fib_route network f a zero = fib_find f (network a 0) 0
  fib_route network f a (suc len) =
      let shorter = fib_route network f a len in
      elim (fib_find f (network a (suc len)) (suc len)) [ none ↦ shorter | some e ↦ some e ]
