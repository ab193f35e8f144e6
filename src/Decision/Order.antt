-- ===== src/Decision/Order.antt =====
-- The decision process as an order: `bgp_rte_better` never prefers both of two routes to each
-- other, and where MEDs are always compared it is transitive.
use active_bgp_measurement.Base.{ℕ, ◌≡◌, Bool, true, false, arith}
use active_bgp_measurement.Base.{Res, ok, bug, fault, out_of_fuel, ◌>>=◌, if◌then◌else◌, refl}
use active_bgp_measurement.AsPath.Wire.{Unaligned}
use active_bgp_measurement.Decision.{
  BgpRte, pref_of, origin_of, med_of, cost_of, id_of, path_len, list_size, smaller, rte_resolvable,
}
use active_bgp_measurement.Decision.{
  tie_break, after_med, same_neighbor, compare_med, after_origin, after_length, by_length,
  after_pref, bgp_rte_better, bgp_get_neighbor,
}

smaller-swap :
    (n o : ℕ) (r r' : Res Bool)
    → (n ≡ o → r ≡ ok true → r' ≡ ok false)
    → smaller n o r ≡ ok true
    → smaller o n r' ≡ ok false
smaller-swap n o r r' next h = ground arith

smaller-chain :
    (n o m : ℕ) (r r' r'' : Res Bool)
    → (n ≡ o → o ≡ m → r ≡ ok true → r' ≡ ok true → r'' ≡ ok true)
    → smaller n o r ≡ ok true
    → smaller o m r' ≡ ok true
    → smaller n m r'' ≡ ok true
smaller-chain n o m r r' r'' next h k = ground arith

smaller-chain' :
    (n o m : ℕ) (r r' r'' : Res Bool)
    → (n ≡ o → o ≡ m → r ≡ ok true → r' ≡ ok true → r'' ≡ ok true)
    → smaller o n r ≡ ok true
    → smaller m o r' ≡ ok true
    → smaller m n r'' ≡ ok true
smaller-chain' n o m r r' r'' next h k = ground arith

-- A result that is returned came from a value.
pub bind_then :
    {A B : Type 0} {C : Type 0} (r : Res A) (f : A → Res B) (b : B)
    → (r >>= f) ≡ ok b
    → ((a : A) → r ≡ ok a → f a ≡ ok b → C)
    → C
bind_then (ok a) f b h next = next a refl h
bind_then bug f b h next = absurd (cc)
bind_then fault f b h next = absurd (cc)
bind_then out_of_fuel f b h next = absurd (cc)

module _ (u : Unaligned) where
  same_neighbor_comm :
      (a b : BgpRte) (r : Bool) → same_neighbor u a b ≡ ok r → same_neighbor u b a ≡ ok r
  unfolding same_neighbor
  same_neighbor_comm a b r h = bind_then (bgp_get_neighbor u a) _ r h (λ n e h'.
      bind_then (bgp_get_neighbor u b) _ r h' (λ o e' h''. rw (e, e') (ground (arith, h''))))

  pub compare_med_comm :
      (a b : BgpRte) (r : Bool) → compare_med u a b ≡ ok r → compare_med u b a ≡ ok r
  unfolding compare_med
  compare_med_comm a b r h = ground (arith, same_neighbor_comm a b r)

module _ (u : Unaligned) (ip_less : ℕ → ℕ → Bool)
    (asym : (a b : ℕ) → ip_less a b ≡ true → ip_less b a ≡ false) where
  tie_break-swap :
      (a b : BgpRte)
      → a.proto.is_internal ≡ b.proto.is_internal
      → tie_break u ip_less a b ≡ ok true
      → tie_break u ip_less b a ≡ ok false
  unfolding tie_break
  tie_break-swap a b e h = ground (arith, asym a.proto.remote_ip b.proto.remote_ip)

  after_med-swap :
      (a b : BgpRte) → after_med u ip_less a b ≡ ok true → after_med u ip_less b a ≡ ok false
  unfolding after_med
  after_med-swap a b =
      smaller-swap a.proto.is_internal b.proto.is_internal _ _
        (λ e. smaller-swap (cost_of a) (cost_of b) _ _ (λ _. tie_break-swap a b e))

  after_origin-swap :
      (a b : BgpRte) → after_origin u ip_less a b ≡ ok true → after_origin u ip_less b a ≡ ok false
  unfolding after_origin
  after_origin-swap a b h =
      bind_then (compare_med u a b) _ true h
        (λ c e k. rw (compare_med_comm u a b c e) (swapped c k))
    where
      swapped :
          (c : Bool)
          → (if c
              then smaller (med_of a) (med_of b) (after_med u ip_less a b)
              else after_med u ip_less a b)
            ≡ ok true
          → (if c
              then smaller (med_of b) (med_of a) (after_med u ip_less b a)
              else after_med u ip_less b a)
            ≡ ok false
      swapped true = smaller-swap (med_of a) (med_of b) _ _ (λ _. after_med-swap a b)
      swapped false = after_med-swap a b

  after_length-swap :
      (a b : BgpRte) → after_length u ip_less a b ≡ ok true → after_length u ip_less b a ≡ ok false
  unfolding after_length
  after_length-swap a b = smaller-swap (origin_of a) (origin_of b) _ _ (λ _. after_origin-swap a b)

  by_length-swap :
      (a b : BgpRte) → by_length u ip_less a b ≡ ok true → by_length u ip_less b a ≡ ok false
  unfolding by_length
  by_length-swap a b h = bind_then (path_len a) _ true h (λ n e h'.
      bind_then (path_len b) _ true h'
        (λ o e' h''. rw (e, e') (smaller-swap n o _ _ (λ _. after_length-swap a b) h'')))

  after_pref-swap :
      (a b : BgpRte) → after_pref u ip_less a b ≡ ok true → after_pref u ip_less b a ≡ ok false
  unfolding after_pref
  after_pref-swap a b h = ground (arith, by_length-swap a b, after_length-swap a b)

  -- If `ip_less` never holds both ways: where `bgp_rte_better` answers that the first of two routes
  -- is better, the comparison the other way round returns, and says no.
  pub bgp_rte_better-swap :
      (a b : BgpRte)
      → bgp_rte_better u ip_less a b ≡ ok true
      → bgp_rte_better u ip_less b a ≡ ok false
  unfolding bgp_rte_better
  bgp_rte_better-swap a b = smaller-swap a.suppressed b.suppressed _ _ (λ _.
      smaller-swap (rte_resolvable b) (rte_resolvable a) _ _
        (λ _. smaller-swap (pref_of b) (pref_of a) _ _ (λ _. after_pref-swap a b)))

-- The protocols of the routes always compare MEDs, never prefer older routes, and agree on whether
-- path lengths count.
pub record IsPlain (lengths : Bool) (r : BgpRte) : Type 0 where
  pub med_always : r.proto.med_metric ≡ true
  pub no_older : r.proto.prefer_older ≡ false
  pub same_lengths : r.proto.compare_path_lengths ≡ lengths

module _ (u : Unaligned) (ip_less : ℕ → ℕ → Bool)
    (trans : (a b c : ℕ) → ip_less a b ≡ true → ip_less b c ≡ true → ip_less a c ≡ true)
    (lengths : Bool) (a b c : BgpRte) (pa : IsPlain lengths a) (pb : IsPlain lengths b)
    (pc : IsPlain lengths c) where
  tie_break-chain :
      tie_break u ip_less a b ≡ ok true
      → tie_break u ip_less b c ≡ ok true
      → tie_break u ip_less a c ≡ ok true
  unfolding tie_break
  tie_break-chain =
      rw (pa.no_older, pb.no_older, pc.no_older)
        (smaller-chain (id_of a) (id_of b) (id_of c) _ _ _ (λ _ _.
          smaller-chain (list_size a.cluster_list) (list_size b.cluster_list)
            (list_size c.cluster_list) _ _ _
            (λ _ _ h k.
              ground (arith, trans a.proto.remote_ip b.proto.remote_ip c.proto.remote_ip, h, k))))

  after_med-chain :
      after_med u ip_less a b ≡ ok true
      → after_med u ip_less b c ≡ ok true
      → after_med u ip_less a c ≡ ok true
  unfolding after_med
  after_med-chain =
      smaller-chain a.proto.is_internal b.proto.is_internal c.proto.is_internal _ _ _
        (λ _ _. smaller-chain (cost_of a) (cost_of b) (cost_of c) _ _ _ (λ _ _. tie_break-chain))

  after_length-chain :
      after_length u ip_less a b ≡ ok true
      → after_length u ip_less b c ≡ ok true
      → after_length u ip_less a c ≡ ok true
  unfolding after_length after_origin compare_med after_med tie_break
  after_length-chain =
      rw (pa.med_always, pb.med_always)
        (smaller-chain (origin_of a) (origin_of b) (origin_of c) _ _ _
          (λ _ _. smaller-chain (med_of a) (med_of b) (med_of c) _ _ _ (λ _ _. after_med-chain)))

  by_length-chain :
      by_length u ip_less a b ≡ ok true
      → by_length u ip_less b c ≡ ok true
      → by_length u ip_less a c ≡ ok true
  unfolding by_length
  by_length-chain h k = bind_then (path_len a) _ true h (λ n e h'.
      bind_then (path_len b) _ true h' (λ o e' h''. bind_then (path_len b) _ true k (λ o' d k'.
        bind_then (path_len c) _ true k' (λ m d' k''.
          rw (e, d')
            (smaller-chain n o m _ _ _ (λ _ _. after_length-chain) h''
              (ground (arith, e', d, k'')))))))

  after_pref-chain :
      after_pref u ip_less a b ≡ ok true
      → after_pref u ip_less b c ≡ ok true
      → after_pref u ip_less a c ≡ ok true
  unfolding after_pref
  after_pref-chain =
      rw (pa.same_lengths, pb.same_lengths, pc.same_lengths)
        (ground (arith, by_length-chain, after_length-chain))

  -- Among routes of protocols that always compare MEDs, never prefer older routes and agree on
  -- whether path lengths count, `bgp_rte_better` is transitive, if `ip_less` is.
  pub bgp_rte_better_trans :
      bgp_rte_better u ip_less a b ≡ ok true
      → bgp_rte_better u ip_less b c ≡ ok true
      → bgp_rte_better u ip_less a c ≡ ok true
  unfolding bgp_rte_better
  bgp_rte_better_trans = smaller-chain a.suppressed b.suppressed c.suppressed _ _ _ (λ _ _.
      smaller-chain' (rte_resolvable a) (rte_resolvable b) (rte_resolvable c) _ _ _
        (λ _ _. smaller-chain' (pref_of a) (pref_of b) (pref_of c) _ _ _ (λ _ _. after_pref-chain)))
