-- ===== src/RouteTable/Bgp.antt =====
-- The BGP decision process as the `rte_better` hook of the routing table.
use active_bgp_measurement.Base.{
  ℕ, ◌≡◌, ◌&&◌, ◌||◌, ◌==◌, not, ltb, List, [], ◌∷◌, All, All-weaken, Option, arith, Bool, true,
  false, Res, ok, bug, fault, out_of_fuel, refl, sym, ◌∙◌, Bool-cases, inl, inr,
}
use active_bgp_measurement.AsPath.Wire.{Unaligned}
use active_bgp_measurement.Decision.{BgpRte, bgp_rte_better}
use active_bgp_measurement.Decision.Order.{IsPlain, bgp_rte_better-swap, bgp_rte_better_trans}
use active_bgp_measurement.RouteTable.{Rte, better, rte_recalculate}
use active_bgp_measurement.RouteTable.Best.{
  IsOrder, IsBestFirst, beats, rte_recalculate-IsBestFirst,
}

-- A BGP route whose protocol always compares MEDs, never prefers older routes, and counts path
-- lengths or not, as the others.
pub record PlainRte (lengths : Bool) : Type 0 where
  pub route : BgpRte
  pub plain : IsPlain lengths route

-- A route that its source announces, or withdraws (`none`), and the answer of the `rte_recalculate`
-- hook.
pub record Update (lengths : Bool) : Type 0 where
  pub src : ℕ
  pub sender : ℕ
  pub new : Option (Rte (PlainRte lengths))
  pub force : Bool

-- A C condition on the result.
abbrev pub holds : Res Bool → Bool
holds (ok b) = b
holds _ = false

holds_ok : (r : Res Bool) → holds r ≡ true → r ≡ ok true
holds_ok (ok true) h = refl
holds_ok (ok false) h = cc
holds_ok bug h = cc
holds_ok fault h = cc
holds_ok out_of_fuel h = cc

module _ (u : Unaligned) (ip_less : ℕ → ℕ → Bool) (lengths : Bool) where
  -- `bgp_rte_better` on the routes of a table.
  unfoldable pub bgp_hook : Rte (PlainRte lengths) → Rte (PlainRte lengths) → Bool
  bgp_hook new old = holds (bgp_rte_better u ip_less new.attrs.route old.attrs.route)

  -- The order that the table wants of its hook.
  pub bgp_hook-IsOrder :
      ((a b : ℕ) → ip_less a b ≡ true → ip_less b a ≡ false)
      → ((a b c : ℕ) → ip_less a b ≡ true → ip_less b c ≡ true → ip_less a c ≡ true)
      → IsOrder bgp_hook
  unfolding bgp_hook
  bgp_hook-IsOrder asym trans = record {
    irrefl = λ a. elim (Bool-cases (holds (bgp_rte_better u ip_less a.attrs.route a.attrs.route))) [
      | inl y ↦ absurd (
          differ (
            sym (holds_ok _ y)
            ∙ bgp_rte_better-swap u ip_less asym a.attrs.route a.attrs.route (holds_ok _ y)))
      | inr n ↦ n
    ];
    trans = λ a b c h k.
        rw
          (bgp_rte_better_trans u ip_less trans lengths a.attrs.route b.attrs.route c.attrs.route
            a.attrs.plain b.attrs.plain c.attrs.plain (holds_ok _ h) (holds_ok _ k))
          refl;
  }
    where
      differ : ok true ≡ ok false → ⊥
      differ e = cc

  -- `r` is to be chosen over `x`: it is valid, and `x` is filtered, or less preferred, or, among equally
  -- preferred ones, of a type of protocol with a lower address, or worse by the decision process.
  abbrev pub chosen_over : Rte (PlainRte lengths) → Rte (PlainRte lengths) → Bool
  chosen_over r x =
      not r.is_filtered
      && (x.is_filtered
          || (ltb x.pref r.pref
              || (r.pref == x.pref
                  && (ltb x.proto r.proto
                      || (r.proto == x.proto
                          && holds (bgp_rte_better u ip_less r.attrs.route x.attrs.route))))))

  -- No route is to be chosen over the first.
  abbrev pub IsChosen : List (Rte (PlainRte lengths)) → Type 0
  IsChosen [] = Unit {0}
  IsChosen (x ∷ xs) = All (λ r. chosen_over r x ≡ false) xs

  chosen_over-beats : (r x : Rte (PlainRte lengths)) → beats bgp_hook r x ≡ chosen_over r x
  unfolding beats better bgp_hook
  chosen_over-beats r x = ground arith

  IsChosen-IsBestFirst :
      (routes : List (Rte (PlainRte lengths))) → IsBestFirst bgp_hook routes → IsChosen routes
  IsChosen-IsBestFirst [] h = tt
  IsChosen-IsBestFirst (x ∷ xs) h = All-weaken _ _ xs (λ r b. sym (chosen_over-beats r x) ∙ b) h

  -- Announcements and withdrawals, one after another, in a table that is not sorted.
  unfoldable pub rte_updates :
      (Rte (PlainRte lengths) → Rte (PlainRte lengths) → Bool)
      → List (Update lengths)
      → List (Rte (PlainRte lengths))
      → List (Rte (PlainRte lengths))
  rte_updates rte_same [] routes = routes
  rte_updates rte_same (e ∷ es) routes =
      rte_updates rte_same es
        (rte_recalculate bgp_hook rte_same false e.force e.src e.sender e.new routes)

  updates-IsBestFirst :
      (rte_same : Rte (PlainRte lengths) → Rte (PlainRte lengths) → Bool)
      → IsOrder bgp_hook
      → (es : List (Update lengths)) (routes : List (Rte (PlainRte lengths)))
      → IsBestFirst bgp_hook routes
      → IsBestFirst bgp_hook (rte_updates rte_same es routes)
  unfolding rte_updates
  updates-IsBestFirst rte_same order [] routes h = h
  updates-IsBestFirst rte_same order (e ∷ es) routes h =
      updates-IsBestFirst rte_same order es
        (rte_recalculate bgp_hook rte_same false e.force e.src e.sender e.new routes)
        (rte_recalculate-IsBestFirst bgp_hook rte_same e.force order e.src e.sender e.new routes h)

  -- If `ip_less` is asymmetric and transitive: after any sequence of announcements and withdrawals of
  -- BGP routes for a network in a table that is not sorted, whose protocols always compare MEDs, never
  -- prefer older routes and agree on whether path lengths count, no route of the network is to be
  -- chosen over the first, by its filtering, its preference, its type of protocol and, for routes
  -- that agree in these, by `bgp_rte_better` of the route and the first.
  pub rte_updates-IsChosen :
      ((a b : ℕ) → ip_less a b ≡ true → ip_less b a ≡ false)
      → ((a b c : ℕ) → ip_less a b ≡ true → ip_less b c ≡ true → ip_less a c ≡ true)
      → (rte_same : Rte (PlainRte lengths) → Rte (PlainRte lengths) → Bool)
        (es : List (Update lengths))
      → IsChosen (rte_updates rte_same es [])
  rte_updates-IsChosen asym trans rte_same es =
      IsChosen-IsBestFirst (rte_updates rte_same es [])
        (updates-IsBestFirst rte_same (bgp_hook-IsOrder asym trans) es [] tt)
