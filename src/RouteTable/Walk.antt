-- ===== src/RouteTable/Walk.antt =====
-- What `find_old` finds: the walk for the old route of a source in `rte_recalculate`.
use active_bgp_measurement.Base.{ℕ, ◌≡◌, ◌++◌, List, [], ◌∷◌, Bool, true, false, All, All-append}
use active_bgp_measurement.Base.{
  Option, none, some, ◌==◌, append-nil, append_assoc, Bool-cases, inl, inr, refl,
}
use active_bgp_measurement.RouteTable.{Rte, Search, collision, unchanged, removed, absent, find_old}

-- What the walk found splits the list.
abbrev pub Splits : {D : Type 0} → ℕ → List (Rte D) → Search D → Type 0
Splits src routes collision = Unit {0}
Splits src routes unchanged = Unit {0}
Splits src routes absent = All (λ r. (r.src == src) ≡ false) routes
Splits src routes (removed before old after) =
    (before ++ (old ∷ after) ≡ routes) × ((old.src == src) ≡ true)

module _ {D : Type 0} (rte_same : Rte D → Rte D → Bool) (src p : ℕ) (new : Option (Rte D)) where
  find_old-from :
      (before rest : List (Rte D))
      → All (λ r. (r.src == src) ≡ false) before
      → Splits src (before ++ rest) (find_old rte_same src p new before rest)
  unfolding find_old
  find_old-from before [] h = rw (append-nil before) h
  find_old-from before (r ∷ rest) h = elim (Bool-cases (r.src == src)) [
    | inl y ↦ elim (Bool-cases (r.sender == p)) [
      | inl q ↦ elim (Bool-cases (elim new [ none ↦ false | some n ↦ rte_same r n ])) [
        | inl s ↦ rw (y, q, s) tt
        | inr d ↦ rw (y, q, d) (refl, y)
      ]
      | inr q ↦ rw (y, q) tt
    ]
    | inr other ↦ rw other (
        rw⁻¹ (append_assoc before (r ∷ []) rest) (
          find_old-from (before ++ (r ∷ [])) rest
            (All-append (λ (x : Rte D). (x.src == src) ≡ false) before (r ∷ []) h (other, tt))))
  ]

  pub find_old-Splits :
      (routes : List (Rte D)) → Splits src routes (find_old rte_same src p new [] routes)
  find_old-Splits routes = find_old-from [] routes tt
