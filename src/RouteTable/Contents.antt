-- ===== src/RouteTable/Contents.antt =====
-- Which routes the list holds after `rte_recalculate`, in sorted tables and others.
use active_bgp_measurement.Base.{ℕ, ◌+◌, ◌≡◌, ◌++◌, not, List, [], ◌∷◌, Bool, true, false}
use active_bgp_measurement.Base.{
  Option, none, some, if◌then◌else◌, arith, append-nil, Bool-cases, ◌⊎◌, inl, inr, refl, ◌∙◌, ap,
}
use active_bgp_measurement.RouteTable.{
  Rte, better, rte_better, insert, last_of, link_sorted, elect, elect_all, link_best, link,
  with_new, behind_best, head_of,
}

module _ {D : Type 0} (test : Rte D → Bool) where
  -- How many routes pass a test.
  abbrev pub count : List (Rte D) → ℕ
  count [] = 0
  count (r ∷ rs) = (if test r then 1 else 0) + count rs

  abbrev pub count_new : Option (Rte D) → ℕ
  count_new none = 0
  count_new (some n) = if test n then 1 else 0

  pub count-append : (xs ys : List (Rte D)) → count (xs ++ ys) ≡ count xs + count ys
  count-append [] ys = omega arith
  count-append (x ∷ xs) ys = omega (arith, count-append xs ys)

module _ {D : Type 0} (hook : Rte D → Rte D → Bool) (test : Rte D → Bool) where
  count-insert :
      (n : Rte D) (ks : List (Rte D))
      → count test (insert hook n ks) ≡ count_new test (some n) + count test ks
  unfolding insert
  count-insert n [] = refl
  count-insert n (k ∷ ks) = elim (Bool-cases (better hook n k)) [
    | inl y ↦ rw y refl
    | inr n' ↦ rw n' (omega (arith, count-insert n ks))
  ]

  count-link_sorted :
      (had_old : Bool) (before after : List (Rte D)) (n : Rte D)
      → count test (link_sorted hook had_old before after n)
        ≡ count_new test (some n) + count test (before ++ after)
  unfolding link_sorted
  count-link_sorted had_old before after n = placed (if had_old then last_of before else none)
    where
      behind :
          count test (before ++ insert hook n after)
          ≡ count_new test (some n) + count test (before ++ after)
      behind = omega (
        arith,
        count-append test before (insert hook n after),
        count-append test before after,
        count-insert n after,
      )

      placed :
          (b : Option (Rte D))
          → count test (elim b as (λ _. List (Rte D)) [
            | none ↦ insert hook n (before ++ after)
            | some x ↦
                if not (better hook n x)
                then before ++ insert hook n after
                else insert hook n (before ++ after)
          ])
            ≡ count_new test (some n) + count test (before ++ after)
      placed none = count-insert n (before ++ after)
      placed (some x) = elim (Bool-cases (better hook n x)) [
        | inl y ↦ rw y (count-insert n (before ++ after))
        | inr w ↦ rw w behind
      ]

  count-elect :
      (before : List (Rte D)) (best : Rte D) (between rest : List (Rte D))
      → count test (elect hook before best between rest)
        ≡ count test before + count_new test (some best) + count test between + count test rest
  unfolding elect
  count-elect before best between [] = omega (arith, count-append test before between)
  count-elect before best between (k ∷ ks) = elim (Bool-cases (better hook k best)) [
    | inl y ↦ rw y (
        omega (
          arith,
          count-elect (before ++ (best ∷ between)) k [] ks,
          count-append test before (best ∷ between),
        ))
    | inr w ↦ rw w (
        omega (
          arith,
          count-elect before best (between ++ (k ∷ [])) ks,
          count-append test between (k ∷ []),
        ))
  ]

  count-elect_all : (xs : List (Rte D)) → count test (elect_all hook xs) ≡ count test xs
  count-elect_all [] = refl
  count-elect_all (x ∷ xs) = omega (arith, count-elect [] x [] xs)

  count-with_new :
      (new : Option (Rte D)) (xs : List (Rte D))
      → count test (with_new new xs) ≡ count_new test new + count test xs
  count-with_new none xs = omega arith
  count-with_new (some n) xs = refl

  count-behind_best :
      (new : Option (Rte D)) (x : Rte D) (xs : List (Rte D))
      → count test (behind_best new (x ∷ xs)) ≡ count_new test new + count test (x ∷ xs)
  count-behind_best none x xs = omega arith
  count-behind_best (some n) x xs = omega arith

  count-link_best :
      (force old_is_best : Bool) (old_best new : Option (Rte D)) (routes : List (Rte D))
      → (old_is_best ≡ false
          → (new ≡ none) ⊎ (rte_better hook new old_best ≡ false)
          → count test (behind_best new routes) ≡ count_new test new + count test routes)
      → count test (link_best hook force old_best old_is_best routes new)
        ≡ count_new test new + count test routes
  unfolding link_best
  count-link_best true o old_best new routes b =
      count-elect_all (with_new new routes) ∙ count-with_new new routes
  count-link_best false true old_best none routes b =
      count-elect_all routes ∙ count-with_new none routes
  count-link_best false false old_best none routes b = b refl (inl refl)
  count-link_best false o old_best (some n) routes b =
      elim (Bool-cases (rte_better hook (some n) old_best)) [
        | inl y ↦ rw y refl
        | inr w ↦ rw w (placed w o b)
      ]
    where
      placed :
          rte_better hook (some n) old_best ≡ false
          → (o : Bool)
          → (o ≡ false
              → ((some n ≡ none) ⊎ (rte_better hook (some n) old_best ≡ false))
              → count test (behind_best (some n) routes)
                ≡ count_new test (some n) + count test routes)
          → count test (if o then elect_all hook (n ∷ routes) else behind_best (some n) routes)
            ≡ count_new test (some n) + count test routes
      placed w true b = count-elect_all (n ∷ routes)
      placed w false b = b refl (inr w)

module _ {D : Type 0} (hook rte_same : Rte D → Rte D → Bool) (sorted force : Bool)
    (test : Rte D → Bool) where
  pub count-link :
      (old_best : Option (Rte D)) (before after : List (Rte D)) (new : Option (Rte D))
      → count test (link hook rte_same sorted force old_best true before after new)
        ≡ count_new test new + count test (before ++ after)
  unfolding link
  count-link old_best before after new = elim (Bool-cases sorted) [
    | inl y ↦ rw y (in_order new)
    | inr w ↦ rw w (linked before)
  ]
    where
      in_order :
          (new : Option (Rte D))
          → count test (elim new as (λ _. List (Rte D)) [
            | none ↦ before ++ after
            | some n ↦ link_sorted hook true before after n
          ])
            ≡ count_new test new + count test (before ++ after)
      in_order none = omega arith
      in_order (some n) = count-link_sorted hook test true before after n

      linked :
          (before : List (Rte D))
          → count test (
              link_best hook force old_best
                (elim before as (λ _. Bool) [ [] ↦ true | x ∷ xs ↦ false ])
                (before ++ after)
                new)
            ≡ count_new test new + count test (before ++ after)
      linked [] = count-link_best hook test force true old_best new after (λ e _. cc)
      linked (x ∷ xs) =
          count-link_best hook test force false old_best new (x ∷ (xs ++ after))
            (λ _ _. count-behind_best hook test new x (xs ++ after))

  pub count-link_absent :
      (routes : List (Rte D)) (n : Rte D)
      → count test (link hook rte_same sorted force (head_of routes) false routes [] (some n))
        ≡ count_new test (some n) + count test routes
  unfolding link rte_better
  count-link_absent routes n = elim (Bool-cases sorted) [
    | inl y ↦ rw y (
        count-link_sorted hook test false routes [] n
        ∙ ap (λ (l : List (Rte D)). count_new test (some n) + count test l) (append-nil routes))
    | inr w ↦ rw w (rw (append-nil routes) (linked routes))
  ]
    where
      linked :
          (routes : List (Rte D))
          → count test (
              link_best hook force
                (head_of routes)
                (elim routes as (λ _. Bool) [ [] ↦ false | x ∷ xs ↦ false ])
                routes
                (some n))
            ≡ count_new test (some n) + count test routes
      linked [] =
          count-link_best hook test force false none (some n) []
            (λ _. elim [ inl e ↦ cc | inr e ↦ cc ])
      linked (x ∷ xs) =
          count-link_best hook test force false (some x) (some n) (x ∷ xs)
            (λ _ _. count-behind_best hook test (some n) x xs)
