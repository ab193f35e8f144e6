-- ===== src/AsPath/Match/Mask.antt =====
-- Induction on the mask: the loop of `as_path_match` decides `accepts`.
use active_bgp_measurement.Base.{
  ℕ, zero, suc, ◌+◌, ◌-◌, ◌≤◌, ◌<◌, ◌≡◌, refl, ap, sym, ◌∙◌, ◌⊎◌, inl, inr,
}
use active_bgp_measurement.Base.{List, [], ◌∷◌, length, Bool, true, false, arith}
use active_bgp_measurement.Base.{none, some, set, Res, ok, ◌>>=◌, All, Bool-cases, map, length-set}
use active_bgp_measurement.AsPath.Match.{PmVal, is_set, marked, Bounds, step_loop, match_loop}
use active_bgp_measurement.AsPath.Match.{
  MaskItem, pm_asn, pm_question, pm_asterisk, pm_asn_expr, pm_asn_range, item_test, first_only,
}
use active_bgp_measurement.AsPath.Match.Steps.{step_spec, bounds_spec, length-step_spec}
use active_bgp_measurement.AsPath.Match.Bounds.{InBounds, step_spec-InBounds, bounds_spec-le}
use active_bgp_measurement.AsPath.Match.Loop.{step_loop_full}
use active_bgp_measurement.AsPath.Match.Decides.{
  or_marks_empty, or_marks_end, or_marks_none, starred, starred_marks, starred-InBounds,
  length-starred,
}
use active_bgp_measurement.AsPath.Match.Language.{accepts, or_marks, after_step, step_spec-marks}
use active_bgp_measurement.AsPath.Wire.{Unaligned}

marked-set-false : (marks : List Bool) (i : ℕ) → marked (set marks i false) i ≡ false
marked-set-false [] i = refl
marked-set-false (b ∷ marks) zero = refl
marked-set-false (b ∷ marks) (suc i) = marked-set-false marks i

marked-set_other :
    (marks : List Bool) (i j : ℕ) → marked marks j ≡ false → marked (set marks i false) j ≡ false
marked-set_other [] i j h = refl
marked-set_other (b ∷ marks) zero zero h = refl
marked-set_other (b ∷ marks) zero (suc j) h = h
marked-set_other (b ∷ marks) (suc i) zero h = h
marked-set_other (b ∷ marks) (suc i) (suc j) h = marked-set_other marks i j h

module _ (u : Unaligned) (vals : List PmVal) (t : MaskItem → PmVal → Bool) where
  -- The test of an item returns on every position, and answers `t`.
  abbrev pub Agrees : MaskItem → Type 0
  Agrees item = All (λ v. item_test u item v ≡ ok (t item v)) vals

  -- A mask item that was evaluated, and whose test is `t`.
  abbrev pub ItemAgrees : MaskItem → Type 0
  ItemAgrees pm_asterisk = Unit {0}
  ItemAgrees pm_asn_expr = ⊥
  ItemAgrees item = Agrees item

  -- One round of the loop on an item that is a step.
  item_round :
      (item : MaskItem) (acc : List PmVal → Bool) (marks : List Bool) (l h : ℕ)
      (next : List Bool → ℕ → ℕ → Res Bool)
      → Agrees item
      → length marks ≡ suc (length vals)
      → h ≤ length vals
      → InBounds (some (l, h)) marks
      → ((marks' : List Bool) (l' h' : ℕ)
          → length marks' ≡ suc (length vals)
          → h' ≤ length vals
          → InBounds (some (l', h')) marks'
          → next marks' l' h' ≡ ok (or_marks acc vals marks'))
      → (step_loop
            (item_test u item)
            vals
            (length vals)
            l
            (h + 1 - l)
            (set marks (length vals) false)
            none
          >>= λ r. elim r.1 [ none ↦ ok false | some (nl, nh) ↦ next r.0 nl nh ])
        ≡ ok (or_marks (after_step is_set (t item) acc) vals marks)
  item_round item acc marks l h next a n hv i ih =
      rw
        (step_loop_full (item_test u item) (t item) vals cleared l h
          (omega (arith, length-set marks (length vals) false)) (omega (arith, i.1)) i.1 hv
          (λ j lt. marked-set_other marks (length vals) j (outside j (inl lt)))
          (λ j gt. marked-set_other marks (length vals) j (outside j (inr gt)))
          (marked-set-false marks (length vals)) a)
        (go (bounds_spec (t item) vals cleared) refl
            (step_spec-InBounds (t item) vals cleared size (marked-set-false marks (length vals)))
          ∙ ap ok (
              step_spec-marks (t item) acc vals cleared size (marked-set-false marks (length vals))
              ∙ or_marks_end (after_step is_set (t item) acc) vals marks refl))
    where
      cleared : List Bool
      cleared = set marks (length vals) false

      size : length cleared ≡ suc (length vals)
      size = omega (arith, length-set marks (length vals) false, n)

      outside : (j : ℕ) → (j < l) ⊎ (h < j) → marked marks j ≡ false
      outside j o = elim (Bool-cases (marked marks j)) [
        | inl y ↦ absurd (omega (arith, i.2 j y))
        | inr no_mark ↦ no_mark
      ]

      go :
          (b : Bounds)
          → bounds_spec (t item) vals cleared ≡ b
          → InBounds b (step_spec (t item) vals cleared)
          → elim b as (λ x. Res Bool) [
            | none ↦ ok false
            | some (nl, nh) ↦ next (step_spec (t item) vals cleared) nl nh
          ]
            ≡ ok (or_marks acc vals (step_spec (t item) vals cleared))
      go none e c = ap ok (sym (or_marks_none acc vals (step_spec (t item) vals cleared) c))
      go (some (nl, nh)) e c =
          ih (step_spec (t item) vals cleared) nl nh (length-step_spec (t item) vals cleared ∙ size)
            (bounds_spec-le (t item) vals cleared nl nh e) c

  pub match_loop-accepts :
      (mask : List MaskItem) (marks : List Bool) (l h : ℕ)
      → All ItemAgrees mask
      → length marks ≡ suc (length vals)
      → h ≤ length vals
      → InBounds (some (l, h)) marks
      → match_loop u vals (length vals) mask marks l h
        ≡ ok (or_marks (accepts is_set t mask) vals marks)
  unfolding match_loop accepts
  match_loop-accepts [] marks l h a n hv i = ap ok (sym (or_marks_empty vals marks n))
  match_loop-accepts (pm_asterisk ∷ mask) marks l h (a, rest) n hv i =
      match_loop-accepts mask (starred vals marks l h n hv i) l (length vals) rest
        (length-starred vals marks l h n hv i) (omega arith)
        (starred-InBounds vals marks l h n hv i)
      ∙ ap ok (starred_marks vals marks l h n hv i (accepts is_set t mask))
  match_loop-accepts (pm_asn_expr ∷ mask) marks l h (a, rest) n hv i = absurd a
  match_loop-accepts (pm_asn v ∷ mask) marks l h (a, rest) n hv i =
      item_round (pm_asn v) (accepts is_set t mask) marks l h (match_loop u vals (length vals) mask)
        a n hv i (λ marks' l' h'. match_loop-accepts mask marks' l' h' rest)
  match_loop-accepts (pm_question ∷ mask) marks l h (a, rest) n hv i =
      item_round pm_question (accepts is_set t mask) marks l h
        (match_loop u vals (length vals) mask) a n hv i
        (λ marks' l' h'. match_loop-accepts mask marks' l' h' rest)
  match_loop-accepts (pm_asn_range lo hi ∷ mask) marks l h (a, rest) n hv i =
      item_round (pm_asn_range lo hi) (accepts is_set t mask) marks l h
        (match_loop u vals (length vals) mask) a n hv i
        (λ marks' l' h'. match_loop-accepts mask marks' l' h' rest)

  first_only_clear : (vs : List PmVal) (j : ℕ) → marked (map (λ _. false) vs) j ≡ false
  first_only_clear [] j = refl
  first_only_clear (v ∷ vs) zero = refl
  first_only_clear (v ∷ vs) (suc j) = first_only_clear vs j

  first_only_length : (vs : List PmVal) → length (map {B = Bool} (λ _. false) vs) ≡ length vs
  first_only_length [] = refl
  first_only_length (v ∷ vs) = ap suc (first_only_length vs)

  first_only_marks :
      (acc : List PmVal → Bool) (vs : List PmVal) → or_marks acc vs (first_only vs) ≡ acc vs
  first_only_marks acc [] = refl
  first_only_marks acc (v ∷ vs) =
      ground (arith, or_marks_none acc vs (false ∷ map (λ _. false) vs) (first_only_clear (v ∷ vs)))

  -- The whole loop, from the first position marked.
  pub match_first :
      (mask : List MaskItem)
      → All ItemAgrees mask
      → match_loop u vals (length vals) mask (first_only vals) 0 0 ≡ ok (accepts is_set t mask vals)
  match_first mask a =
      match_loop-accepts mask (first_only vals) 0 0 a (ap suc (first_only_length vals))
        (omega arith) (refl, omega arith, only)
      ∙ ap ok (first_only_marks (accepts is_set t mask) vals)
    where
      only : (j : ℕ) → marked (first_only vals) j ≡ true → (0 ≤ j) × (j ≤ 0)
      only zero m = omega arith
      only (suc j) m = cc (first_only_clear vals j)
