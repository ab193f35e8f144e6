-- ===== src/AsPath/Match/Language.antt =====
-- Which paths a mask accepts, by recursion on the mask, and that one step of the marks follows it.
use active_bgp_measurement.Base.{suc, ◌≡◌, ◌&&◌, ◌||◌, refl}
use active_bgp_measurement.Base.{List, [], ◌∷◌, length, Bool, true, false, arith, if◌then◌else◌}
use active_bgp_measurement.AsPath.Match.{PmVal, is_set, marked, MaskItem}
use active_bgp_measurement.AsPath.Match.{pm_asterisk}
use active_bgp_measurement.AsPath.Match.Steps.{run_spec, step_spec, length-step_spec}

-- Over any kind of position: `set` says which positions are AS sets.
module _ {V : Type 0} (is_any : V → Bool) where
  -- Behind a position, any number of sets may be passed over.
  abbrev pub skip_any : (List V → Bool) → List V → Bool
  skip_any acc [] = acc []
  skip_any acc (v ∷ vs) = acc (v ∷ vs) || (is_any v && skip_any acc vs)

  -- An item that the first position matches: go on behind it, or stay if it is a set.
  abbrev pub after_step : (V → Bool) → (List V → Bool) → List V → Bool
  after_step t acc [] = false
  after_step t acc (v ∷ vs) = t v && (skip_any acc vs || (is_any v && acc (v ∷ vs)))

  abbrev pub any_suffix : (List V → Bool) → List V → Bool
  any_suffix acc [] = acc []
  any_suffix acc (v ∷ vs) = acc (v ∷ vs) || any_suffix acc vs

  abbrev pub is_empty : List V → Bool
  is_empty [] = true
  is_empty (v ∷ vs) = false

  -- The mask matches the whole path from its first position on.
  unfoldable pub accepts : (MaskItem → V → Bool) → List MaskItem → List V → Bool
  accepts t [] vs = is_empty vs
  accepts t (pm_asterisk ∷ mask) vs = any_suffix (accepts t mask) vs
  accepts t (item ∷ mask) vs = after_step (t item) (accepts t mask) vs

-- Some marked position is accepted.
abbrev pub or_marks : (List PmVal → Bool) → List PmVal → List Bool → Bool
or_marks acc vs [] = false
or_marks acc [] (b ∷ bs) = b && acc []
or_marks acc (v ∷ vs) (b ∷ bs) = (b && acc (v ∷ vs)) || or_marks acc vs bs

abbrev head_mark : List Bool → Bool
head_mark [] = false
head_mark (b ∷ bs) = b

-- Behind a marked set the next position is marked.
abbrev IsClosed : List PmVal → List Bool → Type 0
IsClosed vs [] = Unit {0}
IsClosed [] (b ∷ bs) = Unit {0}
IsClosed (v ∷ vs) (b ∷ bs) = ((b && is_set v) ≡ true → head_mark bs ≡ true) × IsClosed vs bs

closed_skip :
    (acc : List PmVal → Bool) (vs : List PmVal) (bs : List Bool)
    → IsClosed vs bs
    → head_mark bs ≡ true
    → (or_marks acc vs bs || skip_any is_set acc vs) ≡ or_marks acc vs bs
closed_skip acc vs [] c h = cc
closed_skip acc [] (b ∷ bs) c h = ground arith
closed_skip acc (v ∷ vs) (b ∷ bs) (c, cs) h = ground (arith, closed_skip acc vs bs cs)

run_spec-marks :
    (acc : List PmVal → Bool) (vs : List PmVal) (bs : List Bool)
    → IsClosed vs bs
    → length bs ≡ suc (length vs)
    → or_marks acc vs (run_spec vs bs) ≡ (or_marks acc vs bs || skip_any is_set acc vs)
unfolding run_spec
run_spec-marks acc vs [] c n = absurd (omega arith)
run_spec-marks acc [] (b ∷ bs) c n = ground arith
run_spec-marks acc (v ∷ vs) (b ∷ bs) (c, cs) n =
    ground (arith, run_spec-marks acc vs bs cs, closed_skip acc vs bs cs)

run_spec-head :
    (vs : List PmVal) (b : Bool) (bs : List Bool) → head_mark (run_spec vs (b ∷ bs)) ≡ true
unfolding run_spec
run_spec-head [] b bs = refl
run_spec-head (v ∷ vs) b bs = ground arith

run_spec-IsClosed :
    (vs : List PmVal) (bs : List Bool)
    → IsClosed vs bs
    → length bs ≡ suc (length vs)
    → IsClosed vs (run_spec vs bs)
unfolding run_spec
run_spec-IsClosed vs [] c n = c
run_spec-IsClosed [] (b ∷ bs) c n = tt
run_spec-IsClosed (v ∷ vs) (b ∷ []) (c, cs) n = absurd (omega arith)
run_spec-IsClosed (v ∷ vs) (b ∷ b' ∷ bs) (c, cs) n =
    ground (arith, run_spec-IsClosed vs (b' ∷ bs) cs (omega arith), run_spec-head vs b' bs)

module _ (t : PmVal → Bool) where
  step_spec-IsClosed :
      (vs : List PmVal) (bs : List Bool)
      → length bs ≡ suc (length vs)
      → IsClosed vs (step_spec t vs bs)
  unfolding step_spec
  step_spec-IsClosed vs [] n = absurd (omega arith)
  step_spec-IsClosed [] (b ∷ bs) n = tt
  step_spec-IsClosed (v ∷ vs) (b ∷ bs) n =
      closed_cons (step_spec t vs bs) (step_spec-IsClosed vs bs (omega arith))
        (length-step_spec t vs bs)
    where
      closed_cons :
          (rest : List Bool)
          → IsClosed vs rest
          → length rest ≡ length bs
          → IsClosed (v ∷ vs) (if b && t v then is_set v ∷ run_spec vs rest else false ∷ rest)
      closed_cons [] c e = absurd (omega arith)
      closed_cons (r ∷ rest) c e =
          ground (arith, run_spec-IsClosed vs (r ∷ rest) c (omega arith), run_spec-head vs r rest)

  -- A position is accepted behind the item exactly if some mark after the step is.
  pub step_spec-marks :
      (acc : List PmVal → Bool) (vs : List PmVal) (bs : List Bool)
      → length bs ≡ suc (length vs)
      → marked bs (length vs) ≡ false
      → or_marks acc vs (step_spec t vs bs) ≡ or_marks (after_step is_set t acc) vs bs
  unfolding step_spec
  step_spec-marks acc vs [] n h = absurd (omega arith)
  step_spec-marks acc [] (b ∷ bs) n h = ground arith
  step_spec-marks acc (v ∷ vs) (b ∷ bs) n h =
      let rest = step_spec t vs bs in
      ground (
        arith,
        step_spec-marks acc vs bs (omega arith) h,
        run_spec-marks acc vs rest (step_spec-IsClosed vs bs (omega arith))
            (omega (arith, length-step_spec t vs bs)),
      )
