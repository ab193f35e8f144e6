-- ===== src/AsPath/Match/Bounds.antt =====
-- The interval `l` to `h` of `as_path_match`: it holds all marks, and `l` is marked.
use active_bgp_measurement.Base.{
  ℕ, zero, suc, ◌+◌, ◌-◌, ◌≤◌, ◌<◌, ◌≡◌, ◌&&◌, refl, sym, ◌⊎◌, inl, inr,
}
use active_bgp_measurement.Base.{
  List, [], ◌∷◌, ◌++◌, length, Bool, true, false, arith, if◌then◌else◌,
}
use active_bgp_measurement.Base.{none, some, All, Bool-cases}
use active_bgp_measurement.AsPath.Match.{PmVal, sp, asn, is_set, marked, Bounds}
use active_bgp_measurement.AsPath.Match.Steps.{run_spec, run_length, step_spec, length-step_spec}
use active_bgp_measurement.AsPath.Match.Steps.{bounds_spec, shift}

abbrev pub InBounds : Bounds → List Bool → Type 0
InBounds none bs = (j : ℕ) → marked bs j ≡ false
InBounds (some (l, h)) bs =
    (marked bs l ≡ true) × (l ≤ h) × ((j : ℕ) → marked bs j ≡ true → (l ≤ j) × (j ≤ h))

-- `mark_run` stops at the first mark at the latest, and adds marks up to there only.
run_length-le :
    (vs : List PmVal) (bs : List Bool) (j : ℕ) → marked bs j ≡ true → run_length vs bs ≤ j
unfolding run_length
run_length-le vs [] j h = omega arith
run_length-le [] (b ∷ bs) j h = omega arith
run_length-le (v ∷ vs) (b ∷ bs) zero h = ground arith
run_length-le (v ∷ vs) (b ∷ bs) (suc j) h = ground (arith, run_length-le vs bs j)

run_spec-marked :
    (vs : List PmVal) (bs : List Bool) (j : ℕ)
    → marked (run_spec vs bs) j ≡ true
    → (marked bs j ≡ true) ⊎ (j ≤ run_length vs bs)
unfolding run_spec run_length
run_spec-marked vs [] j h = inl h
run_spec-marked [] (b ∷ bs) zero h = inr (omega arith)
run_spec-marked [] (b ∷ bs) (suc j) h = inl h
run_spec-marked (v ∷ vs) (b ∷ bs) zero h = inr (omega arith)
run_spec-marked (v ∷ vs) (b ∷ bs) (suc j) h = ground (arith, run_spec-marked vs bs j)

run_spec-marked_head :
    (vs : List PmVal) (b : Bool) (bs : List Bool) → marked (run_spec vs (b ∷ bs)) 0 ≡ true
unfolding run_spec
run_spec-marked_head [] b bs = refl
run_spec-marked_head (v ∷ vs) b bs = ground arith

InBounds-cons :
    (bounds : Bounds) (bs : List Bool) → InBounds bounds bs → InBounds (shift 1 bounds) (false ∷ bs)
InBounds-cons none bs i = outside
  where
    outside : (j : ℕ) → marked (false ∷ bs) j ≡ false
    outside zero = refl
    outside (suc j) = i j
InBounds-cons (some (l, h)) bs (m, le, i) = (ground (arith, m), omega arith, within)
  where
    within : (j : ℕ) → marked (false ∷ bs) j ≡ true → (1 + l ≤ j) × (j ≤ 1 + h)
    within zero e = cc
    within (suc j) e = ground (arith, i j e)

abbrev low : PmVal → ℕ
low v = if is_set v then 0 else 1

low-marked :
    (v : PmVal) (vs : List PmVal) (b : Bool) (bs : List Bool)
    → marked (is_set v ∷ run_spec vs (b ∷ bs)) (low v) ≡ true
low-marked (sp p) vs b bs = refl
low-marked (asn a) vs b bs = run_spec-marked_head vs b bs

run_within :
    (v : PmVal) (vs : List PmVal) (bs : List Bool) (top j : ℕ)
    → run_length vs bs ≤ top
    → (marked bs (j - 1) ≡ true → j ≤ suc top)
    → marked (is_set v ∷ run_spec vs bs) j ≡ true
    → (low v ≤ j) × (j ≤ suc top)
run_within v vs bs top zero r k h = ground arith
run_within v vs bs top (suc j) r k h =
    let same : suc j - 1 ≡ j = omega arith in
    let k' = rw same at k in ground (arith, run_spec-marked vs bs j h, k')

-- The new marks behind a step from the head of the lists.
InBounds-run :
    (v : PmVal) (vs : List PmVal) (bounds : Bounds) (b : Bool) (bs : List Bool)
    → InBounds bounds (b ∷ bs)
    → InBounds
        (elim bounds [
          | none ↦ some (low v, suc (run_length vs (b ∷ bs)))
          | some (l, h) ↦ some (low v, suc h)
        ])
        (is_set v ∷ run_spec vs (b ∷ bs))
InBounds-run v vs none b bs i = (
  low-marked v vs b bs,
  ground arith,
  λ j. run_within v vs (b ∷ bs) (run_length vs (b ∷ bs)) j (omega arith) (λ k. cc (i (j - 1))),
)
InBounds-run v vs (some (l, h)) b bs (m, le, i) = (
  low-marked v vs b bs,
  ground arith,
  λ j.
      run_within v vs (b ∷ bs) h j (omega (arith, run_length-le vs (b ∷ bs) l m))
        (λ k. omega (arith, i (j - 1) k)),
)

module _ (t : PmVal → Bool) where
  -- The bounds that the loop computes hold all new marks, and the lower one is marked.
  pub step_spec-InBounds :
      (vs : List PmVal) (bs : List Bool)
      → length bs ≡ suc (length vs)
      → marked bs (length vs) ≡ false
      → InBounds (bounds_spec t vs bs) (step_spec t vs bs)
  unfolding step_spec bounds_spec
  step_spec-InBounds vs [] n h = absurd (omega arith)
  step_spec-InBounds [] (b ∷ []) n h = only
    where
      only : (j : ℕ) → marked (b ∷ []) j ≡ false
      only zero = h
      only (suc j) = refl
  step_spec-InBounds [] (b ∷ b' ∷ bs) n h = absurd (omega arith)
  step_spec-InBounds (v ∷ vs) (b ∷ bs) n h =
      let below = step_spec-InBounds vs bs (omega arith) h in
      elim (Bool-cases (b && t v)) [
        | inl y ↦ rw y (
            run (bounds_spec t vs bs) (step_spec t vs bs) (omega (arith, length-step_spec t vs bs))
              below)
        | inr y ↦ rw y (InBounds-cons (bounds_spec t vs bs) (step_spec t vs bs) below)
      ]
    where
      run :
          (bounds : Bounds) (rest : List Bool)
          → 0 < length rest
          → InBounds bounds rest
          → InBounds
              (elim bounds [
                | none ↦ some (low v, suc (run_length vs rest))
                | some (l, k) ↦ some (low v, suc k)
              ])
              (is_set v ∷ run_spec vs rest)
      run bounds [] e i = absurd (omega arith)
      run bounds (c ∷ cs) e i = InBounds-run v vs bounds c cs i

  run_length-le-length : (vs : List PmVal) (bs : List Bool) → run_length vs bs ≤ length vs
  unfolding run_length
  run_length-le-length vs [] = omega arith
  run_length-le-length [] (b ∷ bs) = omega arith
  run_length-le-length (v ∷ vs) (b ∷ bs) = ground (arith, run_length-le-length vs bs)

  -- The upper bound is a position of the path or the one behind it.
  pub bounds_spec-le :
      (vs : List PmVal) (bs : List Bool) (l h : ℕ)
      → bounds_spec t vs bs ≡ some (l, h)
      → h ≤ length vs
  unfolding bounds_spec
  bounds_spec-le vs [] l h e = cc
  bounds_spec-le [] (b ∷ bs) l h e = cc
  bounds_spec-le (v ∷ vs) (b ∷ bs) l h e = go (bounds_spec t vs bs) (bounds_spec-le vs bs) e
    where
      run : ℕ
      run = run_length vs (step_spec t vs bs)

      go :
          (rest : Bounds)
          → ((l' h' : ℕ) → rest ≡ some (l', h') → h' ≤ length vs)
          → (if b && t v
              then (elim rest [
                | none ↦ some (low v, suc run)
                | some (l', h') ↦ some (low v, suc h')
              ])
              else shift 1 rest)
            ≡ some (l, h)
          → h ≤ suc (length vs)
      go none below q = ground (arith, run_length-le-length vs (step_spec t vs bs))
      go (some (l', h')) below q = ground (arith, below l' h' refl)

-- Positions in front of the first mark are left alone.
abbrev pub AllClear : List Bool → Type 0
AllClear bs = All (λ b. b ≡ false) bs

shift_zero : (bounds : Bounds) → shift 0 bounds ≡ bounds
shift_zero none = refl
shift_zero (some (l, h)) = ground arith

shift-shift : (n : ℕ) (bounds : Bounds) → shift 1 (shift n bounds) ≡ shift (suc n) bounds
shift-shift n none = refl
shift-shift n (some (l, h)) = ground arith

pub step_spec-clear :
    (t : PmVal → Bool) (pv vs : List PmVal) (pm bs : List Bool)
    → AllClear pm
    → length pv ≡ length pm
    → (step_spec t (pv ++ vs) (pm ++ bs) ≡ pm ++ step_spec t vs bs)
      × (bounds_spec t (pv ++ vs) (pm ++ bs) ≡ shift (length pm) (bounds_spec t vs bs))
unfolding step_spec bounds_spec
step_spec-clear t [] vs [] bs c e = (refl, sym (shift_zero (bounds_spec t vs bs)))
step_spec-clear t [] vs (b ∷ pm) bs c e = absurd (omega arith)
step_spec-clear t (v ∷ pv) vs [] bs c e = absurd (omega arith)
step_spec-clear t (v ∷ pv) vs (b ∷ pm) bs (c, cs) e =
    let (marks, bounds) = step_spec-clear t pv vs pm bs cs (omega arith) in
    rw (c, marks, bounds) (refl, shift-shift (length pm) (bounds_spec t vs bs))
