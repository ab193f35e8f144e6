-- ===== src/AsPath/Match/Loop.antt =====
-- The loop of `as_path_match` over the mask: it decides `accepts`.
use active_bgp_measurement.Base.{ℕ, zero, suc, ◌+◌, ◌-◌, ◌≤◌, ◌<◌, ◌≡◌, ap, sym, ◌∙◌}
use active_bgp_measurement.Base.{List, [], ◌∷◌, ◌++◌, length, Bool, false, arith}
use active_bgp_measurement.Base.{none, Res, ok, All, take, drop}
use active_bgp_measurement.Base.{take-append-drop, length-take_le, length-drop, All-append_right}
use active_bgp_measurement.AsPath.Match.{PmVal, marked, Bounds, visit, step_loop}
use active_bgp_measurement.AsPath.Match.StepLoop.{step_loop-spec}
use active_bgp_measurement.AsPath.Match.Steps.{step_spec, bounds_spec}
use active_bgp_measurement.AsPath.Match.Bounds.{AllClear, step_spec-clear}
use native.Mathlib.Decide.{dec_lt}

pub clear_take :
    (l : ℕ) (marks : List Bool)
    → ((j : ℕ) → j < l → marked marks j ≡ false)
    → AllClear (take l marks)
clear_take zero marks h = tt
clear_take (suc l) [] h = tt
clear_take (suc l) (b ∷ marks) h =
    (h 0 (omega arith), clear_take l marks (λ j lt. h (suc j) (omega arith)))

module _ (test : PmVal → Res Bool) (t : PmVal → Bool) where
  visit_clear :
      (vals : List PmVal) (plen i : ℕ) (marks : List Bool) (bounds : Bounds)
      → marked marks i ≡ false
      → visit test vals plen i marks bounds ≡ ok (marks, bounds)
  unfolding visit
  visit_clear vals plen i marks bounds h = rw h

  -- Rounds above the last mark change nothing.
  step_loop_high :
      (vals : List PmVal) (plen l k m n : ℕ) (marks : List Bool) (bounds : Bounds)
      → n ≡ m + k
      → ((j : ℕ) → l + k ≤ j → marked marks j ≡ false)
      → step_loop test vals plen l n marks bounds ≡ step_loop test vals plen l k marks bounds
  unfolding step_loop
  step_loop_high vals plen l k zero n marks bounds e c =
      ap (λ (r : ℕ). step_loop test vals plen l r marks bounds) (omega arith)
  step_loop_high vals plen l k (suc m) zero marks bounds e c = absurd (omega arith)
  step_loop_high vals plen l k (suc m) (suc n) marks bounds e c =
      rw (visit_clear vals plen (l + n) marks bounds (c (l + n) (omega arith)))
        (step_loop_high vals plen l k m n marks bounds (omega arith) c)

  step_loop_parts :
      (pv vs : List PmVal) (pm bs : List Bool) (plen : ℕ)
      → length pv ≡ length pm
      → AllClear pm
      → length bs ≡ suc (length vs)
      → plen ≡ length pm + length vs
      → All (λ v. test v ≡ ok (t v)) (pv ++ vs)
      → step_loop test (pv ++ vs) plen (length pm) (length vs) (pm ++ bs) none
        ≡ ok (step_spec t (pv ++ vs) (pm ++ bs), bounds_spec t (pv ++ vs) (pm ++ bs))
  step_loop_parts pv vs pm bs plen e c n p a =
      let (marks, bounds) = step_spec-clear t pv vs pm bs c e in
      rw (marks, bounds)
        (step_loop-spec test t pv vs pm bs plen e n p
          (All-append_right (λ v. test v ≡ ok (t v)) pv vs a))

  -- The loop from `h` down to `l` does the step, if all marks lie between.
  pub step_loop_full :
      (vals : List PmVal) (marks : List Bool) (l h : ℕ)
      → length marks ≡ suc (length vals)
      → l ≤ length vals
      → l ≤ h
      → h ≤ length vals
      → ((j : ℕ) → j < l → marked marks j ≡ false)
      → ((j : ℕ) → h < j → marked marks j ≡ false)
      → marked marks (length vals) ≡ false
      → All (λ v. test v ≡ ok (t v)) vals
      → step_loop test vals (length vals) l (h + 1 - l) marks none
        ≡ ok (step_spec t vals marks, bounds_spec t vals marks)
  step_loop_full vals marks l h n le lh hv below above last a =
      rounds
      ∙ rw (take-append-drop l vals, take-append-drop l marks, length-take_le l marks (omega arith))
          at
          (step_loop_parts (take l vals) (drop l vals) (take l marks) (drop l marks) (length vals)
            (omega (arith, length-take_le l vals, length-take_le l marks))
            (clear_take l marks below) (omega (arith, length-drop l vals, length-drop l marks))
            (omega (arith, length-drop l vals, length-take_le l marks))
            (rw (take-append-drop l vals) a))
    where
      end_clear : (j : ℕ) → length vals ≤ j → marked marks j ≡ false
      end_clear j k = elim (dec_lt (length vals) j) [
        | yes p ↦ above j (omega arith)
        | no p ↦ ap (marked marks) {x = j} (omega arith) ∙ last
      ]

      rounds :
          step_loop test vals (length vals) l (h + 1 - l) marks none
          ≡ step_loop test vals (length vals) l (length (drop l vals)) marks none
      rounds = elim (dec_lt h (length vals)) [
        | yes p ↦ sym (
            step_loop_high vals (length vals) l (h + 1 - l) (length vals - h - 1)
              (length (drop l vals)) marks none (omega (arith, length-drop l vals))
              (λ j k. above j (omega arith)))
        | no p ↦
            step_loop_high vals (length vals) l (length (drop l vals)) 1 (h + 1 - l) marks none
              (omega (arith, length-drop l vals))
              (λ j k. end_clear j (omega (arith, length-drop l vals)))
      ]
