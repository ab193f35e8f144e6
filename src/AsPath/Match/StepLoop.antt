-- ===== src/AsPath/Match/StepLoop.antt =====
-- The loop over the marked positions computes the step of all of them.
use active_bgp_measurement.Base.{ℕ, zero, suc, ◌+◌, ◌≡◌, ◌&&◌, ◌++◌, refl, ap, sym, ◌∙◌}
use active_bgp_measurement.Base.{List, [], ◌∷◌, length, Bool, false, arith}
use active_bgp_measurement.Base.{Res, ok, ◌>>=◌, if◌then◌else◌, none, some, All}
use active_bgp_measurement.Base.{append_assoc}
use active_bgp_measurement.AsPath.Match.{PmVal, is_set, Bounds}
use mathlib.Core.Path.{fun_ext}
use active_bgp_measurement.AsPath.Match.{visit, step_loop}
use active_bgp_measurement.AsPath.Match.Steps.{
  >>=-assoc, >>=-ok, run_spec, run_length, step_spec, shift, bounds_spec, get_elem?-middle,
  set-middle, length-snoc, length-step_spec, widen, pm_mark-spec,
}

module _ (test : PmVal → Res Bool) (t : PmVal → Bool) where
  visit-spec :
      (pv vs : List PmVal) (pm : List Bool) (v : PmVal) (b c : Bool) (cs : List Bool) (plen : ℕ)
      (bounds : Bounds)
      → length pv ≡ length pm
      → length cs ≡ length vs
      → plen ≡ suc (length pm + length vs)
      → test v ≡ ok (t v)
      → visit test (pv ++ v ∷ vs) plen (length pm) (pm ++ b ∷ c ∷ cs) bounds
        ≡ ok (
            if b && t v
            then (
              pm ++ is_set v ∷ run_spec vs (c ∷ cs),
              widen (length pm) v (suc (length pm) + run_length vs (c ∷ cs)) bounds,
            )
            else (pm ++ false ∷ c ∷ cs, bounds))
  unfolding visit
  visit-spec pv vs pm v b c cs plen bounds e n p ok_test = ground (
    arith,
    get_elem?-middle pm b (c ∷ cs),
    get_elem?-middle pv v vs,
    set-middle pm b false (c ∷ cs),
    pm_mark-spec pv vs pm v c cs plen bounds e n p,
  )

  step_loop_low :
      (vals : List PmVal) (plen l k : ℕ) (marks : List Bool) (bounds : Bounds)
      → step_loop test vals plen l (suc k) marks bounds
        ≡ (step_loop test vals plen (suc l) k marks bounds >>= λ r. visit test vals plen l r.0 r.1)
  unfolding step_loop
  step_loop_low vals plen l zero marks bounds =
      >>=-ok (visit test vals plen (l + 0) marks bounds)
      ∙ ap (λ (i : ℕ). visit test vals plen i marks bounds) (omega arith)
  step_loop_low vals plen l (suc k) marks bounds =
      ap
        (λ (f : List Bool × Bounds → Res (List Bool × Bounds)).
          visit test vals plen (l + suc k) marks bounds >>= f)
        (fun_ext (λ r. step_loop_low vals plen l k r.0 r.1))
      ∙ sym (
          >>=-assoc (visit test vals plen (l + suc k) marks bounds)
            (λ r. step_loop test vals plen (suc l) k r.0 r.1) (λ r. visit test vals plen l r.0 r.1))
      ∙ ap
          (λ (i : ℕ).
            (visit test vals plen i marks bounds >>= λ r.
            step_loop test vals plen (suc l) k r.0 r.1)
            >>= λ r. visit test vals plen l r.0 r.1)
          (omega arith)

  visit-shift :
      (pv vs : List PmVal) (pm : List Bool) (v : PmVal) (b : Bool) (rest : List Bool) (plen : ℕ)
      (bounds : Bounds)
      → length pv ≡ length pm
      → length rest ≡ suc (length vs)
      → plen ≡ suc (length pm + length vs)
      → test v ≡ ok (t v)
      → visit test (pv ++ v ∷ vs) plen (length pm) (pm ++ b ∷ rest) (shift (suc (length pm)) bounds)
        ≡ ok (
            if b && t v
            then (
              pm ++ is_set v ∷ run_spec vs rest,
              shift (length pm) (widen 0 v (suc (run_length vs rest)) (shift 1 bounds)),
            )
            else (pm ++ false ∷ rest, shift (length pm) (shift 1 bounds)))
  visit-shift pv vs pm v b [] plen bounds e n p a = absurd (omega arith)
  visit-shift pv vs pm v b (c ∷ cs) plen none e n p a =
      ground (arith, visit-spec pv vs pm v b c cs plen none e (omega arith) p a)
  visit-shift pv vs pm v b (c ∷ cs) plen (some (l, h)) e n p a = ground (
    arith,
    visit-spec pv vs pm v b c cs plen (some (suc (length pm) + l, suc (length pm) + h)) e
        (omega arith) p a,
  )

  visit_step :
      (pv vs : List PmVal) (pm : List Bool) (v : PmVal) (b : Bool) (bs : List Bool) (plen : ℕ)
      → length pv ≡ length pm
      → length bs ≡ suc (length vs)
      → plen ≡ suc (length pm + length vs)
      → test v ≡ ok (t v)
      → visit test
          (pv ++ v ∷ vs)
          plen
          (length pm)
          (pm ++ b ∷ step_spec t vs bs)
          (shift (suc (length pm)) (bounds_spec t vs bs))
        ≡ ok (
          pm ++ step_spec t (v ∷ vs) (b ∷ bs),
          shift (length pm) (bounds_spec t (v ∷ vs) (b ∷ bs)),
        )
  unfolding step_spec bounds_spec
  visit_step pv vs pm v b bs plen e n p a =
      visit-shift pv vs pm v b (step_spec t vs bs) plen (bounds_spec t vs bs) e
        (omega (arith, length-step_spec t vs bs)) p a
      ∙ ground arith

  -- The loop from the position behind `pm` to the end of the path.
  pub step_loop-spec :
      (pv vs : List PmVal) (pm bs : List Bool) (plen : ℕ)
      → length pv ≡ length pm
      → length bs ≡ suc (length vs)
      → plen ≡ length pm + length vs
      → All (λ v. test v ≡ ok (t v)) vs
      → step_loop test (pv ++ vs) plen (length pm) (length vs) (pm ++ bs) none
        ≡ ok (pm ++ step_spec t vs bs, shift (length pm) (bounds_spec t vs bs))
  step_loop-spec pv [] pm [] plen e n p a = absurd (omega arith)
  step_loop-spec pv [] pm (b ∷ bs) plen e n p a = unfold step_loop step_spec bounds_spec in refl
  step_loop-spec pv (v ∷ vs) pm [] plen e n p a = absurd (omega arith)
  step_loop-spec pv (v ∷ vs) pm (b ∷ bs) plen e n p (a, rest) =
      let above =
        step_loop-spec (pv ++ v ∷ []) vs (pm ++ b ∷ []) bs plen (by_length e) (omega arith)
          (omega (arith, length-snoc pm b)) rest in
      rw (step_loop_low (pv ++ v ∷ vs) plen (length pm) (length vs) (pm ++ b ∷ bs) none)
        (rw (from_above above) (visit_step pv vs pm v b bs plen e (omega arith) (omega arith) a))
    where
      by_length : length pv ≡ length pm → length (pv ++ v ∷ []) ≡ length (pm ++ b ∷ [])
      by_length q = omega (arith, length-snoc pm b, length-snoc pv v)

      from_above :
          step_loop test
              ((pv ++ v ∷ []) ++ vs)
              plen
              (length (pm ++ b ∷ []))
              (length vs)
              ((pm ++ b ∷ []) ++ bs)
              none
            ≡ ok (
              (pm ++ b ∷ []) ++ step_spec t vs bs,
              shift (length (pm ++ b ∷ [])) (bounds_spec t vs bs),
            )
          → step_loop test (pv ++ v ∷ vs) plen (suc (length pm)) (length vs) (pm ++ b ∷ bs) none
            ≡ ok (pm ++ b ∷ step_spec t vs bs, shift (suc (length pm)) (bounds_spec t vs bs))
      from_above q =
          rw
            (
              length-snoc pm b,
              append_assoc pv (v ∷ []) vs,
              append_assoc pm (b ∷ []) bs,
              append_assoc pm (b ∷ []) (step_spec t vs bs),
            )
            at q
