-- ===== src/AsPath/Match/Steps.antt =====
-- One item of the mask as a function on the positions and their marks from the right: the index loops
-- of `as_path_match` compute it, over any range of positions that holds all marks.
use active_bgp_measurement.Base.{ℕ, suc, ◌+◌, ◌-◌, ◌≡◌, ◌&&◌, ◌++◌, not, refl, ap}
use active_bgp_measurement.Base.{List, [], ◌∷◌, length, set, get_elem?, Bool, true, false, arith}
use active_bgp_measurement.Base.{Res, ok, bug, fault, out_of_fuel, ◌>>=◌, if◌then◌else◌, none, some}
use active_bgp_measurement.Base.{append_assoc}
use active_bgp_measurement.AsPath.Match.{PmVal, is_set, mark_run, Bounds, pm_mark}

-- What `mark_run` does at the head of its lists, and how far it goes.
unfoldable pub run_spec : List PmVal → List Bool → List Bool
run_spec vs [] = []
run_spec [] (b ∷ bs) = true ∷ bs
run_spec (v ∷ vs) (b ∷ bs) =
    let rest = run_spec vs bs in if is_set v && not b then true ∷ rest else true ∷ bs

unfoldable pub run_length : List PmVal → List Bool → ℕ
run_length vs [] = 0
run_length [] (b ∷ bs) = 0
run_length (v ∷ vs) (b ∷ bs) =
    let rest = run_length vs bs in if is_set v && not b then suc rest else 0

-- The marks after all marked positions took a step on an item with the test `t`.
unfoldable pub step_spec : (PmVal → Bool) → List PmVal → List Bool → List Bool
step_spec t vs [] = []
step_spec t [] (b ∷ bs) = b ∷ bs
step_spec t (v ∷ vs) (b ∷ bs) =
    let rest = step_spec t vs bs in if b && t v then is_set v ∷ run_spec vs rest else false ∷ rest

abbrev pub shift : ℕ → Bounds → Bounds
shift n none = none
shift n (some (l, h)) = some (n + l, n + h)

-- The bounds of the new marks, from the head of the lists.
unfoldable pub bounds_spec : (PmVal → Bool) → List PmVal → List Bool → Bounds
bounds_spec t vs [] = none
bounds_spec t [] (b ∷ bs) = none
bounds_spec t (v ∷ vs) (b ∷ bs) =
    let rest = bounds_spec t vs bs in
    let low = if is_set v then 0 else 1 in
    let first = suc (run_length vs (step_spec t vs bs)) in
    if b && t v
    then (elim rest [ none ↦ some (low, first) | some (l, h) ↦ some (low, suc h) ])
    else shift 1 rest

module _ {ℓ} {A : Type ℓ} where
  pub get_elem?-middle :
      (xs : List A) (y : A) (ys : List A) → get_elem? (xs ++ y ∷ ys) (length xs) ≡ some y
  get_elem?-middle [] y ys = refl
  get_elem?-middle (x ∷ xs) y ys = get_elem?-middle xs y ys

  pub set-middle :
      (xs : List A) (y z : A) (ys : List A) → set (xs ++ y ∷ ys) (length xs) z ≡ xs ++ z ∷ ys
  set-middle [] y z ys = refl
  set-middle (x ∷ xs) y z ys = ap (λ (r : List A). x ∷ r) (set-middle xs y z ys)

  pub length-snoc : (xs : List A) (y : A) → length (xs ++ y ∷ []) ≡ suc (length xs)
  length-snoc [] y = refl
  length-snoc (x ∷ xs) y = ap suc (length-snoc xs y)

length-run_spec : (vs : List PmVal) (bs : List Bool) → length (run_spec vs bs) ≡ length bs
unfolding run_spec
length-run_spec vs [] = refl
length-run_spec [] (b ∷ bs) = refl
length-run_spec (v ∷ vs) (b ∷ bs) = ground (arith, length-run_spec vs bs)

pub length-step_spec :
    (t : PmVal → Bool) (vs : List PmVal) (bs : List Bool) → length (step_spec t vs bs) ≡ length bs
unfolding step_spec
length-step_spec t vs [] = refl
length-step_spec t [] (b ∷ bs) = refl
length-step_spec t (v ∷ vs) (b ∷ bs) =
    ground (arith, length-step_spec t vs bs, length-run_spec vs (step_spec t vs bs))

mark_run-spec :
    (pv vs : List PmVal) (pm : List Bool) (b : Bool) (bs : List Bool)
    → length pv ≡ length pm
    → length bs ≡ length vs
    → mark_run (pv ++ vs) (length vs) (pm ++ b ∷ bs) (length pm)
      ≡ (pm ++ run_spec vs (b ∷ bs), length pm + run_length vs (b ∷ bs))
unfolding mark_run run_spec run_length
mark_run-spec pv [] pm b bs e n = ground (arith, set-middle pm b true bs)
mark_run-spec pv (v ∷ vs) pm b [] e n = absurd (omega arith)
mark_run-spec pv (v ∷ vs) pm b (b' ∷ bs) e n = ground (
  arith,
  set-middle pm b true (b' ∷ bs),
  get_elem?-middle pm b (b' ∷ bs),
  get_elem?-middle pv v vs,
  append_assoc pm (true ∷ []) (b' ∷ bs),
  append_assoc pm (true ∷ []) (run_spec vs (b' ∷ bs)),
  append_assoc pv (v ∷ []) vs,
  length-snoc pm true,
  length-snoc pv v,
  mark_run-spec (pv ++ v ∷ []) vs (pm ++ true ∷ []) b' bs,
)

pub >>=-assoc {ℓ κ μ} :
    {A : Type ℓ} {B : Type κ} {C : Type μ} (m : Res A) (f : A → Res B) (g : B → Res C)
    → ((m >>= f) >>= g) ≡ (m >>= λ a. f a >>= g)
>>=-assoc (ok a) f g = refl
>>=-assoc bug f g = refl
>>=-assoc fault f g = refl
>>=-assoc out_of_fuel f g = refl

pub >>=-ok : (m : Res (List Bool × Bounds)) → (m >>= λ r. ok (r.0, r.1)) ≡ m
>>=-ok (ok a) = refl
>>=-ok bug = refl
>>=-ok fault = refl
>>=-ok out_of_fuel = refl

-- The new bounds after a step from the position `j`.
abbrev pub widen : ℕ → PmVal → ℕ → Bounds → Bounds
widen j v run none = some (j + (if is_set v then 0 else 1), run)
widen j v run (some (l, h)) = some (j + (if is_set v then 0 else 1), h)

mark_run-next :
    (pv vs : List PmVal) (pm : List Bool) (v : PmVal) (s c : Bool) (cs : List Bool)
    → length pv ≡ length pm
    → length cs ≡ length vs
    → mark_run (pv ++ v ∷ vs) (length vs) (pm ++ s ∷ c ∷ cs) (length pm + 1)
      ≡ (pm ++ s ∷ run_spec vs (c ∷ cs), suc (length pm) + run_length vs (c ∷ cs))
mark_run-next pv vs pm v s c cs e n = ground (
  arith,
  append_assoc pv (v ∷ []) vs,
  append_assoc pm (s ∷ []) (c ∷ cs),
  append_assoc pm (s ∷ []) (run_spec vs (c ∷ cs)),
  length-snoc pm s,
  length-snoc pv v,
  mark_run-spec (pv ++ v ∷ []) vs (pm ++ s ∷ []) c cs,
)

pub pm_mark-spec :
    (pv vs : List PmVal) (pm : List Bool) (v : PmVal) (c : Bool) (cs : List Bool) (plen : ℕ)
    (bounds : Bounds)
    → length pv ≡ length pm
    → length cs ≡ length vs
    → plen ≡ suc (length pm + length vs)
    → pm_mark (pv ++ v ∷ vs) plen (length pm) (pm ++ false ∷ c ∷ cs) bounds ≡ (
      pm ++ is_set v ∷ run_spec vs (c ∷ cs),
      widen (length pm) v (suc (length pm) + run_length vs (c ∷ cs)) bounds,
    )
unfolding pm_mark
pm_mark-spec pv vs pm v c cs plen bounds e n p =
    let rounds : plen - (length pm + 1) ≡ length vs = omega arith in
    ground (
      arith,
      get_elem?-middle pv v vs,
      set-middle pm false true (c ∷ cs),
      mark_run-next pv vs pm v true c cs e n,
      mark_run-next pv vs pm v false c cs e n,
    )
