-- ===== src/AsPath/Match/Decides.antt =====
-- The loop of `as_path_match` over the mask decides `accepts`.
use active_bgp_measurement.Base.{
  ℕ, zero, suc, ◌+◌, ◌-◌, ◌≤◌, ◌<◌, ◌≡◌, ◌||◌, refl, ap, sym, ◌∙◌, inl, inr,
}
use active_bgp_measurement.Base.{List, [], ◌∷◌, ◌++◌, length, Bool, true, false, arith}
use active_bgp_measurement.Base.{some, set, take, drop, Bool-cases, map}
use active_bgp_measurement.Base.{
  take-append-drop, length-take_le, length-drop, length-set, length-append, append_assoc,
}
use active_bgp_measurement.AsPath.Match.{PmVal, is_set, marked, fill}
use active_bgp_measurement.AsPath.Match.Steps.{set-middle, length-snoc}
use active_bgp_measurement.AsPath.Match.Bounds.{InBounds, AllClear}
use active_bgp_measurement.AsPath.Match.Loop.{clear_take}
use active_bgp_measurement.AsPath.Match.Language.{or_marks, any_suffix, is_empty}

pub or_marks_empty :
    (vals : List PmVal) (marks : List Bool)
    → length marks ≡ suc (length vals)
    → or_marks (is_empty is_set) vals marks ≡ marked marks (length vals)
or_marks_empty vals [] n = absurd (omega arith)
or_marks_empty [] (b ∷ marks) n = ground arith
or_marks_empty (v ∷ vals) (b ∷ marks) n = ground (arith, or_marks_empty vals marks)

-- The mark behind the path does not count where nothing is accepted there.
pub or_marks_end :
    (acc : List PmVal → Bool) (vals : List PmVal) (marks : List Bool)
    → acc [] ≡ false
    → or_marks acc vals (set marks (length vals) false) ≡ or_marks acc vals marks
or_marks_end acc [] [] h = refl
or_marks_end acc (v ∷ vals) [] h = refl
or_marks_end acc [] (b ∷ marks) h = ground (arith, h)
or_marks_end acc (v ∷ vals) (b ∷ marks) h = ground (arith, or_marks_end acc vals marks h)

pub or_marks_none :
    (acc : List PmVal → Bool) (vals : List PmVal) (marks : List Bool)
    → ((j : ℕ) → marked marks j ≡ false)
    → or_marks acc vals marks ≡ false
or_marks_none acc vals [] c = refl
or_marks_none acc [] (b ∷ marks) c = ground (arith, c 0)
or_marks_none acc (v ∷ vals) (b ∷ marks) c =
    ground (arith, c 0, or_marks_none acc vals marks (λ j. c (suc j)))

or_marks_front :
    (acc : List PmVal → Bool) (pv vs : List PmVal) (pm bs : List Bool)
    → AllClear pm
    → length pv ≡ length pm
    → or_marks acc (pv ++ vs) (pm ++ bs) ≡ or_marks acc vs bs
or_marks_front acc [] vs [] bs c e = refl
or_marks_front acc [] vs (b ∷ pm) bs c e = absurd (omega arith)
or_marks_front acc (v ∷ pv) vs [] bs c e = absurd (omega arith)
or_marks_front acc (v ∷ pv) vs (b ∷ pm) bs (c, cs) e =
    ground (arith, or_marks_front acc pv vs pm bs cs)

-- All positions from here on.
abbrev all_marked : List Bool → List Bool
all_marked bs = map (λ _. true) bs

or_marks_all :
    (acc : List PmVal → Bool) (vs : List PmVal) (bs : List Bool)
    → length bs ≡ suc (length vs)
    → or_marks acc vs (all_marked bs) ≡ any_suffix is_set acc vs
or_marks_all acc vs [] n = absurd (omega arith)
or_marks_all acc [] (b ∷ bs) n = refl
or_marks_all acc (v ∷ vs) (b ∷ bs) n = ground (arith, or_marks_all acc vs bs)

-- What a later suffix accepts, an earlier one does.
or_marks_suffix :
    (acc : List PmVal → Bool) (vs : List PmVal) (bs : List Bool)
    → (or_marks (any_suffix is_set acc) vs bs || any_suffix is_set acc vs)
      ≡ any_suffix is_set acc vs
or_marks_suffix acc vs [] = ground arith
or_marks_suffix acc [] (b ∷ bs) = ground arith
or_marks_suffix acc (v ∷ vs) (b ∷ bs) = ground (arith, or_marks_suffix acc vs bs)

length-map : (bs : List Bool) → length (all_marked bs) ≡ length bs
length-map [] = refl
length-map (b ∷ bs) = ap suc (length-map bs)

fill-middle : (pm bs : List Bool) → fill (length bs) (length pm) (pm ++ bs) ≡ pm ++ all_marked bs
unfolding fill
fill-middle pm [] = refl
fill-middle pm (b ∷ bs) = ground (
  arith,
  set-middle pm b true bs,
  length-snoc pm true,
  append_assoc pm (true ∷ []) bs,
  append_assoc pm (true ∷ []) (all_marked bs),
  fill-middle (pm ++ true ∷ []) bs,
)

marked_all :
    (pm bs : List Bool) (j : ℕ)
    → length pm ≤ j
    → j < length pm + length bs
    → marked (pm ++ all_marked bs) j ≡ true
marked_all [] [] j h k = absurd (omega arith)
marked_all [] (b ∷ bs) zero h k = refl
marked_all [] (b ∷ bs) (suc j) h k = marked_all [] bs j (omega arith) (omega arith)
marked_all (p ∷ pm) bs zero h k = absurd (omega arith)
marked_all (p ∷ pm) bs (suc j) h k = marked_all pm bs j (omega arith) (omega arith)

marked_only :
    (pm bs : List Bool) (j : ℕ)
    → AllClear pm
    → marked (pm ++ all_marked bs) j ≡ true
    → (length pm ≤ j) × (suc j ≤ length pm + length bs)
marked_only [] [] j c m = cc
marked_only [] (b ∷ bs) zero c m = omega arith
marked_only [] (b ∷ bs) (suc j) c m = omega (arith, marked_only [] bs j tt m)
marked_only (p ∷ pm) bs zero (c, cs) m = cc
marked_only (p ∷ pm) bs (suc j) (c, cs) m = omega (arith, marked_only pm bs j cs m)

take-set : (l i : ℕ) (marks : List Bool) → l ≤ i → take l (set marks i false) ≡ take l marks
take-set zero i marks h = refl
take-set (suc l) i [] h = refl
take-set (suc l) zero (b ∷ marks) h = absurd (omega arith)
take-set (suc l) (suc i) (b ∷ marks) h =
    ap (λ (r : List Bool). b ∷ r) (take-set l i marks (omega arith))

drop-set :
    (l i : ℕ) (marks : List Bool)
    → all_marked (drop l (set marks i false)) ≡ all_marked (drop l marks)
drop-set zero i [] = refl
drop-set zero zero (b ∷ marks) = refl
drop-set zero (suc i) (b ∷ marks) = ap (λ (r : List Bool). true ∷ r) (drop-set zero i marks)
drop-set (suc l) i [] = refl
drop-set (suc l) zero (b ∷ marks) = refl
drop-set (suc l) (suc i) (b ∷ marks) = drop-set l i marks

marked-drop : (l j : ℕ) (marks : List Bool) → marked (drop l marks) j ≡ marked marks (l + j)
marked-drop zero j marks = ap (marked marks) (omega arith)
marked-drop (suc l) j [] = refl
marked-drop (suc l) j (b ∷ marks) =
    marked-drop l j marks ∙ ap (marked (b ∷ marks)) {x = suc (l + j)} (omega arith)

fill_lem :
    (l i : ℕ) (marks : List Bool)
    → l ≤ i
    → l ≤ length marks
    → fill (length marks - l) l (set marks i false) ≡ take l marks ++ all_marked (drop l marks)
fill_lem l i marks h k =
    ap (λ (r : List Bool). fill (length marks - l) l r)
      (sym (take-append-drop l (set marks i false)))
    ∙ ap (λ (n : ℕ). fill n l (take l (set marks i false) ++ drop l (set marks i false)))
        (omega (arith, length-drop l (set marks i false), length-set marks i false))
    ∙ ap
        (λ (n : ℕ).
          fill (length (drop l (set marks i false))) n
            (take l (set marks i false) ++ drop l (set marks i false)))
        (omega (arith, length-take_le l (set marks i false), length-set marks i false))
    ∙ fill-middle (take l (set marks i false)) (drop l (set marks i false))
    ∙ rw (take-set l i marks h, drop-set l i marks)

-- Filling from the first mark on is a step that accepts any suffix.
module _ (acc : List PmVal → Bool) where
  fill_parts :
      (pv vs : List PmVal) (pm bs : List Bool)
      → AllClear pm
      → length pv ≡ length pm
      → length bs ≡ suc (length vs)
      → marked bs 0 ≡ true
      → or_marks acc (pv ++ vs) (pm ++ all_marked bs)
        ≡ or_marks (any_suffix is_set acc) (pv ++ vs) (pm ++ bs)
  fill_parts pv vs pm [] c e n m = cc
  fill_parts pv [] pm (b ∷ bs) c e n m =
      or_marks_front acc pv [] pm (all_marked (b ∷ bs)) c e
      ∙ ground arith
      ∙ sym (or_marks_front (any_suffix is_set acc) pv [] pm (b ∷ bs) c e)
  fill_parts pv (v ∷ vs) pm (b ∷ bs) c e n m =
      or_marks_front acc pv (v ∷ vs) pm (all_marked (b ∷ bs)) c e
      ∙ or_marks_all acc (v ∷ vs) (b ∷ bs) n
      ∙ ground (arith, or_marks_suffix acc vs bs)
      ∙ sym (or_marks_front (any_suffix is_set acc) pv (v ∷ vs) pm (b ∷ bs) c e)

module _ (vals : List PmVal) (marks : List Bool) (l h : ℕ) (n : length marks ≡ suc (length vals))
    (hv : h ≤ length vals) (i : InBounds (some (l, h)) marks) where
  -- The marks after an asterisk.
  abbrev pub starred : List Bool
  starred = fill (length vals + 1 - l) l (set marks (length vals) false)

  starred_parts : starred ≡ take l marks ++ all_marked (drop l marks)
  starred_parts =
      ap (λ (k : ℕ). fill k l (set marks (length vals) false)) (omega (arith, n, i.1))
      ∙ fill_lem l (length vals) marks (omega (arith, i.1)) (omega (arith, i.1))

  front_clear : AllClear (take l marks)
  front_clear = clear_take l marks below
    where
      below : (j : ℕ) → j < l → marked marks j ≡ false
      below j lt = elim (Bool-cases (marked marks j)) [
        | inl y ↦ absurd (omega (arith, i.2 j y))
        | inr no_mark ↦ no_mark
      ]

  pub starred_marks :
      (acc : List PmVal → Bool)
      → or_marks acc vals starred ≡ or_marks (any_suffix is_set acc) vals marks
  starred_marks acc =
      ap (or_marks acc vals) starred_parts
      ∙ rw (take-append-drop l vals, take-append-drop l marks) at
          (fill_parts acc (take l vals) (drop l vals) (take l marks) (drop l marks) front_clear
            (omega (arith, length-take_le l vals, length-take_le l marks, i.1))
            (omega (arith, length-drop l vals, length-drop l marks, i.1))
            (marked-drop l 0 marks ∙ ap (marked marks) (omega arith) ∙ i.0))

  pub starred-InBounds : InBounds (some (l, length vals)) starred
  starred-InBounds = rw starred_parts (
    marked_all (take l marks) (drop l marks) l
        (omega (arith, length-take_le l marks, length-drop l marks, i.1, n))
        (omega (arith, length-take_le l marks, length-drop l marks, i.1, n)),
    omega (arith, i.1),
    λ j m. omega (
      arith,
      length-take_le l marks,
      length-drop l marks,
      i.1,
      n,
      marked_only (take l marks) (drop l marks) j front_clear m,
    ),
  )

  pub length-starred : length starred ≡ suc (length vals)
  length-starred = rw starred_parts (
      omega (
        arith,
        length-append (take l marks) (all_marked (drop l marks)),
        length-map (drop l marks),
        length-take_le l marks,
        length-drop l marks,
        i.1,
      ))
