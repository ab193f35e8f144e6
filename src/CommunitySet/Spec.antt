-- ===== src/CommunitySet/Spec.antt =====
-- What the set operations do, on lists of values of any type with a test of equality.
use active_bgp_measurement.Base.{ℕ, ◌+◌, ◌≤◌, ◌≡◌, ◌&&◌, ◌||◌, ◌++◌, ◌↔◌, not, refl, ap}
use active_bgp_measurement.Base.{List, [], ◌∷◌, length, Bool, true, false, arith, if◌then◌else◌}

-- A test of equality on the values.
pub record Equality (A : Type 0) : Type 0 where
  pub same : A → A → Bool
  pub same_iff : (a b : A) → (same a b ≡ true) ↔ (a ≡ b)

module _ {A : Type 0} (eq : Equality A) where
  open eq use {same, same_iff}

  abbrev pub mem : A → List A → Bool
  mem v [] = false
  mem v (x ∷ xs) = same x v || mem v xs

  abbrev pub count : A → List A → ℕ
  count v [] = 0
  count v (x ∷ xs) = (if same x v then 1 else 0) + count v xs

  -- `v` behind the others, if it is not among them.
  abbrev pub add : List A → A → List A
  add xs v = if mem v xs then xs else xs ++ v ∷ []

  -- All that is not `v`.
  abbrev pub remove : List A → A → List A
  remove [] v = []
  remove (x ∷ xs) v = let rest = remove xs v in if same x v then rest else x ∷ rest

  -- What `ys` has and `xs` has not.
  abbrev pub news : List A → List A → List A
  news xs [] = []
  news xs (y ∷ ys) = let rest = news xs ys in if mem y xs then rest else y ∷ rest

  -- No value stands twice.
  abbrev pub IsSetList : List A → Type 0
  IsSetList [] = Unit {0}
  IsSetList (x ∷ xs) = (mem x xs ≡ false) × IsSetList xs

  pub news-nil : (ys : List A) → news [] ys ≡ ys
  news-nil [] = refl
  news-nil (y ∷ ys) = ap (λ (r : List A). y ∷ r) (news-nil ys)

  pub mem-append : (v : A) (xs ys : List A) → mem v (xs ++ ys) ≡ (mem v xs || mem v ys)
  mem-append v [] ys = refl
  mem-append v (x ∷ xs) ys = ground (arith, mem-append v xs ys)

  pub mem-add : (v w : A) (xs : List A) → mem w (add xs v) ≡ (same v w || mem w xs)
  mem-add v w xs = ground (arith, mem-append w xs (v ∷ []), same_iff v w)

  pub mem-remove : (v w : A) (xs : List A) → mem w (remove xs v) ≡ (not (same v w) && mem w xs)
  mem-remove v w [] = ground arith
  mem-remove v w (x ∷ xs) =
      ground (arith, mem-remove v w xs, same_iff x v, same_iff v w, same_iff x w)

  pub mem-news : (w : A) (xs ys : List A) → mem w (news xs ys) ≡ (not (mem w xs) && mem w ys)
  mem-news w xs [] = ground arith
  mem-news w xs (y ∷ ys) = ground (arith, mem-news w xs ys, same_iff y w)

  pub remove-IsSetList : (v : A) (xs : List A) → IsSetList xs → IsSetList (remove xs v)
  remove-IsSetList v [] h = tt
  remove-IsSetList v (x ∷ xs) h = ground (arith, remove-IsSetList v xs h.1, mem-remove v x xs)

  pub snoc-IsSetList :
      (v : A) (xs : List A) → IsSetList xs → mem v xs ≡ false → IsSetList (xs ++ v ∷ [])
  snoc-IsSetList v [] h n = (refl, tt)
  snoc-IsSetList v (x ∷ xs) h n =
      ground (arith, snoc-IsSetList v xs h.1, mem-append x xs (v ∷ []), same_iff x v, same_iff v x)

  pub add-IsSetList : (v : A) (xs : List A) → IsSetList xs → IsSetList (add xs v)
  add-IsSetList v xs h = ground (arith, snoc-IsSetList v xs h)

  pub news-IsSetList : (xs ys : List A) → IsSetList ys → IsSetList (news xs ys)
  news-IsSetList xs [] h = tt
  news-IsSetList xs (y ∷ ys) h = ground (arith, news-IsSetList xs ys h.1, mem-news y xs ys)

  pub append-IsSetList :
      (xs ys : List A)
      → IsSetList xs
      → IsSetList ys
      → ((v : A) → mem v xs ≡ true → mem v ys ≡ false)
      → IsSetList (xs ++ ys)
  append-IsSetList [] ys h k d = k
  append-IsSetList (x ∷ xs) ys h k d = (
    ground (arith, mem-append x xs ys, d x, same_iff x x, h.0),
    append-IsSetList xs ys h.1 k (λ v m. d v (ground (arith, m))),
  )

  pub union-IsSetList :
      (xs ys : List A) → IsSetList xs → IsSetList ys → IsSetList (xs ++ news xs ys)
  union-IsSetList xs ys h k =
      append-IsSetList xs (news xs ys) h (news-IsSetList xs ys k)
        (λ v m. ground (arith, mem-news v xs ys, m))

  -- The values removed are counted.
  pub length-remove : (v : A) (xs : List A) → length (remove xs v) + count v xs ≡ length xs
  length-remove v [] = omega arith
  length-remove v (x ∷ xs) = ground (arith, length-remove v xs)

  pub count_of_mem : (v : A) (xs : List A) → mem v xs ≡ true → 1 ≤ count v xs
  count_of_mem v [] h = cc
  count_of_mem v (x ∷ xs) h = ground (arith, count_of_mem v xs)

  pub count_of_not_mem : (v : A) (xs : List A) → mem v xs ≡ false → count v xs ≡ 0
  count_of_not_mem v [] h = refl
  count_of_not_mem v (x ∷ xs) h = ground (arith, count_of_not_mem v xs)

  -- In a set a value is there once.
  pub count_of_IsSetList : (v : A) (xs : List A) → IsSetList xs → mem v xs ≡ true → count v xs ≡ 1
  count_of_IsSetList v [] h m = cc
  count_of_IsSetList v (x ∷ xs) h m =
      ground (arith, count_of_IsSetList v xs h.1, count_of_not_mem v xs, same_iff x v)
