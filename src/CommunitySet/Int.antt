-- ===== src/CommunitySet/Int.antt =====
-- The operations on sets of 32-bit values: `int_set_contains`, `int_set_prepend`, `int_set_add`,
-- `int_set_del` and `int_set_union` of nest/a-set.c.
use active_bgp_measurement.Base.{ℕ, ◌+◌, ◌-◌, ◌≡◌, ◌&&◌, ◌||◌, ◌++◌, not, refl, ap, ◌∙◌, sym}
use active_bgp_measurement.Base.{
  List, [], ◌∷◌, length, length-drop, drop, Bool, true, false, arith, if◌then◌else◌, ◌==◌, ==_iff,
}
use active_bgp_measurement.Base.{
  Option, none, some, Res, ok, ◌>>=◌, Bool-cases, inl, inr, append-nil,
}
use active_bgp_measurement.CommunitySet.Words.{Alloc, write_block, words_of, write_block_full}
use active_bgp_measurement.CommunitySet.Spec.{
  Equality, mem, count, add, remove, news, IsSetList, mem-add, mem-remove, mem-news, news-nil,
  mem-append, add-IsSetList, union-IsSetList, length-remove, count_of_mem, count_of_IsSetList,
}

abbrev pub int_eq : Equality ℕ
int_eq = record { same = λ a b. a == b; same_iff = ==_iff }

unfoldable pub contains_words : List ℕ → ℕ → Bool
contains_words [] val = false
contains_words (x ∷ l) val = let rest = contains_words l val in if x == val then true else rest

-- `none` is the null pointer.
unfoldable pub int_set_contains : Option (List ℕ) → ℕ → Bool
unfolding contains_words
int_set_contains none val = false
int_set_contains (some l) val = contains_words l val

pub int_set_prepend : Option (List ℕ) → ℕ → Option (List ℕ)
int_set_prepend list val = if int_set_contains list val then list else some (val ∷ words_of list)

pub int_set_add : Option (List ℕ) → ℕ → Option (List ℕ)
int_set_add list val = if int_set_contains list val then list else some (words_of list ++ val ∷ [])

-- The loop that copies what is not `val`.
pub kept_words : List ℕ → ℕ → List ℕ
kept_words [] val = []
kept_words (x ∷ l) val = let rest = kept_words l val in if not (x == val) then x ∷ rest else rest

-- The new block has room for one value less.
pub int_set_del : Alloc → Option (List ℕ) → ℕ → Res (Option (List ℕ))
int_set_del a list val =
    let copied =
      write_block (kept_words (words_of list) val) (a.fresh (length (words_of list) - 1)) in
    if not (int_set_contains list val) then ok list else (copied >>= λ l. ok (some l))

-- The loop that collects in `tmp`.
pub new_words : List ℕ → List ℕ → List ℕ
new_words l1 [] = []
new_words l1 (y ∷ l) =
    let rest = new_words l1 l in if not (int_set_contains (some l1) y) then y ∷ rest else rest

pub int_set_union : Option (List ℕ) → Option (List ℕ) → Option (List ℕ)
int_set_union none l2 = l2
int_set_union (some l1) none = some l1
int_set_union (some l1) (some l2) = elim (new_words l1 l2) [
  | [] ↦ some l1
  | x ∷ tmp ↦ some (l1 ++ x ∷ tmp)
]

contains_words-mem : (l : List ℕ) (v : ℕ) → contains_words l v ≡ mem int_eq v l
unfolding contains_words
contains_words-mem [] v = refl
contains_words-mem (x ∷ l) v = ground (arith, contains_words-mem l v)

contains-mem :
    (list : Option (List ℕ)) (v : ℕ) → int_set_contains list v ≡ mem int_eq v (words_of list)
unfolding int_set_contains
contains-mem none v = refl
contains-mem (some l) v = contains_words-mem l v

kept-remove : (l : List ℕ) (v : ℕ) → kept_words l v ≡ remove int_eq l v
unfolding kept_words
kept-remove [] v = refl
kept-remove (x ∷ l) v = ground (arith, kept-remove l v)

new-news : (l1 l2 : List ℕ) → new_words l1 l2 ≡ news int_eq l1 l2
unfolding new_words
new-news l1 [] = refl
new-news l1 (y ∷ l2) = ground (arith, new-news l1 l2, contains-mem (some l1) y)

add-words :
    (list : Option (List ℕ)) (v : ℕ) → words_of (int_set_add list v) ≡ add int_eq (words_of list) v
unfolding int_set_add
add-words list v = ground (arith, contains-mem list v)

prepend-words :
    (list : Option (List ℕ)) (v : ℕ)
    → words_of (int_set_prepend list v)
      ≡ (if mem int_eq v (words_of list) then words_of list else v ∷ words_of list)
unfolding int_set_prepend
prepend-words list v = ground (arith, contains-mem list v)

union-words :
    (l1 l2 : Option (List ℕ))
    → words_of (int_set_union l1 l2) ≡ words_of l1 ++ news int_eq (words_of l1) (words_of l2)
unfolding int_set_union
union-words none none = refl
union-words none (some l2) = sym (news-nil int_eq l2)
union-words (some l1) none = sym (append-nil l1)
union-words (some l1) (some l2) =
    joined (new_words l1 l2) ∙ ap (λ (r : List ℕ). l1 ++ r) (new-news l1 l2)
  where
    joined :
        (tmp : List ℕ)
        → words_of
            (elim tmp as (λ r. Option (List ℕ)) [ [] ↦ some l1 | x ∷ rest ↦ some (l1 ++ x ∷ rest) ])
          ≡ l1 ++ tmp
    joined [] = sym (append-nil l1)
    joined (x ∷ rest) = refl

-- On a list without duplicates `int_set_add` and `int_set_prepend` put exactly the value into the
-- set, and the result is a list without duplicates.
pub int_set_add_lem :
    (list : Option (List ℕ)) (val w : ℕ)
    → IsSetList int_eq (words_of list)
    → (int_set_contains (int_set_add list val) w ≡ (val == w || int_set_contains list w))
      × (int_set_contains (int_set_prepend list val) w ≡ (val == w || int_set_contains list w))
      × IsSetList int_eq (words_of (int_set_add list val))
      × IsSetList int_eq (words_of (int_set_prepend list val))
int_set_add_lem list val w h = (
  contains-mem (int_set_add list val) w
      ∙ rw (add-words list val)
          (mem-add int_eq val w (words_of list) ∙ ground (arith, contains-mem list w)),
  contains-mem (int_set_prepend list val) w
      ∙ rw (prepend-words list val) (ground (arith, contains-mem list w, ==_iff val w)),
  rw (add-words list val) (add-IsSetList int_eq val (words_of list) h),
  rw (prepend-words list val) (ground (arith, h)),
)

-- `int_set_union` of two lists without duplicates holds exactly the values of both, and is a list
-- without duplicates.
pub int_set_union_lem :
    (l1 l2 : Option (List ℕ)) (w : ℕ)
    → IsSetList int_eq (words_of l1)
    → IsSetList int_eq (words_of l2)
    → (int_set_contains (int_set_union l1 l2) w ≡ (int_set_contains l1 w || int_set_contains l2 w))
      × IsSetList int_eq (words_of (int_set_union l1 l2))
int_set_union_lem l1 l2 w h k = (
  contains-mem (int_set_union l1 l2) w
      ∙ rw (union-words l1 l2) (
          ground (
            arith,
            mem-append int_eq w (words_of l1) (news int_eq (words_of l1) (words_of l2)),
            mem-news int_eq w (words_of l1) (words_of l2),
            contains-mem l1 w,
            contains-mem l2 w,
          )),
  rw (union-words l1 l2) (union-IsSetList int_eq (words_of l1) (words_of l2) h k),
)

-- What `int_set_del` returns on any list that holds the value: the other values in order, and behind
-- them as many words of the fresh block as the value stood in the list beyond the first time.
pub int_set_del_lem :
    (a : Alloc) (list : List ℕ) (val : ℕ)
    → int_set_contains (some list) val ≡ true
    → (int_set_del a (some list) val
        ≡ ok (
            some (
              remove int_eq list val
              ++ drop (length (remove int_eq list val)) (a.fresh (length list - 1)))))
      × (length (drop (length (remove int_eq list val)) (a.fresh (length list - 1))) + 1
          ≡ count int_eq val list)
unfolding int_set_del write_block
int_set_del_lem a list val h =
    let kept = remove int_eq list val in
    let once = count_of_mem int_eq val list (sym (contains-mem (some list) val) ∙ h) in
    (
      rw (h, kept-remove list val)
          (ground (arith, length-remove int_eq val list, once, a.length-fresh (length list - 1))),
      omega (
        arith,
        length-drop (length kept) (a.fresh (length list - 1)),
        length-remove int_eq val list,
        once,
        a.length-fresh (length list - 1),
      ),
    )

int_set_del_none :
    (a : Alloc) (list : List ℕ) (val : ℕ)
    → int_set_contains (some list) val ≡ false
    → int_set_del a (some list) val ≡ ok (some list)
unfolding int_set_del
int_set_del_none a list val n = rw n

int_set_del_once :
    (a : Alloc) (list : List ℕ) (val : ℕ)
    → IsSetList int_eq list
    → int_set_contains (some list) val ≡ true
    → int_set_del a (some list) val ≡ ok (some (remove int_eq list val))
unfolding int_set_del
int_set_del_once a list val h c =
    let m = sym (contains-mem (some list) val) ∙ c in
    rw (c, kept-remove list val)
      (rw
        (write_block_full (remove int_eq list val) (a.fresh (length list - 1)) (
          omega (
            arith,
            length-remove int_eq val list,
            count_of_IsSetList int_eq val list h m,
            a.length-fresh (length list - 1),
          )))
        refl)

-- On a list without duplicates `int_set_del` returns, and takes exactly the value out of the set.
pub int_set_contains-int_set_del :
    (a : Alloc) (list : Option (List ℕ)) (val w : ℕ)
    → IsSetList int_eq (words_of list)
    → (int_set_del a list val >>= λ l. ok (int_set_contains l w))
      ≡ ok (not (val == w) && int_set_contains list w)
int_set_contains-int_set_del a none val w h = unfold int_set_del int_set_contains in ground arith
int_set_contains-int_set_del a (some list) val w h =
    elim (Bool-cases (int_set_contains (some list) val)) [
      | inl c ↦ rw (int_set_del_once a list val h c) (
          ap ok (
            contains-mem (some (remove int_eq list val)) w
            ∙ mem-remove int_eq val w list
            ∙ ground (arith, contains-mem (some list) w)))
      | inr n ↦ rw (int_set_del_none a list val n) (ap ok (ground (arith, ==_iff val w)))
    ]
