-- ===== src/RouteTable.antt =====
-- The list of the routes of one network in nest/rt-table.c: `rte_better`, `rte_mergable` and the
-- part of `rte_recalculate` that takes out the old route of a source and links the new one, in a
-- sorted table or with the best route in front. No receive or import limit is configured.
pub mod Walk
pub mod Best
pub mod Contents
pub mod Sources
pub mod Sorted
pub mod Bgp
mod Tests
use active_bgp_measurement.Base.{
  ℕ, zero, suc, ◌≡◌, ◌||◌, ◌&&◌, ◌++◌, not, List, [], ◌∷◌, Bool, true, false,
}
use active_bgp_measurement.Base.{Option, none, some, ltb, ◌==◌, if◌then◌else◌}

-- `struct rte`: its source and the protocol that sent it to the table, its preference, the address of
-- its protocol's type, and whether it is filtered. `attrs` stands for the rest.
pub record Rte (D : Type 0) : Type 0 where
  pub src : ℕ
  pub sender : ℕ
  pub pref : ℕ
  pub proto : ℕ
  pub is_filtered : Bool
  pub attrs : D

-- What the walk for the old route of a source finds: the routes in front of it and behind it.
pub data Search (D : Type 0) : Type 0 where
  collision : Search D
  unchanged : Search D
  removed : List (Rte D) → Rte D → List (Rte D) → Search D
  absent : Search D

module _ {D : Type 0} where
  abbrev pub last_of : List (Rte D) → Option (Rte D)
  last_of [] = none
  last_of (x ∷ []) = some x
  last_of (x ∷ y ∷ ys) = last_of (y ∷ ys)

  abbrev pub with_new : Option (Rte D) → List (Rte D) → List (Rte D)
  with_new none routes = routes
  with_new (some new) routes = new ∷ routes

  abbrev pub behind_best : Option (Rte D) → List (Rte D) → List (Rte D)
  behind_best none routes = routes
  behind_best (some new) [] = []
  behind_best (some new) (x ∷ xs) = x ∷ new ∷ xs

  abbrev pub head_of : List (Rte D) → Option (Rte D)
  head_of [] = none
  head_of (x ∷ xs) = some x

-- `hook new old` is the answer of the `rte_better` hook of the protocol of `new`, false without a
-- hook; `mergable_hook` the same for `rte_mergable`; `rte_same` compares all of two routes.
module _ {D : Type 0} (hook : Rte D → Rte D → Bool) where
  -- `rte_better` on two routes.
  unfoldable pub better : Rte D → Rte D → Bool
  better new old =
      if old.is_filtered
      then true
      else (if new.is_filtered
          then false
          else (if ltb old.pref new.pref
              then true
              else (if ltb new.pref old.pref
                  then false
                  else (if not (new.proto == old.proto)
                      then ltb old.proto new.proto
                      else hook new old))))

  -- The null pointer is no valid route.
  unfoldable pub rte_better : Option (Rte D) → Option (Rte D) → Bool
  rte_better new none = true
  rte_better none (some old) = old.is_filtered
  rte_better (some new) (some old) = better new old

  -- The loop that links a new route in front of the first that it is better than.
  unfoldable pub insert : Rte D → List (Rte D) → List (Rte D)
  insert new [] = new ∷ []
  insert new (k ∷ ks) = let rest = insert new ks in if better new k then new ∷ k ∷ ks else k ∷ rest

  -- In a sorted table the search starts behind the place of the old route, if the new one is not
  -- better than the route in front of that.
  unfoldable pub link_sorted : Bool → List (Rte D) → List (Rte D) → Rte D → List (Rte D)
  link_sorted had_old before after new =
      let behind = before ++ insert new after in
      let anywhere = insert new (before ++ after) in
      let before_old = if had_old then last_of before else none in
      elim before_old [ none ↦ anywhere | some b ↦ if not (better new b) then behind else anywhere ]

  -- The loop that finds a new optimal route: `best`, the routes in front of it, and those between it
  -- and the rest; then the best is relinked to the front.
  unfoldable pub elect : List (Rte D) → Rte D → List (Rte D) → List (Rte D) → List (Rte D)
  elect before best between [] = best ∷ (before ++ between)
  elect before best between (k ∷ ks) =
      let moved = elect (before ++ (best ∷ between)) k [] ks in
      let kept = elect before best (between ++ (k ∷ [])) ks in if better k best then moved else kept

  abbrev pub elect_all : List (Rte D) → List (Rte D)
  elect_all [] = []
  elect_all (x ∷ xs) = elect [] x [] xs

  -- In a table that is not sorted: `force` is the answer of the `rte_recalculate` hook, `old_is_best`
  -- the test `old == old_best`, `routes` the list without the old route.
  unfoldable pub link_best :
      Bool → Option (Rte D) → Bool → List (Rte D) → Option (Rte D) → List (Rte D)
  link_best force old_best old_is_best routes new =
      let first : Bool = elim new [ none ↦ false | some n ↦ rte_better (some n) old_best ] in
      if force
      then elect_all (with_new new routes)
      else (if first
          then with_new new routes
          else (if old_is_best then elect_all (with_new new routes) else behind_best new routes))

module _ {D : Type 0} (rte_same : Rte D → Rte D → Bool) where
  unfoldable pub find_old : ℕ → ℕ → Option (Rte D) → List (Rte D) → List (Rte D) → Search D
  find_old src p new before [] = absent
  find_old src p new before (old ∷ rest) =
      let same : Bool = elim new [ none ↦ false | some n ↦ rte_same old n ] in
      let further = find_old src p new (before ++ (old ∷ [])) rest in
      if old.src == src
      then (if not (old.sender == p)
          then collision
          else (if same then unchanged else removed before old rest))
      else further

-- `table->config->sorted` and the answer of the `rte_recalculate` hook are `sorted` and `force`.
module _ {D : Type 0} (hook rte_same : Rte D → Rte D → Bool) (sorted force : Bool) where
  -- The list with the new route, if there is one, `had_old` whether an old one was taken out.
  unfoldable pub link :
      Option (Rte D) → Bool → List (Rte D) → List (Rte D) → Option (Rte D) → List (Rte D)
  link old_best had_old before after new =
      let in_order : List (Rte D) = elim new [
        | none ↦ before ++ after
        | some n ↦ link_sorted hook had_old before after n
      ] in
      let old_is_best : Bool = elim before [ [] ↦ had_old | x ∷ xs ↦ false ] in
      if sorted then in_order else link_best hook force old_best old_is_best (before ++ after) new

  -- What follows the walk for the old route.
  unfoldable pub after_search : Option (Rte D) → List (Rte D) → Search D → List (Rte D)
  after_search new routes collision = routes
  after_search new routes unchanged = routes
  after_search none routes absent = routes
  after_search (some n) routes absent = link (head_of routes) false routes [] (some n)
  after_search new routes (removed before old after) = link (head_of routes) true before after new

  -- The protocol `p` announces or withdraws the route of `src`.
  unfoldable pub rte_recalculate : ℕ → ℕ → Option (Rte D) → List (Rte D) → List (Rte D)
  rte_recalculate src p new routes = after_search new routes (find_old rte_same src p new [] routes)
