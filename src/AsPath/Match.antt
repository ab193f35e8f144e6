-- ===== src/AsPath/Match.antt =====
-- `as_path_match` of nest/a-path.c: an AS path against a path mask, by a nondeterministic automaton
-- whose states are the positions of the path.
pub mod Parse
pub mod Steps
pub mod StepLoop
pub mod Language
pub mod Bounds
pub mod Loop
pub mod Decides
pub mod Mask
pub mod Correct
use active_bgp_measurement.Base.{ℕ, zero, suc, ◌+◌, ◌-◌, ◌*◌, ◌≡◌, ◌&&◌, ◌||◌, ◌++◌, not}
use active_bgp_measurement.Base.{
  List, [], ◌∷◌, map, length, drop, set, get_elem?, Bool, true, false,
}
use active_bgp_measurement.Base.{Res, ok, bug, fault, out_of_fuel, ◌>>=◌, ltb, leb, ◌==◌}
use active_bgp_measurement.Base.{if◌then◌else◌, Option, none, some}
use active_bgp_measurement.AsPath.Wire.{Unaligned, bs, get_as, as_path_set, as_path_sequence}

-- `struct pm_pos` without its mark: the `set` flag and the union are one constructor. `sp` is the
-- buffer from the count byte of the set on.
pub data PmVal : Type 0 where
  sp : List ℕ → PmVal
  asn : ℕ → PmVal

abbrev pub is_set : PmVal → Bool
is_set (sp p) = true
is_set (asn v) = false

-- `struct f_path_mask`
pub data MaskItem : Type 0 where
  pm_asn : ℕ → MaskItem
  pm_question : MaskItem
  pm_asterisk : MaskItem
  pm_asn_expr : MaskItem
  pm_asn_range : ℕ → ℕ → MaskItem

module _ (u : Unaligned) where
  pub parse_asns : ℕ → List ℕ → List PmVal → Res (List PmVal × List ℕ)
  parse_asns zero p pos = ok (pos, p)
  parse_asns (suc n) p pos = do v ← get_as u p; parse_asns n (drop bs p) (pos ++ (asn v ∷ []))

  pub parse_loop : ℕ → List ℕ → List PmVal → Res (List PmVal)
  parse_loop fuel [] pos = ok pos
  parse_loop zero (t ∷ p) pos = out_of_fuel
  parse_loop (suc fuel) (t ∷ []) pos =
      if t == as_path_set || t == as_path_sequence then fault else bug
  parse_loop (suc fuel) (t ∷ len ∷ p) pos =
      let after_set = parse_loop fuel (drop (bs * len) p) (pos ++ (sp (len ∷ p) ∷ [])) in
      let after_sequence = parse_asns len p pos >>= λ r. parse_loop fuel r.1 r.0 in
      if t == as_path_set
      then after_set
      else (if t == as_path_sequence then after_sequence else bug)

  pub parse_path : List ℕ → Res (List PmVal)
  parse_path path = parse_loop (length path) path []

  -- The loop of `pm_match` over the numbers of a set.
  pub pm_match_set : ℕ → ℕ → ℕ → List ℕ → Res Bool
  pm_match_set lo hi zero p = ok false
  pm_match_set lo hi (suc n) p = do
    gas ← get_as u p
    let rest = pm_match_set lo hi n (drop bs p)
    if leb lo gas && leb gas hi then ok true else rest

  pub pm_match : ℕ → ℕ → PmVal → Res Bool
  pm_match lo hi (asn v) = ok (leb lo v && leb v hi)
  pm_match lo hi (sp []) = fault
  pm_match lo hi (sp (len ∷ p)) = pm_match_set lo hi len p

-- `pos[i].mark` and `pos[i].set`; the position `plen` behind the path is no set.
abbrev pub marked : List Bool → ℕ → Bool
marked marks i = elim (get_elem? marks i) [ none ↦ false | some b ↦ b ]

abbrev pub is_set_at : List PmVal → ℕ → Bool
is_set_at vals i = elim (get_elem? vals i) [ none ↦ false | some v ↦ is_set v ]

-- The `for` loop of `pm_mark` and the mark behind it, with `plen - j` rounds at most: the marks and
-- the final `j`.
pub mark_run : List PmVal → ℕ → List Bool → ℕ → List Bool × ℕ
mark_run vals zero marks j = (set marks j true, j)
mark_run vals (suc k) marks j =
    let next = mark_run vals k (set marks j true) (j + 1) in
    if is_set_at vals j && not (marked marks j) then next else (set marks j true, j)

-- `nl` and `nh` while they are not -1.
abbrev pub Bounds : Type 0
Bounds = Option (ℕ × ℕ)

pub pm_mark : List PmVal → ℕ → ℕ → List Bool → Bounds → List Bool × Bounds
pm_mark vals plen i marks bounds =
    let marks' = if is_set_at vals i then set marks i true else marks in
    let run = mark_run vals (plen - (i + 1)) marks' (i + 1) in
    let nl = i + (if is_set_at vals i then 0 else 1) in
    (run.0, elim bounds [ none ↦ some (nl, run.1) | some (l, h) ↦ some (nl, h) ])

-- The body of the loop over the marked positions.
pub visit : (PmVal → Res Bool) → List PmVal → ℕ → ℕ → List Bool → Bounds → Res (List Bool × Bounds)
visit test vals plen i marks bounds =
    if marked marks i
    then (elim (get_elem? vals i) [
      | none ↦ fault
      | some v ↦ test v >>= λ hit.
          (if hit
            then ok (pm_mark vals plen i (set marks i false) bounds)
            else ok (set marks i false, bounds))
    ])
    else ok (marks, bounds)

-- `for (i = h; i >= l; i--)`, at `i = l + k` with `k` more below it.
pub step_loop :
    (PmVal → Res Bool) → List PmVal → ℕ → ℕ → ℕ → List Bool → Bounds → Res (List Bool × Bounds)
step_loop test vals plen l zero marks bounds = ok (marks, bounds)
step_loop test vals plen l (suc k) marks bounds =
    visit test vals plen (l + k) marks bounds >>= λ r. step_loop test vals plen l k r.0 r.1

-- `for (i = l; i <= plen; i++) pos[i].mark = 1`, with `k` rounds left.
pub fill : ℕ → ℕ → List Bool → List Bool
fill zero i marks = marks
fill (suc k) i marks = fill k (i + 1) (set marks i true)

-- What an item asks of one position. `ASSERT(0)` stops at a mask that was not evaluated.
pub item_test : Unaligned → MaskItem → PmVal → Res Bool
item_test u (pm_asn v) val = pm_match u v v val
item_test u (pm_asn_range lo hi) val = pm_match u lo hi val
item_test u pm_question val = ok true
item_test u pm_asterisk val = bug
item_test u pm_asn_expr val = bug

-- `while (mask)`
pub match_loop : Unaligned → List PmVal → ℕ → List MaskItem → List Bool → ℕ → ℕ → Res Bool
match_loop u vals plen [] marks l h = ok (marked marks plen)
match_loop u vals plen (pm_asterisk ∷ mask) marks l h =
    match_loop u vals plen mask (fill (plen + 1 - l) l (set marks plen false)) l plen
match_loop u vals plen (pm_asn_expr ∷ mask) marks l h = bug
match_loop u vals plen (item ∷ mask) marks l h =
    step_loop (item_test u item) vals plen l (h + 1 - l) (set marks plen false) none >>= λ r.
    elim r.1 [ none ↦ ok false | some (nl, nh) ↦ match_loop u vals plen mask r.0 nl nh ]

-- Only the first position is marked.
abbrev pub first_only : List PmVal → List Bool
first_only vals = true ∷ map (λ _. false) vals

-- The array `pos` has room for 2048 positions and the one behind them.
pub as_path_match : Unaligned → List ℕ → List MaskItem → Res Bool
as_path_match u path mask = do
  vals ← parse_path u path
  let found = match_loop u vals (length vals) mask (first_only vals) 0 0
  if ltb 2048 (length vals) then fault else found
