-- ===== src/AsPath/Convert/ToNew.antt =====
-- `as_path_convert_to_new` on the buffer of a list of segments with 2-byte numbers, and the round
-- trip through the old format.
use active_bgp_measurement.Base.{ℕ, zero, suc, ◌-◌, ◌^◌, ◌≤◌, ◌<◌, ◌≡◌, ◌++◌, ◌⊎◌, inl, inr}
use active_bgp_measurement.Base.{
  List, [], ◌∷◌, length, drop, take, All, arith, true, false, refl, ap, sym, ◌∙◌,
}
use active_bgp_measurement.Base.{ok, ◌>>=◌, ltb, ◌==◌}
use active_bgp_measurement.Base.{append_assoc, append-nil, Bool-cases, lt→ltb, All-weaken}
use active_bgp_measurement.AsPath.Wire.{IsSegment}
use active_bgp_measurement.AsPath.Convert.ToOld.{as_path_convert_to_old-encode}
use active_bgp_measurement.AsPath.Wire.{Unaligned, Segment, IsAsn, IsPath, put_as}
use active_bgp_measurement.AsPath.Wire.{as_path_sequence}
use active_bgp_measurement.AsPath.Wire.{encode_asns, encode}
use active_bgp_measurement.AsPath.Length.{path_length}
use active_bgp_measurement.AsPath.Convert.{
  put_old, get_old-put_old, drop-put_old, as_path_convert_to_old, to_new_asns, to_new_loop,
  as_path_convert_to_new, encode_old_asns, encode_old, length-le-encode_old, shorten_all,
  shorten_path, any_large, has_large, front,
}

abbrev pub IsOldAsn : ℕ → Type 0
IsOldAsn v = v < 2 ^ 16

-- Every number fits two bytes.
abbrev pub IsOldPath : List Segment → Type 0
IsOldPath segs = All (λ s. (length s.asns < 256) × All IsOldAsn s.asns) segs

take_all : (n : ℕ) (vs : List ℕ) → length vs ≤ n → take n vs ≡ vs
take_all zero [] h = refl
take_all zero (v ∷ vs) h = absurd (omega arith)
take_all (suc n) [] h = refl
take_all (suc n) (v ∷ vs) h = ap (λ (r : List ℕ). v ∷ r) (take_all n vs (omega arith))

module _ (u : Unaligned) where
  to_new_asns-encode :
      (n : ℕ) (vs p dst : List ℕ)
      → n ≤ length vs
      → All IsOldAsn vs
      → to_new_asns u n (encode_old_asns u vs ++ p) dst
        ≡ ok (dst ++ encode_asns u (take n vs), encode_old_asns u (drop n vs) ++ p)
  unfolding to_new_asns encode_asns encode_old_asns
  to_new_asns-encode zero vs p dst n h = ground (arith, append-nil dst)
  to_new_asns-encode (suc n) [] p dst l h = absurd (omega arith)
  to_new_asns-encode (suc n) (v ∷ vs) p dst l (h, hs) = ground (
    arith,
    append_assoc (put_old u v) (encode_old_asns u vs) p,
    get_old-put_old u v (encode_old_asns u vs ++ p) h,
    drop-put_old u v (encode_old_asns u vs ++ p),
    append_assoc dst (put_as u v) (encode_asns u (take n vs)),
    to_new_asns-encode n vs p (dst ++ put_as u v) (omega arith) hs,
  )

  to_new_loop_done : (fuel : ℕ) (src dst : List ℕ) → to_new_loop u fuel src dst 0 ≡ ok dst
  unfolding to_new_loop
  to_new_loop_done zero [] dst = refl
  to_new_loop_done (suc fuel) [] dst = refl
  to_new_loop_done zero (t ∷ src) dst = refl
  to_new_loop_done (suc fuel) (t ∷ []) dst = refl
  to_new_loop_done (suc fuel) (t ∷ n ∷ src) dst = refl

  length-take_le : (n : ℕ) (vs : List ℕ) → n ≤ length vs → length (take n vs) ≡ n
  length-take_le zero vs h = refl
  length-take_le (suc n) [] h = absurd (omega arith)
  length-take_le (suc n) (v ∷ vs) h = ap suc (length-take_le n vs (omega arith))

  drop_all : (vs : List ℕ) → encode_old_asns u (drop (length vs) vs) ≡ []
  unfolding encode_old_asns
  drop_all [] = refl
  drop_all (v ∷ vs) = drop_all vs

  front_zero : (segs : List Segment) → front 0 segs ≡ []
  unfolding front
  front_zero [] = refl
  front_zero (s ∷ segs) = refl

  -- One round: a sequence that is longer than what is wanted is cut, and ends the loop.
  to_new_cut :
      (fuel kind req_as : ℕ) (vs p dst : List ℕ)
      → (kind == as_path_sequence) ≡ true
      → suc req_as < length vs
      → All IsOldAsn vs
      → to_new_loop u (suc fuel) (kind ∷ length vs ∷ (encode_old_asns u vs ++ p)) dst (suc req_as)
        ≡ ok ((dst ++ (kind ∷ suc req_as ∷ [])) ++ encode_asns u (take (suc req_as) vs))
  unfolding to_new_loop
  to_new_cut fuel kind req_as vs p dst k l h =
      let none_left : suc req_as - suc req_as ≡ 0 = omega arith in
      rw (k, lt→ltb (suc req_as) (length vs) l, none_left)
        (rw (to_new_asns-encode (suc req_as) vs p (dst ++ (kind ∷ suc req_as ∷ [])) (omega arith) h)
          (to_new_loop_done fuel _ _))

  -- Any other segment is copied whole.
  to_new_whole :
      (fuel kind req_as left : ℕ) (vs p dst : List ℕ)
      → ((kind == as_path_sequence) ≡ false) × (left ≡ req_as)
        ⊎ (length vs ≤ suc req_as)
          × ((kind == as_path_sequence) ≡ true)
          × (left ≡ suc req_as - length vs)
      → All IsOldAsn vs
      → to_new_loop u (suc fuel) (kind ∷ length vs ∷ (encode_old_asns u vs ++ p)) dst (suc req_as)
        ≡ to_new_loop u fuel p ((dst ++ (kind ∷ length vs ∷ [])) ++ encode_asns u vs) left
  unfolding to_new_loop
  to_new_whole fuel kind req_as left vs p dst (inl (k, e)) h =
      rw (k, e)
        (rw (to_new_asns-encode (length vs) vs p (dst ++ (kind ∷ length vs ∷ [])) (omega arith) h)
          (rw (take_all (length vs) vs (omega arith), drop_all vs)))
  to_new_whole fuel kind req_as left vs p dst (inr (l, k, e)) h =
      let fits : ltb (suc req_as) (length vs) ≡ false = ground arith in
      rw (k, e, fits)
        (rw (to_new_asns-encode (length vs) vs p (dst ++ (kind ∷ length vs ∷ [])) (omega arith) h)
          (rw (take_all (length vs) vs (omega arith), drop_all vs)))

  to_new_loop-encode :
      (segs : List Segment) (fuel : ℕ) (dst : List ℕ) (req_as : ℕ)
      → IsOldPath segs
      → length segs ≤ fuel
      → to_new_loop u fuel (encode_old u segs) dst req_as ≡ ok (dst ++ encode u (front req_as segs))
  unfolding encode encode_old front
  to_new_loop-encode [] fuel dst req_as h f = unfold to_new_loop in ground (arith, append-nil dst)
  to_new_loop-encode (s ∷ segs) fuel dst zero h f =
      to_new_loop_done fuel _ dst ∙ ap ok (sym (append-nil dst))
  to_new_loop-encode (s ∷ segs) zero dst (suc req_as) h f = absurd (omega arith)
  to_new_loop-encode (s ∷ segs) (suc fuel) dst (suc req_as) (h, hs) f =
      elim (Bool-cases (s.kind == as_path_sequence)) [
        | inl k ↦ elim (Bool-cases (ltb (suc req_as) (length s.asns))) [
          | inl cut ↦ ground (
            arith,
            to_new_cut fuel s.kind req_as s.asns (encode_old u segs) dst k (ground arith) h.1,
            length-take_le (suc req_as) s.asns,
            append_assoc dst (s.kind ∷ suc req_as ∷ []) (encode_asns u (take (suc req_as) s.asns)),
            append-nil (encode_asns u (take (suc req_as) s.asns)),
            ended (suc req_as - length s.asns) (ground arith),
          )
          | inr fits ↦
              let left = suc req_as - length s.asns in
              to_new_whole fuel s.kind req_as left s.asns (encode_old u segs) dst
                (inr (ground arith, k, refl)) h.1
              ∙ to_new_loop-encode segs fuel _ left hs (omega arith)
              ∙ ground (
                arith,
                take_all (suc req_as) s.asns,
                append_assoc (dst ++ header) (encode_asns u s.asns) (encode u (front left segs)),
                append_assoc dst header (encode_asns u s.asns ++ encode u (front left segs)),
              )
        ]
        | inr k ↦
            to_new_whole fuel s.kind req_as req_as s.asns (encode_old u segs) dst (inl (k, refl))
              h.1
            ∙ to_new_loop-encode segs fuel _ req_as hs (omega arith)
            ∙ ground (
              arith,
              append_assoc (dst ++ header) (encode_asns u s.asns) (encode u (front req_as segs)),
              append_assoc dst header (encode_asns u s.asns ++ encode u (front req_as segs)),
            )
      ]
    where
      header : List ℕ
      header = s.kind ∷ length s.asns ∷ []

      ended : (n : ℕ) → n ≡ 0 → front n segs ≡ []
      ended n e = rw e (front_zero segs)

  -- On the old buffer of a path whose numbers fit two bytes `as_path_convert_to_new` writes the
  -- 4-byte buffer of the front of the path that has `req_as` hops: a set is one hop and is never
  -- cut, the last sequence may be.
  pub as_path_convert_to_new-encode_old :
      (segs : List Segment) (req_as : ℕ)
      → IsOldPath segs
      → as_path_convert_to_new u (encode_old u segs) req_as ≡ ok (encode u (front req_as segs))
  unfolding as_path_convert_to_new
  as_path_convert_to_new-encode_old segs req_as h =
      to_new_loop-encode segs (length (encode_old u segs)) [] req_as h (length-le-encode_old u segs)

-- No segment is empty.
abbrev pub IsFull : List Segment → Type 0
IsFull segs = All (λ s. 0 < length s.asns) segs

-- All hops of a path and more are the whole path.
front_all : (segs : List Segment) (n : ℕ) → IsFull segs → path_length segs ≤ n → front n segs ≡ segs
unfolding path_length front
front_all [] n e h = unfold front in refl
front_all (s ∷ segs) zero (e, es) h = ground arith
front_all (s ∷ segs) (suc n) (e, es) h =
    ground (
      arith,
      take_all (suc n) s.asns,
      front_all segs n es,
      front_all segs (suc n - length s.asns) es,
    )

shorten_small : (vs : List ℕ) → All IsOldAsn vs → (shorten_all vs ≡ vs) × (any_large vs ≡ false)
shorten_small [] h = (refl, refl)
shorten_small (v ∷ vs) (h, hs) = ground (arith, shorten_small vs hs)

shorten_path_small :
    (segs : List Segment) → IsOldPath segs → (shorten_path segs ≡ segs) × (has_large segs ≡ false)
unfolding shorten_path has_large
shorten_path_small [] h = (refl, refl)
shorten_path_small (s ∷ segs) (h, hs) =
    ground (arith, shorten_small s.asns h.1, shorten_path_small segs hs)

IsOldPath-IsPath : (segs : List Segment) → IsOldPath segs → IsPath segs
IsOldPath-IsPath segs h =
    All-weaken _ IsSegment segs (λ s k. (k.0, All-weaken _ IsAsn s.asns (λ v b. omega arith) k.1)) h

-- A path whose numbers fit two bytes, with no empty segment, survives the trip through the old
-- format: converted to it and back, with at least its own hops wanted, it is the same buffer.
pub as_path_convert_roundtrip :
    (u : Unaligned) (segs : List Segment) (req_as : ℕ)
    → IsOldPath segs
    → IsFull segs
    → path_length segs ≤ req_as
    → (as_path_convert_to_old u (encode u segs) >>= λ r. as_path_convert_to_new u r.0 req_as)
      ≡ ok (encode u segs)
as_path_convert_roundtrip u segs req_as h e n =
    rw (as_path_convert_to_old-encode u segs (IsOldPath-IsPath segs h)) (
      rw ((shorten_path_small segs h).0) (
        as_path_convert_to_new-encode_old u segs req_as h
        ∙ ap (λ (s : List Segment). ok (encode u s)) (front_all segs req_as e n)))
