-- ===== src/Protocol/Safety.antt =====
-- No event breaks an instance of nest/proto.c: no assertion fails, no instance is used after it was
-- freed, and two calls of proto_rethink_goal are enough for every event.
use active_bgp_measurement.Base.{
  ℕ, suc, ◌||◌, ◌&&◌, not, ◌≡◌, refl, arith, Bool-cases, inl, inr, Bool, true, false, Res, ok, bug,
  fault, out_of_fuel, ◌>>=◌, if◌then◌else◌, ◌==◌, ==_self,
}
use active_bgp_measurement.Protocol.{
  Proto, ProtoState, ps_down, ps_start, ps_up, ps_stop, CoreState, fs_hungry, fs_happy, fs_flushing,
  ExportState, es_down, is_down, is_start, is_up, is_stop, is_hungry, is_flushing, same_ps,
  proto_schedule_flush_loop, proto_want_export_down, proto_want_core_down, proto_falling_down,
  proto_graceful_restart_unlock,
}
use active_bgp_measurement.Protocol.Machine.{
  to_stop, to_down, notify_state, reach_goal, proto_rethink_goal, proto_restart, proto_flush_loop,
}
use active_bgp_measurement.Protocol.Notify.{legal, settled, Legal, together}
use active_bgp_measurement.Protocol.Steps.{HookLaws, rethink_legal}

-- The instance is not to be replaced, unless its shutdown goes on.
abbrev unreplaced : Proto → Bool
unreplaced p =
    not p.reconfiguring
    || is_stop p.proto_state
    || (is_down p.proto_state && not (is_hungry p.core_state))

-- The instance is still the same allocation, and not freed.
abbrev still : ℕ → Proto → Bool
still i p = not p.freed && p.allocation == i

-- An outcome that is no other instance, and not freed.
abbrev Kept : ℕ → Res Proto → Type 0
Kept i (ok p) = still i p ≡ true
Kept i _ = true ≡ true

Legal-bind :
    (i : ℕ) (r : Res Proto) (f : Proto → Res Proto)
    → Legal r
    → Kept i r
    → ((q : Proto) → (legal q && settled q) ≡ true → still i q ≡ true → Legal (f q))
    → Legal (r >>= f)
Legal-bind i (ok q) f h k g = g q h k
Legal-bind i bug f h k g = h
Legal-bind i fault f h k g = h
Legal-bind i out_of_fuel f h k g = h

to_stop-Kept :
    (i : ℕ) (ps : ProtoState) (cs : CoreState) (es : ExportState) (p : Proto)
    → still i p ≡ true
    → Kept i (to_stop ps cs es p)
unfolding to_stop proto_want_export_down proto_want_core_down proto_falling_down
    proto_graceful_restart_unlock proto_schedule_flush_loop
to_stop-Kept i ps cs es p f = ground arith

to_down-Kept :
    (i : ℕ) (fell : Proto → Res Proto)
    → ((q : Proto)
        → q.disabled ≡ true
        → q.reconfiguring ≡ false
        → is_down q.proto_state ≡ true
        → still i q ≡ true
        → Kept i (fell q))
    → (ps : ProtoState) (cs : CoreState) (es : ExportState) (p : Proto)
    → together ps cs es p.gr_wait ≡ true
    → (is_start ps || is_up ps) ≡ true
    → p.disabled ≡ true
    → p.reconfiguring ≡ false
    → is_down p.proto_state ≡ true
    → still i p ≡ true
    → Kept i (to_down fell ps cs es p)
unfolding to_down proto_want_export_down proto_want_core_down proto_falling_down
    proto_graceful_restart_unlock proto_schedule_flush_loop
to_down-Kept i fell fl ps fs_happy es p t a d r s f = ground arith
to_down-Kept i fell fl ps fs_flushing es p t a d r s f = ground arith
to_down-Kept i fell fl ps_start fs_hungry es_down p t a d r s f =
    fl _ (ground arith) (ground arith) (ground arith) (ground arith)
to_down-Kept i fell fl ps_start fs_hungry _ p t a d r s f = ground arith
to_down-Kept i fell fl ps_up fs_hungry es p t a d r s f = ground arith
to_down-Kept i fell fl ps_down fs_hungry es p t a d r s f = ground arith
to_down-Kept i fell fl ps_stop fs_hungry es p t a d r s f = ground arith

unless_freed : (b : Bool) (r : Res Proto) → b ≡ false → Legal r → Legal (if b then fault else r)
unless_freed true r e h = ground arith
unless_freed false r e h = h

round-Legal :
    (r : Res Proto)
    → Legal r
    → Legal (
        r >>= (λ p.
          let p' = record p { flush_loop_state = false } in
          ok (if is_flushing p.core_state then proto_schedule_flush_loop p' else p')))
unfolding proto_schedule_flush_loop
round-Legal (ok q) h = ground arith
round-Legal bug h = h
round-Legal fault h = h
round-Legal out_of_fuel h = h

module _ (start shutdown : Proto → ProtoState) (laws : HookLaws start shutdown) where
  rethink_idle :
      (n : ℕ) (p : Proto)
      → p.disabled ≡ true
      → p.reconfiguring ≡ false
      → is_down p.proto_state ≡ true
      → proto_rethink_goal start shutdown (suc n) p ≡ ok p
  unfolding proto_rethink_goal reach_goal
  rethink_idle n p d r s =
      let idle : (is_start p.proto_state || is_up p.proto_state) ≡ false = ground arith in
      rw (proto_rethink_goal, r, reach_goal, d, idle) refl

  -- An instance that is disabled and not to be replaced goes down without being freed.
  stop-Kept :
      (i : ℕ) (p : Proto) (ps : ProtoState)
      → legal p ≡ true
      → (is_start p.proto_state || is_up p.proto_state) ≡ true
      → p.disabled ≡ true
      → p.reconfiguring ≡ false
      → still i p ≡ true
      → (is_stop ps || is_down ps) ≡ true
      → Kept i (notify_state (proto_rethink_goal start shutdown 1) p ps)
  unfolding notify_state
  stop-Kept i p ps_stop h a d r f s = elim (Bool-cases (same_ps p.proto_state ps_stop)) [
    | inl y ↦ rw (notify_state, y) f
    | inr n ↦
        rw (notify_state, n)
          (to_stop-Kept i p.proto_state p.core_state p.export_state
            (record p { proto_state = ps_stop }) f)
  ]
  stop-Kept i p ps_down h a d r f s = elim (Bool-cases (same_ps p.proto_state ps_down)) [
    | inl y ↦ rw (notify_state, y) f
    | inr n ↦
        rw (notify_state, n)
          (to_down-Kept i (proto_rethink_goal start shutdown 1)
            (λ q d r s f. rw (rethink_idle 0 q d r s) f) p.proto_state p.core_state p.export_state
            (record p { proto_state = ps_down }) (ground arith) a d r refl f)
  ]
  stop-Kept i p ps_start h a d r f s = ground arith
  stop-Kept i p ps_up h a d r f s = ground arith

  pub flush_legal :
      (p : Proto) → legal p ≡ true → settled p ≡ true → Legal (proto_flush_loop start shutdown 2 p)
  unfolding proto_flush_loop proto_schedule_flush_loop
  flush_legal p h k = elim (Bool-cases p.flushing) [
    | inl y ↦
        let p' = record p { flushing = false; core_state = fs_hungry } in
        elim (Bool-cases (is_down p.proto_state)) [
          | inl d ↦
              rw (proto_flush_loop, y, d)
                (round-Legal (proto_rethink_goal start shutdown 2 p')
                  (rethink_legal start shutdown laws 0 p' (ground arith)))
          | inr n ↦ rw (proto_flush_loop, y, n) (ground arith)
        ]
    | inr n ↦ rw (proto_flush_loop, n) (ground arith)
  ]

  -- An instance that is disabled and not freed so far is not freed by thinking of its goal.
  disabled-Kept :
      (i : ℕ) (p : Proto)
      → legal p ≡ true
      → unreplaced p ≡ true
      → p.disabled ≡ true
      → still i p ≡ true
      → Kept i (proto_rethink_goal start shutdown 2 p)
  unfolding proto_rethink_goal reach_goal
  disabled-Kept i p h k d f =
      let other : (p.reconfiguring && is_hungry p.core_state && is_down p.proto_state) ≡ false =
        ground arith in
      let goal : (p.disabled || p.reconfiguring) ≡ true = ground arith in
      rw (proto_rethink_goal, other, reach_goal, goal)
        (elim (Bool-cases (is_start p.proto_state || is_up p.proto_state)) [
          | inl alive ↦
              rw alive (stop-Kept i p (shutdown p) h alive d (ground arith) f (laws.stopped p))
          | inr idle ↦ rw idle f
        ])

  pub restart_legal :
      (p : Proto)
      → legal p ≡ true
      → unreplaced p ≡ true
      → p.disabled ≡ true
      → p.freed ≡ false
      → Legal (proto_restart start shutdown 2 p)
  unfolding proto_restart
  restart_legal p h k d f =
      (Legal-bind p.allocation (proto_rethink_goal start shutdown 2 p)
        (λ q.
          if q.freed || not (q.allocation == p.allocation)
          then fault
          else proto_rethink_goal start shutdown 2 (record q { disabled = false }))
        (rethink_legal start shutdown laws 0 p h)
        (disabled-Kept p.allocation p h k d (ground (arith, ==_self p.allocation)))
        (λ q good kept.
          unless_freed (q.freed || not (q.allocation == p.allocation))
            (proto_rethink_goal start shutdown 2 (record q { disabled = false })) (ground arith)
            (rethink_legal start shutdown laws 0 (record q { disabled = false }) (ground arith))))
