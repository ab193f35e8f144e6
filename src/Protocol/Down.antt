-- ===== src/Protocol/Down.antt =====
-- An instance of nest/proto.c that is to go down does so: proto_rethink_goal asks it to stop, and after
-- its last notification two rounds of the flush loop end its shutdown.
use active_bgp_measurement.Base.{
  ℕ, suc, ◌||◌, ◌&&◌, not, ◌≡◌, refl, arith, Bool-cases, Option-cases, inl, inr, Bool, true, false,
  none, some, Res, ok, bug, fault, out_of_fuel, ◌>>=◌, if◌then◌else◌,
}
use active_bgp_measurement.Protocol.{
  Proto, ProtoState, ps_down, ps_start, ps_up, ps_stop, CoreState, fs_hungry, fs_happy, fs_flushing,
  ExportState, es_down, is_down, is_start, is_up, is_stop, is_hungry, is_flushing, same_ps,
  proto_schedule_flush_loop, proto_want_export_down, proto_want_core_down, proto_falling_down,
  proto_graceful_restart_unlock,
}
use active_bgp_measurement.Protocol.Machine.{
  to_stop, to_down, notify_state, reach_goal, proto_rethink_goal, proto_notify_state,
  proto_flush_loop,
}
use active_bgp_measurement.Protocol.Notify.{legal, settled, together, flushed}
use active_bgp_measurement.Protocol.Steps.{HookLaws}
use active_bgp_measurement.Protocol.After.{After, After-mono}

module _ (removed : Bool) where
  -- The instance is to stay down: it is removed, or it is disabled and not to be replaced.
  abbrev pub meant_down : Proto → Bool
  meant_down p =
      if removed
      then p.reconfiguring && elim p.cf_new [ none ↦ true | some _ ↦ false ]
      else not p.reconfiguring && p.disabled

  -- Only an instance that is down and flushed is freed.
  abbrev gone : Proto → Bool
  gone p = not p.freed || (is_down p.proto_state && is_hungry p.core_state)

  -- It stops or is down.
  abbrev pub winding : Proto → Bool
  winding p =
      legal p
      && settled p
      && gone p
      && meant_down p
      && (is_stop p.proto_state || is_down p.proto_state)

  -- It is down.
  abbrev pub fallen : Proto → Bool
  fallen p = legal p && settled p && gone p && meant_down p && is_down p.proto_state

  -- It is down, and the round of the flush loop that ends next flushes it.
  abbrev pub marked : Proto → Bool
  marked p = fallen p && (is_hungry p.core_state || p.flushing)

  -- It is down and flushed.
  abbrev pub ended : Proto → Bool
  ended p = fallen p && is_hungry p.core_state

  to_stop-winding :
      (ps : ProtoState) (cs : CoreState) (es : ExportState) (p : Proto)
      → together ps cs es p.gr_wait ≡ true
      → flushed cs p.flushing p.flush_loop_state ≡ true
      → (is_start ps || is_up ps) ≡ true
      → meant_down p ≡ true
      → p.freed ≡ false
      → After winding (
          to_stop ps cs es (record p { proto_state = ps_stop; core_state = cs; export_state = es }))
  unfolding to_stop proto_want_export_down proto_want_core_down proto_falling_down
      proto_graceful_restart_unlock proto_schedule_flush_loop
  to_stop-winding ps cs es p h k a m f = ground arith

  to_down-fallen :
      (fell : Proto → Res Proto)
      → ((q : Proto)
          → legal q ≡ true
          → meant_down q ≡ true
          → is_down q.proto_state ≡ true
          → is_hungry q.core_state ≡ true
          → After fallen (fell q))
      → (ps : ProtoState) (cs : CoreState) (es : ExportState) (p : Proto)
      → together ps cs es p.gr_wait ≡ true
      → flushed cs p.flushing p.flush_loop_state ≡ true
      → is_down ps ≡ false
      → meant_down p ≡ true
      → p.freed ≡ false
      → After fallen (
          to_down fell ps cs es
            (record p { proto_state = ps_down; core_state = cs; export_state = es }))
  unfolding to_down proto_want_export_down proto_want_core_down proto_falling_down
      proto_graceful_restart_unlock proto_schedule_flush_loop
  to_down-fallen fell fl ps fs_happy es p h k n m f = ground arith
  to_down-fallen fell fl ps fs_flushing es p h k n m f = ground arith
  to_down-fallen fell fl ps_down fs_hungry es p h k n m f = ground arith
  to_down-fallen fell fl ps_up fs_hungry es p h k n m f = ground arith
  to_down-fallen fell fl ps_stop fs_hungry es_down p h k n m f =
      fl _ (ground arith) (ground arith) refl refl
  to_down-fallen fell fl ps_start fs_hungry es_down p h k n m f =
      fl _ (ground arith) (ground arith) (ground arith) (ground arith)
  to_down-fallen fell fl ps_stop fs_hungry _ p h k n m f = ground arith
  to_down-fallen fell fl ps_start fs_hungry _ p h k n m f = ground arith

  round_ended :
      (r : Res Proto)
      → After ended r
      → After ended (
          r >>= (λ p.
            let p' = record p { flush_loop_state = false } in
            ok (if is_flushing p.core_state then proto_schedule_flush_loop p' else p')))
  unfolding proto_schedule_flush_loop
  round_ended (ok q) h = ground arith
  round_ended bug h = h
  round_ended fault h = h
  round_ended out_of_fuel h = h

  module _ (start shutdown : Proto → ProtoState) (laws : HookLaws start shutdown) where
    rethink_ended :
        (n : ℕ) (p : Proto)
        → legal p ≡ true
        → meant_down p ≡ true
        → is_down p.proto_state ≡ true
        → is_hungry p.core_state ≡ true
        → After ended (proto_rethink_goal start shutdown (suc n) p)
    unfolding proto_rethink_goal reach_goal
    rethink_ended n p h m d c = elim (Bool-cases p.reconfiguring) [
      | inl y ↦ elim (Option-cases p.cf_new) [
        | inl e ↦ rw (proto_rethink_goal, y, c, d, e) (ground arith)
        | inr (disabled, e) ↦ ground (arith, e)
      ]
      | inr r ↦
          let other : (p.reconfiguring && is_hungry p.core_state && is_down p.proto_state) ≡ false =
            ground arith in
          let goal : (p.disabled || p.reconfiguring) ≡ true = ground arith in
          let idle : (is_start p.proto_state || is_up p.proto_state) ≡ false = ground arith in
          rw (proto_rethink_goal, other, reach_goal, goal, idle) (ground arith)
    ]

    rethink_fallen :
        (n : ℕ) (p : Proto)
        → legal p ≡ true
        → meant_down p ≡ true
        → is_down p.proto_state ≡ true
        → is_hungry p.core_state ≡ true
        → After fallen (proto_rethink_goal start shutdown (suc n) p)
    rethink_fallen n p h m d c =
        After-mono ended fallen (λ q e. ground arith) (proto_rethink_goal start shutdown (suc n) p)
          (rethink_ended n p h m d c)

    -- The last notification.
    pub notify_fallen :
        (p : Proto)
        → winding p ≡ true
        → After fallen (proto_notify_state start shutdown 2 p ps_down)
    unfolding notify_state
    notify_fallen p w = elim (Bool-cases (same_ps p.proto_state ps_down)) [
      | inl y ↦ rw (notify_state, y) (ground arith)
      | inr n ↦
          rw (notify_state, n)
            (to_down-fallen (proto_rethink_goal start shutdown 2) (rethink_fallen 1) p.proto_state
              p.core_state p.export_state p (ground arith) (ground arith) (ground arith)
              (ground arith) (ground arith))
    ]

    stop_winding :
        (p : Proto) (ps : ProtoState)
        → legal p ≡ true
        → meant_down p ≡ true
        → p.freed ≡ false
        → (is_start p.proto_state || is_up p.proto_state) ≡ true
        → (is_stop ps || is_down ps) ≡ true
        → After winding (notify_state (proto_rethink_goal start shutdown 1) p ps)
    unfolding notify_state
    stop_winding p ps_stop h m f a s =
        let n : same_ps p.proto_state ps_stop ≡ false = ground arith in
        rw (notify_state, n)
          (to_stop-winding p.proto_state p.core_state p.export_state p (ground arith) (ground arith)
            a m f)
    stop_winding p ps_down h m f a s =
        let n : same_ps p.proto_state ps_down ≡ false = ground arith in
        rw (notify_state, n)
          (After-mono fallen winding (λ q e. ground arith)
            (to_down (proto_rethink_goal start shutdown 1) p.proto_state p.core_state p.export_state
              (record p { proto_state = ps_down }))
            (to_down-fallen (proto_rethink_goal start shutdown 1) (rethink_fallen 0) p.proto_state
              p.core_state p.export_state p (ground arith) (ground arith) (ground arith) m f))
    stop_winding p ps_start h m f a s = ground arith
    stop_winding p ps_up h m f a s = ground arith

    -- Thinking of the goal of an instance that is to go down.
    pub rethink_winding :
        (p : Proto)
        → legal p ≡ true
        → meant_down p ≡ true
        → p.freed ≡ false
        → After winding (proto_rethink_goal start shutdown 2 p)
    unfolding proto_rethink_goal reach_goal
    rethink_winding p h m f =
        elim (Bool-cases (p.reconfiguring && is_hungry p.core_state && is_down p.proto_state)) [
          | inl y ↦
              After-mono fallen winding (λ q e. ground arith)
                (proto_rethink_goal start shutdown 2 p)
                (rethink_fallen 1 p h m (ground arith) (ground arith))
          | inr other ↦
              let goal : (p.disabled || p.reconfiguring) ≡ true = ground arith in
              rw (proto_rethink_goal, other, reach_goal, goal)
                (elim (Bool-cases (is_start p.proto_state || is_up p.proto_state)) [
                  | inl alive ↦ rw alive (stop_winding p (shutdown p) h m f alive (laws.stopped p))
                  | inr idle ↦ rw idle (ground arith)
                ])
        ]

    pub flush_ended :
        (p : Proto)
        → fallen p ≡ true
        → (is_hungry p.core_state || p.flushing) ≡ true
        → After ended (proto_flush_loop start shutdown 2 p)
    unfolding proto_flush_loop
    flush_ended p f m = elim (Bool-cases p.flushing) [
      | inl y ↦
          let p' = record p { flushing = false; core_state = fs_hungry } in
          let d : is_down p.proto_state ≡ true = ground arith in
          rw (proto_flush_loop, y, d)
            (round_ended (proto_rethink_goal start shutdown 2 p')
              (rethink_ended 1 p' (ground arith) (ground arith) d refl))
      | inr n ↦ rw (proto_flush_loop, n) (ground arith)
    ]

    pub flush_marked :
        (p : Proto) → fallen p ≡ true → After marked (proto_flush_loop start shutdown 2 p)
    unfolding proto_flush_loop proto_schedule_flush_loop
    flush_marked p f = elim (Bool-cases (is_hungry p.core_state || p.flushing)) [
      | inl y ↦
          After-mono ended marked (λ q e. ground arith) (proto_flush_loop start shutdown 2 p)
            (flush_ended p f y)
      | inr n ↦ let m : p.flushing ≡ false = ground arith in rw (proto_flush_loop, m) (ground arith)
    ]
