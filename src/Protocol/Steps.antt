-- ===== src/Protocol/Steps.antt =====
-- The events of an instance of nest/proto.c: each keeps it legal, and two calls of proto_rethink_goal are
-- enough for every event.
use active_bgp_measurement.Base.{
  ℕ, suc, ◌||◌, ◌&&◌, not, ◌≡◌, refl, arith, Bool-cases, Option-cases, inl, inr, Bool, true, false,
  Option, Res, ok,
}
use active_bgp_measurement.Protocol.{
  Proto, ProtoState, GracefulRestart, is_down, is_start, is_up, is_stop, is_hungry,
  proto_init_instance, proto_schedule_flush_loop, proto_feed_more, proto_graceful_restart_unlock,
}
use active_bgp_measurement.Protocol.Machine.{
  notify_state, proto_init, reach_goal, proto_rethink_goal, proto_notify_state, proto_cmd_disable,
  proto_cmd_enable, proto_cmd_restart, proto_schedule_down, proto_shutdown_loop, proto_flush_loop,
  proto_replace, proto_request_feeding, graceful_restart_done,
}
use active_bgp_measurement.Protocol.Notify.{legal, Legal, allowed, start_legal, stop_legal}

-- What nest/protocol.h says of the states that the hooks return.
pub record HookLaws (start shutdown : Proto → ProtoState) : Type 0 where
  pub started : (p : Proto) → (is_start (start p) || is_up (start p)) ≡ true
  pub stopped : (p : Proto) → (is_stop (shutdown p) || is_down (shutdown p)) ≡ true

-- The events of an instance.
pub data Event : Type 0 where
  -- The protocol or its hooks notify the core.
  notify : ProtoState → Event
  disable enable restart : Event
  schedule_down : Bool → ℕ → Event
  shutdown_loop flush_loop : Event
  replace : Option Bool → ℕ → Event
  request_feeding graceful_done : Event
  feed : Bool → Event
  -- The protocol waits with the export for the end of the graceful restart.
  wait : Event
  -- The protocol has converged.
  unlock : Event
  -- Another instance is to be flushed.
  other_flush : Event
  -- The graceful restart goes on, or other instances take or drop locks of it.
  graceful : GracefulRestart → ℕ → Event

-- When the daemon raises the event: a protocol notifies as nest/protocol.h allows, and limits and
-- feeding concern a protocol that is up.
abbrev pub raised : Proto → Event → Bool
raised p (notify ps) = allowed p.proto_state ps && not p.freed
raised p (schedule_down again code) = is_up p.proto_state && not p.freed
raised p request_feeding = is_up p.proto_state && not p.freed
raised p wait = is_start p.proto_state && not p.freed
raised p _ = not p.freed

module _ (start shutdown : Proto → ProtoState) (laws : HookLaws start shutdown) where
  reach_goal-down :
      (fell : Proto → Res Proto) (p : Proto)
      → legal p ≡ true
      → is_down p.proto_state ≡ true
      → is_hungry p.core_state ≡ true
      → p.reconfiguring ≡ false
      → Legal (reach_goal start shutdown (notify_state fell) p)
  unfolding reach_goal proto_init_instance
  reach_goal-down fell p h d c r = elim (Bool-cases (p.disabled || p.reconfiguring)) [
    | inl y ↦
        let idle : (is_start p.proto_state || is_up p.proto_state) ≡ false = ground arith in
        rw (reach_goal, y, idle) (ground arith)
    | inr n ↦
        let ready : (is_down p.proto_state && is_hungry p.core_state) ≡ true = ground arith in
        rw (reach_goal, n, ready)
          (start_legal fell (proto_init_instance p) (start (proto_init_instance p)) h d c n
            (laws.started (proto_init_instance p)))
  ]

  pub rethink-down :
      (n : ℕ) (p : Proto)
      → legal p ≡ true
      → is_down p.proto_state ≡ true
      → is_hungry p.core_state ≡ true
      → Legal (proto_rethink_goal start shutdown (suc n) p)
  unfolding proto_rethink_goal proto_init
  rethink-down n p h d c = elim (Bool-cases p.reconfiguring) [
    | inl y ↦ elim (Option-cases p.cf_new) [
      | inl e ↦ rw (proto_rethink_goal, y, c, d, e) (ground arith)
      | inr (disabled, e) ↦
          rw (proto_rethink_goal, y, c, d, e)
            (reach_goal-down (proto_rethink_goal start shutdown n) (proto_init p disabled) refl refl
              refl refl)
    ]
    | inr r ↦
        let other : (p.reconfiguring && is_hungry p.core_state && is_down p.proto_state) ≡ false =
          ground arith in
        rw (proto_rethink_goal, other)
          (reach_goal-down (proto_rethink_goal start shutdown n) p h d c r)
  ]

  pub rethink_legal :
      (n : ℕ) (p : Proto)
      → legal p ≡ true
      → Legal (proto_rethink_goal start shutdown (suc (suc n)) p)
  unfolding proto_rethink_goal reach_goal proto_init_instance
  rethink_legal n p h =
      elim (Bool-cases (p.reconfiguring && is_hungry p.core_state && is_down p.proto_state)) [
        | inl y ↦ rethink-down (suc n) p h (ground arith) (ground arith)
        | inr other ↦
            rw (proto_rethink_goal, other)
              (elim (Bool-cases (p.disabled || p.reconfiguring)) [
                | inl y ↦ elim (Bool-cases (is_start p.proto_state || is_up p.proto_state)) [
                  | inl alive ↦
                      rw (reach_goal, y, alive)
                        (stop_legal (proto_rethink_goal start shutdown (suc n)) (rethink-down n) p
                          (shutdown p) h alive (laws.stopped p))
                  | inr idle ↦ rw (reach_goal, y, idle) (ground arith)
                ]
                | inr wanted ↦ elim (Bool-cases (is_down p.proto_state && is_hungry p.core_state)) [
                  | inl ready ↦
                      rw (reach_goal, wanted, ready)
                        (start_legal (proto_rethink_goal start shutdown (suc n))
                          (proto_init_instance p) (start (proto_init_instance p)) h (ground arith)
                          (ground arith) (ground arith) (laws.started (proto_init_instance p)))
                  | inr busy ↦ rw (reach_goal, wanted, busy) (ground arith)
                ]
              ])
      ]

-- What the daemon does at an event.
module _ (start shutdown : Proto → ProtoState) where
  abbrev pub step : Proto → Event → Res Proto
  step p (notify ps) = proto_notify_state start shutdown 2 p ps
  step p disable = proto_cmd_disable start shutdown 2 p
  step p enable = proto_cmd_enable start shutdown 2 p
  step p restart = proto_cmd_restart start shutdown 2 p
  step p (schedule_down again code) = proto_schedule_down p again code
  step p shutdown_loop = proto_shutdown_loop start shutdown 2 p
  step p flush_loop = proto_flush_loop start shutdown 2 p
  step p (replace nc code) = proto_replace start shutdown 2 p nc code
  step p request_feeding = proto_request_feeding p
  step p graceful_done = graceful_restart_done p
  step p (feed done) = ok (proto_feed_more p done)
  step p wait = ok (record p { gr_wait = true })
  step p unlock = ok (proto_graceful_restart_unlock p)
  step p other_flush = ok (proto_schedule_flush_loop p)
  step p (graceful state locks) =
      ok (record p { graceful_restart_state = state; graceful_restart_locks = locks })
