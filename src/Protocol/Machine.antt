-- ===== src/Protocol/Machine.antt =====
-- proto_notify_state and proto_rethink_goal of nest/proto.c, the commands, the flush loop and the
-- scheduled shutdown, each for one instance.
use active_bgp_measurement.Base.{
  ℕ, zero, suc, ◌||◌, ◌&&◌, not, Bool, true, false, Option, none, some, Res, ok, fault, out_of_fuel,
  ◌>>=◌, if◌then◌else◌, ◌==◌,
}
use active_bgp_measurement.Protocol.{
  Proto, ProtoState, ps_down, ps_start, ps_up, ps_stop, CoreState, fs_hungry, ExportState, es_down,
  unscheduled, pds_disable, pds_restart, grs_done, is_down, is_start, is_up, is_stop, is_hungry,
  is_happy, is_flushing, no_export, is_feeding, same_ps, assert, proto_init_instance,
  proto_schedule_feed, proto_schedule_flush_loop, proto_want_core_up, proto_want_export_up,
  proto_want_export_down, proto_want_core_down, proto_falling_down,
}

abbrev pub when : Bool → (Proto → Res Proto) → Proto → Res Proto
when true f p = f p
when false f p = ok p

-- The four cases of `proto_notify_state`, with the core and export states before the change.
unfoldable pub to_start : ProtoState → CoreState → ExportState → Proto → Res Proto
to_start ops cs es p =
    assert (is_down ops || is_up ops) p
    >>= (λ p. assert (is_hungry cs || is_happy cs) p)
    >>= (λ p. when (not (no_export es)) proto_want_export_down p)

unfoldable pub to_up : ProtoState → CoreState → ExportState → Proto → Res Proto
to_up ops cs es p =
    assert (is_down ops || is_start ops) p
    >>= (λ p. assert (is_hungry cs || is_happy cs) p)
    >>= (λ p. assert (no_export es) p)
    >>= (λ p. when (is_hungry cs) proto_want_core_up p)
    >>= (λ p. when (not p.gr_wait) proto_want_export_up p)

unfoldable pub to_stop : ProtoState → CoreState → ExportState → Proto → Res Proto
to_stop ops cs es p =
    assert (is_start ops || is_up ops) p
    >>= (λ p. ok (record p { down_sched = unscheduled }))
    >>= (λ p. when (not (no_export es)) proto_want_export_down p)
    >>= (λ p. when (is_happy cs) proto_want_core_down p)
    >>= (λ p. ok (proto_falling_down p))

-- `fell` is proto_fell_down, which clears the statistics and thinks of the goal again.
unfoldable pub to_down :
    (Proto → Res Proto) → ProtoState → CoreState → ExportState → Proto → Res Proto
to_down fell ops cs es p =
    ok (record p { down_code = 0; down_sched = unscheduled })
    >>= (λ p. when (not (no_export es)) proto_want_export_down p)
    >>= (λ p. when (is_happy cs) proto_want_core_down p)
    >>= (λ p. ok (if is_stop ops then p else proto_falling_down p))
    >>= (λ p. when (is_hungry cs) fell (record p { pool = false }))

unfoldable pub notify_state : (Proto → Res Proto) → Proto → ProtoState → Res Proto
notify_state fell p ps =
    let p' = record p { proto_state = ps } in
    if same_ps p.proto_state ps then ok p else elim ps [
      | ps_start ↦ to_start p.proto_state p.core_state p.export_state p'
      | ps_up ↦ to_up p.proto_state p.core_state p.export_state p'
      | ps_stop ↦ to_stop p.proto_state p.core_state p.export_state p'
      | ps_down ↦ to_down fell p.proto_state p.core_state p.export_state p'
    ]

-- `proto_init`: a new instance of a configuration that is disabled or not.
unfoldable pub proto_init : Proto → Bool → Proto
proto_init p disabled = record p {
  proto_state = ps_down;
  core_state = fs_hungry;
  export_state = es_down;
  disabled = disabled;
  reconfiguring = false;
  cf_new = none;
  refeeding = false;
  flushing = false;
  gr_recovery = false;
  gr_lock = false;
  gr_wait = false;
  down_sched = unscheduled;
  down_code = 0;
  pool = false;
  feed_initial = false;
  freed = false;
  allocation = suc p.allocation;
}

unfoldable pub proto_schedule_down : Proto → Bool → ℕ → Res Proto
proto_schedule_down p restart code = assert (is_up p.proto_state) p >>= (λ p.
    ok (elim p.down_sched [
      | pds_disable ↦ p
      | _ ↦ record p { down_sched = if restart then pds_restart else pds_disable; down_code = code }
    ]))

-- `rt_feed_baby_abort` is a matter of the tables.
unfoldable pub proto_request_feeding : Proto → Res Proto
proto_request_feeding p = assert (is_up p.proto_state) p >>= (λ p. ok (
    if no_export p.export_state
    then p
    else (if is_feeding p.export_state && p.feed_initial then p else proto_schedule_feed p false)))

-- The round of graceful_restart_done for the instance.
unfoldable pub graceful_restart_done : Proto → Res Proto
graceful_restart_done p =
    when p.gr_recovery
      (λ p.
        when (is_up p.proto_state && p.gr_wait) proto_want_export_up p
        >>= (λ p. ok (record p { gr_recovery = false; gr_wait = false; gr_lock = false })))
      (record p { graceful_restart_state = grs_done })
    >>= (λ p. ok (record p { graceful_restart_locks = 0 }))

-- The hooks of the protocol, by the state they return (nest/protocol.h).
module _ (start shutdown : Proto → ProtoState) where
  -- What proto_rethink_goal does once the instance is the one to think of.
  unfoldable pub reach_goal : (Proto → ProtoState → Res Proto) → Proto → Res Proto
  reach_goal notify p =
      let p' = proto_init_instance p in
      if p.disabled || p.reconfiguring
      then when (is_start p.proto_state || is_up p.proto_state) (λ p. notify p (shutdown p)) p
      else when (is_down p.proto_state && is_hungry p.core_state) (λ p. notify p' (start p')) p

  -- The two functions call each other; the number is how often.
  unfoldable pub proto_rethink_goal : ℕ → Proto → Res Proto
  proto_rethink_goal zero p = out_of_fuel
  proto_rethink_goal (suc n) p =
      let notify = notify_state (proto_rethink_goal n) in
      if p.reconfiguring && is_hungry p.core_state && is_down p.proto_state
      then elim p.cf_new [
        | none ↦ ok (record p { freed = true })
        | some disabled ↦ reach_goal notify (proto_init p disabled)
      ]
      else reach_goal notify p

  abbrev pub proto_notify_state : ℕ → Proto → ProtoState → Res Proto
  proto_notify_state n p ps = notify_state (proto_rethink_goal n) p ps

  unfoldable pub proto_cmd_disable : ℕ → Proto → Res Proto
  proto_cmd_disable n p =
      if p.disabled
      then ok p
      else proto_rethink_goal n (record p { disabled = true; down_code = 17 })

  unfoldable pub proto_cmd_enable : ℕ → Proto → Res Proto
  proto_cmd_enable n p =
      if not p.disabled then ok p else proto_rethink_goal n (record p { disabled = false })

  -- Setting a field of an instance that was freed, also if a new one replaced it, is a fault.
  unfoldable pub proto_restart : ℕ → Proto → Res Proto
  proto_restart n p = proto_rethink_goal n p >>= (λ q.
      if q.freed || not (q.allocation == p.allocation)
      then fault
      else proto_rethink_goal n (record q { disabled = false }))

  unfoldable pub proto_cmd_restart : ℕ → Proto → Res Proto
  proto_cmd_restart n p =
      if p.disabled then ok p else proto_restart n (record p { disabled = true; down_code = 18 })

  -- The round of proto_shutdown_loop for the instance.
  unfoldable pub proto_shutdown_loop : ℕ → Proto → Res Proto
  proto_shutdown_loop n p = elim p.down_sched [
    | unscheduled ↦ ok p
    | pds_restart ↦ proto_restart n (record p { disabled = true })
    | pds_disable ↦ proto_rethink_goal n (record p { disabled = true })
  ]

  -- The end of a round of proto_flush_loop, when all tables are pruned, for the instance.
  unfoldable pub proto_flush_loop : ℕ → Proto → Res Proto
  proto_flush_loop n p =
      (if p.flushing
        then when (is_down p.proto_state) (proto_rethink_goal n)
            (record p { flushing = false; core_state = fs_hungry })
        else ok p)
      >>= (λ p.
          let p' = record p { flush_loop_state = false } in
          ok (if is_flushing p.core_state then proto_schedule_flush_loop p' else p'))

  -- The part of protos_commit for an instance that is restarted or removed.
  unfoldable pub proto_replace : ℕ → Proto → Option Bool → ℕ → Res Proto
  proto_replace n p nc code =
      proto_rethink_goal n (record p { down_code = code; cf_new = nc; reconfiguring = true })
